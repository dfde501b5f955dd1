-- ===== src/Gateway/Loop/Tests.antt =====
-- services/rust-sync/src/main.rs: two connections accepted, one of them closed.
use websocket_stt_bench.Common.{ℕ, true, false, List, [], ◌∷◌}
use websocket_stt_bench.Gateway.Text.{chars}
use websocket_stt_bench.Gateway.Config.{Config}
use websocket_stt_bench.Gateway.Loop.{
  Accepted, stream, accept_ended, new_loop, churn, IsKeyed, churn-IsKeyed,
}

abbrev config : Config
config = record {
  port = 10000;
  inference_host = chars "inference-server";
  inference_port = 9000;
  inference_path = chars "/infer";
  inference_clients = 2;
  cpu_passes = 4;
  model_delay_ms = 75;
  flush_interval = 1000000000;
  flush_phase_jitter = 0;
}

abbrev rounds : List (List Accepted × List ℕ)
rounds = (stream true 5 0 ∷ stream false 6 0 ∷ stream true 7 0 ∷ accept_ended ∷ [], 2 ∷ []) ∷ []

churn-IsKeyed_example : IsKeyed (churn {F = Unit} {T = Unit} new_loop rounds config)
churn-IsKeyed_example = churn-IsKeyed Unit Unit rounds config
