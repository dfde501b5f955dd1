-- ===== src/Gateway/Inference/Lending/Tests.antt =====
-- services/rust-sync/src/inference.rs: a pool of two slots, lent and returned.
use websocket_stt_bench.Common.{
  ℕ, ◌≡◌, ◌≤◌, ◌<◌, ◌↔◌, ◌⊎◌, inr, arith, List, true, false, none, [], ◌∷◌, err,
}
use websocket_stt_bench.Common.Float.{unit_floats}
use websocket_stt_bench.Gateway.Text.{chars}
use websocket_stt_bench.Gateway.Config.{Config}
use websocket_stt_bench.Gateway.Protocol.{Json}
use websocket_stt_bench.Gateway.Inference.Pool.{error_from, SlotIo, connected, write_failed}
use websocket_stt_bench.Gateway.Inference.Lending.{new_pool}
use websocket_stt_bench.Gateway.Inference.Lending.Invariant.{IsLent}
use websocket_stt_bench.Gateway.Inference.Reply.{ParseErr, complete, read_status, classify_status}
use websocket_stt_bench.Gateway.Inference.Statuses.{every_status_retryable}
use websocket_stt_bench.Gateway.Inference.{submit, abort}
use websocket_stt_bench.Gateway.Inference.Thread.{Readiness, Command, serve, serve-IsLent}

abbrev codec : Json Unit Unit
codec = record {
  is_start = λ t. true;
  write_partial = λ m. none;
  write_error = λ m. none;
  read_infer = λ bytes. none;
  read_infer_error = λ bytes. "";
}

abbrev config : Config
config = record {
  port = 10000;
  inference_host = chars "inference-server";
  inference_port = 9000;
  inference_path = chars "/infer";
  inference_clients = 2;
  cpu_passes = 4;
  model_delay_ms = 75;
  flush_interval = 1000000000;
  flush_phase_jitter = 0;
}

-- The write fails, and the redial cannot be started.
abbrev broken : SlotIo
broken = record {
  connect = connected;
  writes = write_failed "reset" ∷ [];
  reads = [];
  closed = false;
  write_zero = "";
  unexpected_eof = "";
  redial = false;
  now = 20;
}

not_found_example :
    (e : ParseErr) × (read_status codec 404 [] ≡ complete (err e))
    × ((error_from unit_floats codec (λ n. "") e tt).retryable ≡ true)
    × (((classify_status 404).1 ≡ true) ↔ ((◌≡◌ {A = ℕ} 404 429) ⊎ ((500 ≤ 404) × (404 < 600))))
not_found_example = every_status_retryable unit_floats codec (λ n. "") 404 [] tt (inr (omega arith))

-- A batch is submitted, its write fails, and its owner is aborted.
abbrev rounds : List (List Readiness × List Command)
rounds =
    ([], record { cmd = submit 7 1 (1 ∷ 2 ∷ []) 4; now = 10; can_dial = true } ∷ [])
    ∷ (
      record { token = 1; is_writable = true; io = broken } ∷ [],
      record { cmd = abort 7; now = 30; can_dial = true } ∷ [],
    )
    ∷ []

serve-IsLent_example : IsLent (serve unit_floats codec (λ n. "") config (new_pool 2 0) rounds).pool
serve-IsLent_example = serve-IsLent unit_floats codec (λ n. "") config 2 0 rounds
