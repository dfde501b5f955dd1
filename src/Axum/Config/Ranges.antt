-- ===== src/Axum/Config/Ranges.antt =====
-- services/rust-axum/src/config.rs, main.rs and state.rs: what holds of the settings, whatever the environment.
use websocket_stt_bench.Common.{ℕ, zero, suc}
use websocket_stt_bench.Axum.Inference.{inference_client}

-- The client of the request that finds the counter at `next`, after `k` further requests.
abbrev pub client_after : (clients k next : ℕ) → ℕ
client_after clients zero next = (inference_client clients next).1
client_after clients (suc k) next = client_after clients k (inference_client clients next).0
