-- ===== src/Gateway/Inference/Statuses.antt =====
-- services/rust-sync/src/inference.rs: which error statuses are reported as retryable.
use websocket_stt_bench.Common.{ℕ, ◌<◌, ◌≤◌, ◌≡◌, ◌↔◌, ◌⊎◌, arith, String, true, some, List, err}
use websocket_stt_bench.Common.Float.{Float64}
use websocket_stt_bench.Gateway.Protocol.{Json, inference_request}
use websocket_stt_bench.Gateway.Inference.Reply.{
  classify_status, kind_retryable, ParseErr, returned_status, complete, read_status,
}
use websocket_stt_bench.Gateway.Inference.Pool.{error_from}

classified_retryable : (status : ℕ) → kind_retryable (classify_status status).0 ≡ true
classified_retryable status = ground arith

module _ {F T : Type 0} (fl : Float64 F) (json : Json F T) (status_text : ℕ → String) where
  -- A reply whose status is no success is an error that the gateway reports as retryable, whatever the
  -- status, while `classify_status` calls a status retryable only if it is 429 or from 500 to 599.
  pub every_status_retryable :
      (status : ℕ) (body : List ℕ) (elapsed_ms : F)
      → (status < 200) ⊎ (300 ≤ status)
      → (e : ParseErr) × (read_status json status body ≡ complete (err e))
        × ((error_from fl json status_text e elapsed_ms).retryable ≡ true)
        × (((classify_status status).1 ≡ true)
            ↔ ((status ≡ 429) ⊎ ((500 ≤ status) × (status < 600))))
  unfolding read_status error_from
  every_status_retryable status body elapsed_ms bad = (
    record {
      stage = inference_request;
      kind = (classify_status status).0;
      message = returned_status status;
      status = some status;
    },
    ground arith,
    classified_retryable status,
    ground arith,
  )
