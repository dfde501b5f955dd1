-- ===== src/Gateway/Inference.antt =====
-- services/rust-sync/src/inference.rs: errors, commands and results that the two loops exchange. The
-- sockets and the pool are in the child modules.
pub mod Reply
pub mod Pool
pub mod Lending
pub mod Thread
pub mod Statuses
use websocket_stt_bench.Common.{ℕ, String, Bool, true, false, Option, none, List, Result}
use websocket_stt_bench.Common.Float.{Float64}
use websocket_stt_bench.Gateway.Protocol.{
  ErrorStage, inference_request, ErrorKind, timeout, connection_reset, parse_error, InferResponse,
}

-- Thread A to thread B.
pub data Cmd : Type 0 where
  submit : (owner tag : ℕ) (body : List ℕ) (cpu_passes : ℕ) → Cmd
  abort : (owner : ℕ) → Cmd

pub record InferError (F : Type 0) : Type 0 where
  pub stage : ErrorStage
  pub kind : ErrorKind
  pub message : String
  pub status : Option ℕ
  pub retryable : Bool
  pub elapsed_ms : F

-- Thread B to thread A.
pub record Done (F : Type 0) : Type 0 where
  pub owner : ℕ
  pub tag : ℕ
  pub result : Result (InferResponse F) (InferError F)

module _ {F : Type 0} where
  unfoldable pub transport_error : ErrorKind → String → F → InferError F
  transport_error kind message elapsed_ms = record {
    stage = inference_request;
    kind = kind;
    message = message;
    status = none;
    retryable = true;
    elapsed_ms = elapsed_ms;
  }

  unfoldable pub timeout_error : F → InferError F
  unfolding transport_error
  timeout_error elapsed_ms = transport_error timeout "inference timed out" elapsed_ms

module _ {F : Type 0} (fl : Float64 F) where
  unfoldable pub reset_error : InferError F
  unfolding transport_error
  reset_error = transport_error connection_reset "inference connection reset" (fl.of_nat 0)
