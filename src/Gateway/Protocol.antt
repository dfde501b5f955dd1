-- ===== src/Gateway/Protocol.antt =====
-- services/rust-sync/src/protocol.rs: the wire types. JSON itself is `serde_json`'s, a parameter: what
-- of it the gateway calls is the record `Json`.
use websocket_stt_bench.Common.{ℕ, String, Bool, Option, List}

pub record InferResponse (F : Type 0) : Type 0 where
  pub rms : F
  pub zero_crossings : ℕ
  pub checksum : ℕ
  pub samples : ℕ
  pub transcript : String
  pub audio_bytes : ℕ

pub record PartialMessage (F : Type 0) : Type 0 where
  pub type_tag : String
  pub oldest_frame_seq : ℕ
  pub newest_frame_seq : ℕ
  pub frames : ℕ
  pub rms : F
  pub zero_crossings : ℕ
  pub checksum : ℕ
  pub samples : ℕ
  pub transcript : String
  pub audio_bytes : ℕ
  pub cpu_passes : ℕ
  pub model_delay_ms : ℕ
  pub flush_lateness_ms : F
  pub inflight_model_jobs : ℕ

pub data ErrorStage : Type 0 where
  inference_request inference_response_parse : ErrorStage

pub data ErrorKind : Type 0 where
  timeout http_5xx http_429 connection_reset parse_error : ErrorKind

pub record ErrorMessage (F : Type 0) : Type 0 where
  pub type_tag : String
  pub stage : ErrorStage
  pub kind : ErrorKind
  pub message : String
  pub oldest_frame_seq : ℕ
  pub newest_frame_seq : ℕ
  pub frames : ℕ
  pub audio_bytes : ℕ
  pub oldest_age_ms : F
  pub newest_age_ms : F
  pub flush_lateness_ms : F
  pub inference_elapsed_ms : Option F
  pub inflight_gateway_batches : ℕ
  pub gateway_buffer_frames : ℕ
  pub inference_status : Option ℕ
  pub retryable : Bool

abbrev pub partial_type : String
partial_type = "partial"

abbrev pub error_type : String
error_type = "error"

-- The wire spelling that serde gives the two enums.
abbrev pub stage_name : ErrorStage → String
stage_name inference_request = "inference_request"
stage_name inference_response_parse = "inference_response_parse"

abbrev pub kind_name : ErrorKind → String
kind_name timeout = "timeout"
kind_name http_5xx = "http_5xx"
kind_name http_429 = "http_429"
kind_name connection_reset = "connection_reset"
kind_name parse_error = "parse_error"

-- `from_str::<StartMessage>(..).is_ok()`, `to_writer` of the two messages (`none` is its error), and
-- `from_slice::<InferResponse>`, with the text of its error. `T` is the type of the JSON texts that go out.
pub record Json (F T : Type 0) : Type 0 where
  pub is_start : String → Bool
  pub write_partial : PartialMessage F → Option T
  pub write_error : ErrorMessage F → Option T
  pub read_infer : List ℕ → Option (InferResponse F)
  pub read_infer_error : List ℕ → String
