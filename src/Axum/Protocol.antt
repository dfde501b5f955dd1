-- ===== src/Axum/Protocol.antt =====
-- services/rust-axum/src/protocol.rs: frames and the wire types. JSON is `serde_json`'s, a parameter: what
-- of it the gateway calls is the record `Json`.
use websocket_stt_bench.Common.{ℕ, String, Bool, Option, List}

pub record Frame : Type 0 where
  pub seq : ℕ
  pub payload : List ℕ
  pub received_at : ℕ

pub record PartialContext (F : Type 0) : Type 0 where
  pub oldest_frame_seq : ℕ
  pub newest_frame_seq : ℕ
  pub frames : ℕ
  pub flush_lateness_ms : F

pub record InferResponse (F : Type 0) : Type 0 where
  pub rms : F
  pub zero_crossings : ℕ
  pub checksum : ℕ
  pub samples : ℕ
  pub transcript : String
  pub audio_bytes : ℕ

pub record PartialMessage (F : Type 0) : Type 0 where
  pub type_tag : String
  pub oldest_frame_seq : ℕ
  pub newest_frame_seq : ℕ
  pub frames : ℕ
  pub rms : F
  pub zero_crossings : ℕ
  pub checksum : ℕ
  pub samples : ℕ
  pub transcript : String
  pub audio_bytes : ℕ
  pub cpu_passes : ℕ
  pub model_delay_ms : ℕ
  pub flush_lateness_ms : F
  pub inflight_model_jobs : ℕ

abbrev pub partial_type : String
partial_type = "partial"

abbrev pub error_type : String
error_type = "error"

-- `PartialMessage::new`
unfoldable pub new_partial :
    {F : Type 0}
    → InferResponse F
    → PartialContext F
    → (cpu_passes model_delay_ms : ℕ) → PartialMessage F
new_partial infer context cpu_passes model_delay_ms = record {
  type_tag = partial_type;
  oldest_frame_seq = context.oldest_frame_seq;
  newest_frame_seq = context.newest_frame_seq;
  frames = context.frames;
  rms = infer.rms;
  zero_crossings = infer.zero_crossings;
  checksum = infer.checksum;
  samples = infer.samples;
  transcript = infer.transcript;
  audio_bytes = infer.audio_bytes;
  cpu_passes = cpu_passes;
  model_delay_ms = model_delay_ms;
  flush_lateness_ms = context.flush_lateness_ms;
  inflight_model_jobs = 0;
}

pub data ErrorStage : Type 0 where
  websocket_receive batch_flush inference_request inference_response_parse websocket_send :
      ErrorStage

pub data ErrorKind : Type 0 where
  timeout pool_timeout http_5xx http_429 connection_reset parse_error send_error : ErrorKind

pub record ErrorMessage (F : Type 0) : Type 0 where
  pub type_tag : String
  pub stage : ErrorStage
  pub kind : ErrorKind
  pub message : String
  pub oldest_frame_seq : ℕ
  pub newest_frame_seq : ℕ
  pub frames : ℕ
  pub audio_bytes : ℕ
  pub oldest_age_ms : F
  pub newest_age_ms : F
  pub flush_lateness_ms : F
  pub inference_elapsed_ms : Option F
  pub inflight_gateway_batches : ℕ
  pub gateway_buffer_frames : ℕ
  pub inference_status : Option ℕ
  pub retryable : Bool

-- `from_str::<ClientMessage>(..).is_ok()`, and `to_string` of the two messages, of which `none` is its error.
-- `T` is the type of the JSON texts that go out.
pub record Json (F T : Type 0) : Type 0 where
  pub is_start : String → Bool
  pub write_partial : PartialMessage F → Option T
  pub write_error : ErrorMessage F → Option T
