-- ===== src/Axum/Inference.antt =====
-- services/rust-axum/src/inference.rs: `request_partial`. What the HTTP client gives for the request is a
-- value of `Reply`. Instants are numbers of nanoseconds.

use websocket_stt_bench.Common.{
  ℕ, ◌+◌, ◌-◌, ◌%◌, ◌^◌, String, Bool, true, false, ◌&&◌, Option, none, some, List, [], ◌∷◌, ◌++◌,
  ltb, leb, ◌==◌, if◌then◌else◌, Result, ok, err, length, last_or,
}
use websocket_stt_bench.Common.Float.{Float64, millis_f64}
use websocket_stt_bench.Axum.Protocol.{
  Frame, InferResponse, PartialMessage, new_partial, error_type, ErrorStage, inference_request,
  inference_response_parse, ErrorKind, timeout, http_5xx, http_429, connection_reset, parse_error,
  ErrorMessage,
}

-- What of `AppContext` a request uses, but for the client and the address.
pub record AppContext : Type 0 where
  pub cpu_passes : ℕ
  pub model_delay_ms : ℕ
  pub flush_interval : ℕ

-- `AppContext::inference_client`: the counter and the client's index.
unfoldable pub inference_client : (clients next : ℕ) → ℕ × ℕ
inference_client clients next = ((next + 1) % 2 ^ 64, next % clients)

-- `reqwest::Error`: what the code asks of it.
pub record RequestError : Type 0 where
  pub is_timeout : Bool
  pub is_connect : Bool
  pub is_decode : Bool
  pub text : String

-- No response; or a status and what its body parses as, or the error of that.
pub data Reply (F : Type 0) : Type 0 where
  failed : RequestError → Reply F
  responded : ℕ → Result (InferResponse F) String → Reply F

unfoldable pub concat_pcm : List Frame → List ℕ
concat_pcm [] = []
concat_pcm (f ∷ rest) = f.payload ++ concat_pcm rest

abbrev pub classify_request_error : RequestError → ErrorKind × Bool
classify_request_error e =
    if e.is_timeout
    then (timeout, true)
    else if e.is_connect
    then (connection_reset, true)
    else if e.is_decode
    then (parse_error, false)
    else (connection_reset, true)

abbrev pub classify_status : ℕ → ErrorKind × Bool
classify_status status =
    if status == 429
    then (http_429, true)
    else if leb 500 status && ltb status 600
    then (http_5xx, true)
    else (http_5xx, false)

-- A request in flight: its batch, given as the first frame and the others, and what is read at its start.
pub record Request (F : Type 0) : Type 0 where
  pub oldest : Frame
  pub others : List Frame
  pub flush_lateness_ms : F
  pub started_at : ℕ

module _ {F : Type 0} where
  abbrev pub batch_of : Request F → List Frame
  batch_of r = r.oldest ∷ r.others

  abbrev pub newest_of : Request F → Frame
  newest_of r = last_or r.oldest r.others

  abbrev pub body_of : Request F → List ℕ
  body_of r = concat_pcm (batch_of r)

module _ {F : Type 0} (fl : Float64 F) where
  unfoldable pub make_error :
      Request F
      → (now buffered : ℕ) → ErrorStage
      → ErrorKind
      → String
      → Option ℕ
      → Bool
      → ErrorMessage F
  unfolding concat_pcm
  make_error r now buffered stage kind message status retryable = record {
    type_tag = error_type;
    stage = stage;
    kind = kind;
    message = message;
    oldest_frame_seq = r.oldest.seq;
    newest_frame_seq = (newest_of r).seq;
    frames = length (batch_of r);
    audio_bytes = length (body_of r);
    oldest_age_ms = millis_f64 fl (now - r.oldest.received_at);
    newest_age_ms = millis_f64 fl (now - (newest_of r).received_at);
    flush_lateness_ms = r.flush_lateness_ms;
    inference_elapsed_ms = some (millis_f64 fl (now - r.started_at));
    inflight_gateway_batches = 1;
    gateway_buffer_frames = buffered;
    inference_status = status;
    retryable = retryable;
  }

  -- A success status, given what the body parses as.
  unfoldable pub on_success :
      AppContext
      → Request F
      → (now buffered status : ℕ) → Result (InferResponse F) String
      → Result (PartialMessage F) (ErrorMessage F)
  unfolding make_error new_partial
  on_success context r now buffered status (ok infer) = ok (
      new_partial infer
        (record {
          oldest_frame_seq = r.oldest.seq;
          newest_frame_seq = (newest_of r).seq;
          frames = length (batch_of r);
          flush_lateness_ms = r.flush_lateness_ms;
        })
        context.cpu_passes context.model_delay_ms)
  on_success context r now buffered status (err e) =
      err (make_error r now buffered inference_response_parse parse_error e (some status) false)

  -- `request_partial`, given the reply, the instant of it, and the frames that are then in the buffer;
  -- `status_message` is the text about a status.
  unfoldable pub request_partial :
      (ℕ → String)
      → AppContext
      → Request F
      → (now buffered : ℕ) → Reply F
      → Result (PartialMessage F) (ErrorMessage F)
  unfolding make_error on_success
  request_partial status_message context r now buffered (failed e) =
      let (kind, retryable) = classify_request_error e in
      err (make_error r now buffered inference_request kind e.text none retryable)
  request_partial status_message context r now buffered (responded status parsed) =
      if leb 200 status && ltb status 300
      then on_success context r now buffered status parsed
      else (let (kind, retryable) = classify_status status in
          err (
            make_error r now buffered inference_request kind (status_message status) (some status)
              retryable))
