-- ===== src/Gateway/Wire.antt =====
-- The wire between services/rust-sync/src/protocol.rs and loadgen/rust/src/protocol.rs: how the client
-- reads what the gateway writes, and what both rely on of `serde_json`.
use websocket_stt_bench.Common.{ℕ, ◌≡◌, Option, none, some, List, [], ◌∷◌, ◌++◌}
use mathlib.Core.List
use websocket_stt_bench.Gateway.Protocol
use websocket_stt_bench.Gateway.Protocol.{Json, stage_name, kind_name, partial_type, error_type}
use websocket_stt_bench.Gateway.Session.{Sent, text, close_frame, close_reply}
use websocket_stt_bench.Loadgen.Protocol.{
  PartialMessage, ErrorMessage, ServerMessage, partial, error,
}

module _ {F : Type 0} where
  -- Field by field; the tag selects the variant of `ServerMessage`.
  abbrev pub as_partial : Protocol.PartialMessage F → PartialMessage F
  as_partial m = record {
    oldest_frame_seq = m.oldest_frame_seq;
    newest_frame_seq = m.newest_frame_seq;
    frames = m.frames;
    rms = m.rms;
    zero_crossings = m.zero_crossings;
    checksum = m.checksum;
    samples = m.samples;
    transcript = m.transcript;
    audio_bytes = m.audio_bytes;
    cpu_passes = m.cpu_passes;
    model_delay_ms = m.model_delay_ms;
    flush_lateness_ms = m.flush_lateness_ms;
    inflight_model_jobs = m.inflight_model_jobs;
  }

  abbrev pub as_error : Protocol.ErrorMessage F → ErrorMessage F
  as_error m = record {
    stage = stage_name m.stage;
    kind = kind_name m.kind;
    message = m.message;
    oldest_frame_seq = m.oldest_frame_seq;
    newest_frame_seq = m.newest_frame_seq;
    frames = m.frames;
    audio_bytes = m.audio_bytes;
    oldest_age_ms = m.oldest_age_ms;
    newest_age_ms = m.newest_age_ms;
    flush_lateness_ms = m.flush_lateness_ms;
    inference_elapsed_ms = m.inference_elapsed_ms;
    inflight_gateway_batches = m.inflight_gateway_batches;
    gateway_buffer_frames = m.gateway_buffer_frames;
    inference_status = m.inference_status;
    retryable = m.retryable;
  }

  abbrev pub range_of : ServerMessage F → ℕ × ℕ
  range_of (partial m) = (m.oldest_frame_seq, m.newest_frame_seq)
  range_of (error m) = (m.oldest_frame_seq, m.newest_frame_seq)

  abbrev pub decoded : Option (ServerMessage F) → List (ServerMessage F)
  decoded none = []
  decoded (some m) = m ∷ []

module _ {F T : Type 0} where
  -- Writing a message with its tag succeeds, and the client's parser finds the variant of the tag in the text, with
  -- the range that was written.
  pub record RoundTrip (json : Json F T) (from_str : T → Option (ServerMessage F)) : Type 0 where
    pub partial_back :
        (m : Protocol.PartialMessage F)
        → m.type_tag ≡ partial_type
        → (t : T) × (json.write_partial m ≡ some t)
          × (p : PartialMessage F) × (from_str t ≡ some (partial p))
          × (p.oldest_frame_seq ≡ m.oldest_frame_seq)
          × (p.newest_frame_seq ≡ m.newest_frame_seq)
    pub error_back :
        (m : Protocol.ErrorMessage F)
        → m.type_tag ≡ error_type
        → (t : T) × (json.write_error m ≡ some t)
          × (e : ErrorMessage F) × (from_str t ≡ some (error e))
          × (e.oldest_frame_seq ≡ m.oldest_frame_seq)
          × (e.newest_frame_seq ≡ m.newest_frame_seq)

  module _ (from_str : T → Option (ServerMessage F)) where
    abbrev pub response : Sent T → List (ServerMessage F)
    response (text t) = decoded (from_str t)
    response (close_frame code reason) = []
    response close_reply = []

    -- The responses among what was written, and the ranges that they report.
    abbrev pub responses : List (Sent T) → List (ServerMessage F)
    responses [] = []
    responses (m ∷ rest) = response m ++ responses rest

    abbrev pub ranges : List (Sent T) → List (ℕ × ℕ)
    ranges out = List.map range_of (responses out)
