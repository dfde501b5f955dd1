-- ===== src/Loadgen/Verify.antt =====
-- loadgen/rust/src/verify.rs: the client's checks of one response, of the order of responses, and
-- of the end of a session. A `Mismatch` is its kind; the text of its `detail` is not modelled.
pub mod Values
pub mod Coverage
mod Tests
use websocket_stt_bench.Common.{
  ℕ, zero, suc, ◌+◌, ◌-◌, ◌*◌, ◌/◌, ◌^◌, min, max, String, Bool, not, ◌||◌, Option, none, some,
  List, [], ◌∷◌, ◌++◌, ltb, leb, ◌==◌, str_eq, if◌then◌else◌,
}
use websocket_stt_bench.Common.Float.{Float64}
use websocket_stt_bench.Stub.{StubResult, compute_stub}
use websocket_stt_bench.Loadgen.Protocol.{
  PartialMessage, frame_bytes, frame_interval, flush_interval, frame_payload,
}

-- Durations are in milliseconds.
abbrev pub gateway_inference_timeout : ℕ
gateway_inference_timeout = 2000

abbrev pub tail_tolerance : ℕ
tail_tolerance = 2 * flush_interval + 2 * gateway_inference_timeout

abbrev pub tail_tolerance_frames : ℕ
tail_tolerance_frames = tail_tolerance / frame_interval

abbrev pub max_verify_frames : ℕ
max_verify_frames = 30000

pub record ExpectedConfig : Type 0 where
  pub cpu_passes : ℕ
  pub model_delay_ms : ℕ

pub data MismatchKind : Type 0 where
  continuity_gap continuity_overlap invalid_range unsent_frame range_too_large : MismatchKind
  missing_tail malformed_message invalid_partial : MismatchKind
  frames audio_bytes cpu_passes model_delay_ms checksum zero_crossings samples : MismatchKind
  rms transcript : MismatchKind

-- `MismatchKind::as_str`
abbrev pub as_str : MismatchKind → String
as_str continuity_gap = "continuity_gap"
as_str continuity_overlap = "continuity_overlap"
as_str invalid_range = "invalid_range"
as_str unsent_frame = "unsent_frame"
as_str range_too_large = "range_too_large"
as_str missing_tail = "missing_tail"
as_str malformed_message = "malformed_message"
as_str invalid_partial = "invalid_partial"
as_str frames = "frames"
as_str audio_bytes = "audio_bytes"
as_str cpu_passes = "cpu_passes"
as_str model_delay_ms = "model_delay_ms"
as_str checksum = "checksum"
as_str zero_crossings = "zero_crossings"
as_str samples = "samples"
as_str rms = "rms"
as_str transcript = "transcript"

-- `ExpectedConfig::default`
abbrev pub default_config : ExpectedConfig
default_config = record { cpu_passes = 4; model_delay_ms = 75 }

-- `for seq in oldest..=newest { out.extend_from_slice(..) }`, with the number of frames that are left.
unfoldable pub payload_frames : ℕ → ℕ → ℕ → List ℕ
payload_frames session_id seq zero = []
payload_frames session_id seq (suc left) =
    frame_payload session_id seq ++ payload_frames session_id (seq + 1) left

unfoldable pub concat_payload : ℕ → ℕ → ℕ → List ℕ
unfolding payload_frames
concat_payload session_id oldest newest =
    if ltb newest oldest then [] else payload_frames session_id oldest (newest - oldest + 1)

-- `if test { out.push(kind) }`
abbrev pub push_if : Bool → MismatchKind → List MismatchKind → List MismatchKind
push_if test kind rest = if test then kind ∷ rest else rest

-- `u64::saturating_mul`
abbrev pub saturating_mul : ℕ → ℕ → ℕ
saturating_mul a b = min (a * b) (2 ^ 64 - 1)

module _ {F : Type 0} (fl : Float64 F) where
  unfoldable pub expected_stub : ℕ → ℕ → ℕ → ℕ → StubResult F
  expected_stub session_id oldest newest passes =
      compute_stub fl (concat_payload session_id oldest newest) passes

  unfoldable pub rms_matches : F → F → Bool
  rms_matches actual expected =
      let diff = fl.abs (fl.sub actual expected) in
      fl.leb diff fl.tolerance || fl.leb diff (fl.mul fl.tolerance (fl.abs expected))

  -- The checks against the recomputed stub.
  unfoldable pub verify_values : PartialMessage F → StubResult F → List MismatchKind
  verify_values p want = push_if (not (p.checksum == want.checksum)) checksum (
      push_if (not (p.zero_crossings == want.zero_crossings)) zero_crossings (
        push_if (not (p.samples == want.samples)) samples (
          push_if (not (rms_matches p.rms want.rms)) rms
            (push_if (not (str_eq p.transcript want.transcript)) transcript []))))

  unfoldable pub verify_partial : ℕ → PartialMessage F → ExpectedConfig → List MismatchKind
  verify_partial session_id p expected =
      let oldest = p.oldest_frame_seq in
      let newest = p.newest_frame_seq in
      let range = newest - oldest + 1 in
      if (oldest == 0) || ltb newest oldest
      then invalid_range ∷ []
      else push_if (not (p.frames == range)) frames (
          push_if (not (p.audio_bytes == saturating_mul range frame_bytes)) audio_bytes (
            push_if (not (p.cpu_passes == expected.cpu_passes)) cpu_passes (
              push_if (not (p.model_delay_ms == expected.model_delay_ms)) model_delay_ms (
                if ltb max_verify_frames range
                then range_too_large ∷ []
                else verify_values p
                    (expected_stub session_id oldest newest expected.cpu_passes)))))

pub record Continuity : Type 0 where
  pub last_newest : ℕ

abbrev pub continuity_start : Continuity
continuity_start = record { last_newest = 0 }

unfoldable pub observe : Continuity → ℕ → ℕ → Continuity × Option MismatchKind
observe c oldest newest =
    let expected = c.last_newest + 1 in
    if (oldest == 0) || ltb newest oldest then (c, some invalid_range) else (
      record { last_newest = max c.last_newest newest },
      if ltb expected oldest
          then some continuity_gap
          else if ltb oldest expected
          then some continuity_overlap
          else none,
    )

unfoldable pub check_tail : ℕ → ℕ → Option MismatchKind
check_tail frames_sent last_reported =
    if ltb tail_tolerance_frames (frames_sent - last_reported) then some missing_tail else none
