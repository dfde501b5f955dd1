-- ===== src/Loadgen/Conformance/Replies.antt =====
-- loadgen/rust/src/bin/stt-conformance.rs: the reading of a socket, and the cases that only read. What the socket
-- gives is a list of replies; where it ends, the deadline of the read passes. The texts of errors are
-- left out.
use websocket_stt_bench.Common.{
  ℕ, String, Bool, true, false, ◌&&◌, Option, none, some, List, [], ◌∷◌, ◌==◌, str_eq,
  if◌then◌else◌, Result, ok, err,
}
use websocket_stt_bench.Common.Float.{Float64}
use websocket_stt_bench.Loadgen.Protocol.{
  PartialMessage, ServerMessage, partial, error, Validation, valid, invalid, validate,
  golden_one_frame, golden_rms,
}
use websocket_stt_bench.Loadgen.Verify.{ExpectedConfig, rms_matches}
use websocket_stt_bench.Loadgen.Conformance.{
  new_checker, check, CaseError, not_valid, not_a_partial, server_closed, read_failed, closed_early,
  timed_out, bad_fields, golden_mismatch, wrong_code, no_code, not_a_close,
}

-- What `read.next()` gives.
pub data NextMessage (T : Type 0) : Type 0 where
  text : T → NextMessage T
  close : Option ℕ → NextMessage T
  other : NextMessage T
  closed_error failure end_of_stream : NextMessage T

module _ {F T : Type 0} (from_str : T → Option (ServerMessage F)) where
  abbrev pub message_partial : Option (ServerMessage F) → Result (PartialMessage F) CaseError
  message_partial (some (partial p)) = ok p
  message_partial (some (error e)) = err not_a_partial
  message_partial none = err not_a_partial

  abbrev pub expect_partial : T → Result (PartialMessage F) CaseError
  expect_partial t = message_partial (from_str t)

  abbrev pub with_text :
      T → Result (PartialMessage F) CaseError → Result (T × PartialMessage F) CaseError
  with_text t (ok p) = ok (t, p)
  with_text t (err e) = err e

  unfoldable pub read_partial : List (NextMessage T) → Result (T × PartialMessage F) CaseError
  read_partial [] = err timed_out
  read_partial (text t ∷ rest) = with_text t (expect_partial t)
  read_partial (close code ∷ rest) = err server_closed
  read_partial (other ∷ rest) = read_partial rest
  read_partial (closed_error ∷ rest) = err read_failed
  read_partial (failure ∷ rest) = err read_failed
  read_partial (end_of_stream ∷ rest) = err closed_early

abbrev pub require : Bool → CaseError → Result (Unit {0}) CaseError → Result (Unit {0}) CaseError
require true e next = next
require false e next = err e

-- Only the next message counts.
unfoldable pub expect_close_code :
    {T : Type 0} → List (NextMessage T) → ℕ → Result (Unit {0}) CaseError
expect_close_code [] code = err timed_out
expect_close_code (close (some actual) ∷ rest) code = require (actual == code) wrong_code (ok tt)
expect_close_code (close none ∷ rest) code = err no_code
expect_close_code (text t ∷ rest) code = err not_a_close
expect_close_code (other ∷ rest) code = err not_a_close
expect_close_code (closed_error ∷ rest) code = err read_failed
expect_close_code (failure ∷ rest) code = err read_failed
expect_close_code (end_of_stream ∷ rest) code = err closed_early

-- The reading of `normal_close`, after the frame and the close.
unfoldable pub normal_close : {T : Type 0} → List (NextMessage T) → Result (Unit {0}) CaseError
normal_close [] = err timed_out
normal_close (close code ∷ rest) = ok tt
normal_close (text t ∷ rest) = normal_close rest
normal_close (other ∷ rest) = normal_close rest
normal_close (closed_error ∷ rest) = ok tt
normal_close (failure ∷ rest) = err read_failed
normal_close (end_of_stream ∷ rest) = ok tt

abbrev pub schema_fields : List String
schema_fields =
    "type" ∷ "oldest_frame_seq" ∷ "newest_frame_seq" ∷ "frames" ∷ "rms" ∷ "zero_crossings"
    ∷ "checksum" ∷ "samples" ∷ "transcript" ∷ "audio_bytes" ∷ "cpu_passes" ∷ "model_delay_ms"
    ∷ "flush_lateness_ms" ∷ "inflight_model_jobs" ∷ []

abbrev pub member : String → List String → Bool
member x [] = false
member x (y ∷ ys) = if str_eq x y then true else member x ys

abbrev pub all_in : List String → List String → Bool
all_in [] ys = true
all_in (x ∷ xs) ys = member x ys && all_in xs ys

-- `assert_schema_fields`, given the keys of the text as a JSON object, if it is one: equal as sets.
unfoldable pub assert_schema_fields : Option (List String) → Result (Unit {0}) CaseError
assert_schema_fields none = err bad_fields
assert_schema_fields (some keys) =
    require (all_in keys schema_fields && all_in schema_fields keys) bad_fields (ok tt)

module _ {F T : Type 0} (fl : Float64 F) (from_str : T → Option (ServerMessage F))
    (keys_of : T → Option (List String)) where
  abbrev pub passed : Option CaseError → Result (Unit {0}) CaseError
  passed none = ok tt
  passed (some e) = err e

  unfoldable pub matches_golden : PartialMessage F → Bool
  unfolding rms_matches
  matches_golden p =
      p.oldest_frame_seq == 1
      && p.newest_frame_seq == 1
      && p.frames == golden_one_frame.frames
      && p.samples == golden_one_frame.samples
      && p.checksum == golden_one_frame.checksum
      && p.zero_crossings == golden_one_frame.zero_crossings
      && rms_matches fl p.rms (golden_rms fl)
      && str_eq p.transcript golden_one_frame.transcript
      && p.audio_bytes == golden_one_frame.audio_bytes

  abbrev pub after_fields :
      Result (Unit {0}) CaseError → ExpectedConfig → PartialMessage F → Result (Unit {0}) CaseError
  after_fields (err e) expected p = err e
  after_fields (ok u) expected p =
      require (matches_golden p) golden_mismatch (passed (check fl (new_checker 0 expected) p 1).1)

  abbrev pub after_valid :
      Validation → ExpectedConfig → T → PartialMessage F → Result (Unit {0}) CaseError
  after_valid (invalid x) expected t p = err (not_valid x)
  after_valid valid expected t p = after_fields (assert_schema_fields (keys_of t)) expected p

  abbrev pub golden_read :
      Result (T × PartialMessage F) CaseError → ExpectedConfig → Result (Unit {0}) CaseError
  golden_read (err e) expected = err e
  golden_read (ok (t, p)) expected = after_valid (validate fl p) expected t p

  -- The reading of `partial_schema_and_golden`.
  unfoldable pub partial_schema_and_golden :
      ExpectedConfig → List (NextMessage T) → Result (Unit {0}) CaseError
  unfolding read_partial assert_schema_fields matches_golden check
  partial_schema_and_golden expected replies = golden_read (read_partial from_str replies) expected
