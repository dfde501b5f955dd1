-- ===== src/Loadgen/Conformance.antt =====
-- loadgen/rust/src/bin/stt-conformance.rs: the checker of partials, and the case `multi_frame_golden`. The
-- partials that the socket gives are a list; where it ends, a read fails. The texts of errors are left out. The other
-- cases stand in Replies and Cases, their composition in Service.

pub mod Golden
pub mod Replies
pub mod Cases
pub mod Paced
pub mod Cadence
pub mod Service
pub mod Schema
pub mod Verdict
mod Tests
use websocket_stt_bench.Common.{
  ℕ, zero, suc, ◌+◌, ◌/◌, Bool, true, false, Option, none, some, List, [], ◌∷◌, ltb, ◌==◌,
  if◌then◌else◌, Result, ok, err,
}
use websocket_stt_bench.Common.Float.{Float64}
use websocket_stt_bench.Loadgen.Protocol.{
  PartialMessage, frame_interval, flush_interval, Validation, valid, invalid, Invalid, validate,
}
use websocket_stt_bench.Loadgen.Verify.{
  ExpectedConfig, MismatchKind, Continuity, continuity_start, observe, verify_partial,
}

abbrev pub multi_frame_session : ℕ
multi_frame_session = 7919

abbrev pub multi_frame_count : ℕ
multi_frame_count = flush_interval / frame_interval

pub record PartialChecker : Type 0 where
  pub session_id : ℕ
  pub expected : ExpectedConfig
  pub continuity : Continuity

abbrev pub new_checker : ℕ → ExpectedConfig → PartialChecker
new_checker session_id expected = record {
  session_id = session_id;
  expected = expected;
  continuity = continuity_start;
}

-- `PartialChecker::covered`
abbrev pub covered : PartialChecker → ℕ
covered c = c.continuity.last_newest

pub data CaseError : Type 0 where
  not_valid : Invalid → CaseError
  discontinuous : MismatchKind → CaseError
  not_yet_sent no_partial too_many_partials : CaseError
  not_a_partial server_closed read_failed closed_early timed_out send_failed not_connected :
      CaseError
  bad_fields golden_mismatch wrong_code no_code not_a_close : CaseError
  interval_below interval_above first_interval : CaseError
  wrong_values : List MismatchKind → CaseError

abbrev pub values_error : List MismatchKind → Option CaseError
values_error [] = none
values_error (m ∷ ms) = some (wrong_values (m ∷ ms))

abbrev pub at_most_two : Result ℕ CaseError → Result ℕ CaseError
at_most_two (err e) = err e
at_most_two (ok n) = if ltb 2 n then err too_many_partials else ok n

module _ {F : Type 0} (fl : Float64 F) where
  abbrev pub check_error :
      Validation → Option MismatchKind → PartialChecker → PartialMessage F → ℕ → Option CaseError
  check_error (invalid x) gap c p frames_sent = some (not_valid x)
  check_error valid (some m) c p frames_sent = some (discontinuous m)
  check_error valid none c p frames_sent =
      if ltb frames_sent p.newest_frame_seq
      then some not_yet_sent
      else values_error (verify_partial fl c.session_id p c.expected)

  -- `PartialChecker::check`
  unfoldable pub check : PartialChecker → PartialMessage F → ℕ → PartialChecker × Option CaseError
  check c p frames_sent =
      let (tracker, gap) = observe c.continuity p.oldest_frame_seq p.newest_frame_seq in
      (record c { continuity = tracker }, check_error (validate fl p) gap c p frames_sent)

  -- The loop, with the number of partials so far; its result is that number.
  unfoldable pub read_partials : List (PartialMessage F) → PartialChecker → ℕ → Result ℕ CaseError
  unfolding check
  read_partials [] c partials =
      if ltb (covered c) multi_frame_count then err no_partial else ok partials
  read_partials (p ∷ rest) c partials =
      let (c', e) = check c p multi_frame_count in
      let more = read_partials rest c' (partials + 1) in
      if ltb (covered c) multi_frame_count
      then elim e [ none ↦ more | some x ↦ err x ]
      else ok partials

  unfoldable pub multi_frame_golden : ExpectedConfig → List (PartialMessage F) → Result ℕ CaseError
  unfolding read_partials
  multi_frame_golden expected ps =
      at_most_two (read_partials ps (new_checker multi_frame_session expected) 0)
