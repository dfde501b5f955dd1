-- ===== src/Loadgen/Conformance/Service.antt =====
-- loadgen/rust/src/bin/stt-conformance.rs: the cases of one service in their order, `parse_service` and `main`. What
-- the sockets of a service give in each case is the record `Answers`; the tries to connect reach
-- past the deadline of `wait_until_ready`.
use websocket_stt_bench.Common.{
  ℕ, ◌+◌, ◌-◌, String, Option, none, some, List, [], ◌∷◌, leb, if◌then◌else◌, Result, ok, err,
}
use websocket_stt_bench.Common.Float.{Float64}
use websocket_stt_bench.Loadgen.Protocol.{PartialMessage, ServerMessage, frame_bytes, frame_payload}
use websocket_stt_bench.Loadgen.Verify.{ExpectedConfig}
use websocket_stt_bench.Loadgen.Conformance.{CaseError, not_connected, multi_frame_golden}
use websocket_stt_bench.Loadgen.Conformance.Cases.{
  PacedArm, both, flush_cadence, concurrent_isolation,
}
use websocket_stt_bench.Loadgen.Conformance.Replies.{
  NextMessage, expect_close_code, normal_close, partial_schema_and_golden,
}
use websocket_stt_bench.Gateway.Text.{split_once}

-- A try to connect; a failure or a timeout with the instant that is compared with the deadline.
pub data Try : Type 0 where
  connected : Try
  refused elapsed : ℕ → Try

unfoldable pub wait_until_ready : (deadline : ℕ) → List Try → Result (Unit {0}) CaseError
wait_until_ready deadline [] = err not_connected
wait_until_ready deadline (connected ∷ rest) = ok tt
wait_until_ready deadline (refused now ∷ rest) =
    let more = wait_until_ready deadline rest in
    if leb deadline now then err not_connected else more
wait_until_ready deadline (elapsed now ∷ rest) =
    let more = wait_until_ready deadline rest in
    if leb deadline now then err not_connected else more

-- The first message of a connection.
pub data First : Type 0 where
  first_text : String → First
  first_binary : List ℕ → First

abbrev pub invalid_starts : List First
invalid_starts =
    first_text "not-json" ∷ first_text "{\"type\":\"stop\"}" ∷ first_binary (frame_payload 0 1) ∷ []

abbrev pub invalid_sizes : List ℕ
invalid_sizes = 0 ∷ 10 ∷ (frame_bytes - 1) ∷ (frame_bytes + 1) ∷ 8193 ∷ 65536 ∷ []

-- A connection for each message, which must be closed with the code.
unfoldable pub all_close :
    {T A : Type 0} → ℕ → (A → List (NextMessage T)) → List A → Result (Unit {0}) CaseError
unfolding expect_close_code
all_close code answers [] = ok tt
all_close code answers (m ∷ ms) =
    both (expect_close_code (answers m) code) (all_close code answers ms)

-- `frames` gives the replies to a start and a binary message of so many zero bytes.
pub record Answers (F T : Type 0) : Type 0 where
  pub ready_deadline : ℕ
  pub tries : List Try
  pub golden : List (NextMessage T)
  pub burst : List (PartialMessage F)
  pub starts : First → List (NextMessage T)
  pub frames : ℕ → List (NextMessage T)
  pub cadence_started : ℕ
  pub cadence : List (ℕ × PacedArm T)
  pub left_started : ℕ
  pub right_started : ℕ
  pub left : List (ℕ × PacedArm T)
  pub right : List (ℕ × PacedArm T)
  pub ending : List (NextMessage T)

abbrev pub without_count : Result ℕ CaseError → Result (Unit {0}) CaseError
without_count (ok n) = ok tt
without_count (err e) = err e

pub record ServiceTarget : Type 0 where
  pub name : List ℕ
  pub url : List ℕ

abbrev pub target_of : Option (List ℕ × List ℕ) → Option ServiceTarget
target_of (some (c ∷ cs, d ∷ ds)) = some (record { name = c ∷ cs; url = d ∷ ds })
target_of (some ([], url)) = none
target_of (some (c ∷ cs, [])) = none
target_of none = none

-- `none` is the error.
unfoldable pub parse_service : List ℕ → Option ServiceTarget
unfolding split_once
parse_service raw = target_of (split_once 61 raw)

pub data Summary : Type 0 where
  no_services : Summary
  conformance_failed : List (ServiceTarget × CaseError) → Summary
  all_passed : Summary

abbrev pub summary_of : List (ServiceTarget × CaseError) → Summary
summary_of [] = all_passed
summary_of (f ∷ fs) = conformance_failed (f ∷ fs)

abbrev pub failed :
    ServiceTarget
    → Result (Unit {0}) CaseError
    → List (ServiceTarget × CaseError)
    → List (ServiceTarget × CaseError)
failed target (ok u) fs = fs
failed target (err e) fs = (target, e) ∷ fs

module _ {F T : Type 0} (fl : Float64 F) (from_str : T → Option (ServerMessage F))
    (keys_of : T → Option (List String)) (expected : ExpectedConfig) where
  unfoldable pub run_service : Answers F T → Result (Unit {0}) CaseError
  unfolding wait_until_ready partial_schema_and_golden multi_frame_golden all_close flush_cadence
      concurrent_isolation normal_close
  run_service a = both (wait_until_ready a.ready_deadline a.tries) (
      both (partial_schema_and_golden fl from_str keys_of expected a.golden) (
        both (without_count (multi_frame_golden fl expected a.burst)) (
          both (all_close 1002 a.starts invalid_starts) (
            both (all_close 1003 a.frames invalid_sizes) (
              both (flush_cadence fl from_str expected a.cadence_started a.cadence) (
                both
                  (concurrent_isolation fl from_str expected a.left_started a.right_started a.left
                    a.right)
                  (normal_close a.ending)))))))

  unfoldable pub failed_services :
      List (ServiceTarget × Answers F T) → List (ServiceTarget × CaseError)
  unfolding run_service
  failed_services [] = []
  failed_services ((target, a) ∷ rest) = failed target (run_service a) (failed_services rest)

  -- `main`, behind the parsing of its arguments.
  unfoldable pub conformance : List (ServiceTarget × Answers F T) → Summary
  unfolding failed_services
  conformance [] = no_services
  conformance (s ∷ ss) = summary_of (failed_services (s ∷ ss))
