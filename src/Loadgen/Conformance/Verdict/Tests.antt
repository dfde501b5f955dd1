-- ===== src/Loadgen/Conformance/Verdict/Tests.antt =====
-- loadgen/rust/src/bin/stt-conformance.rs: a service that passes every case, one that closes late, and targets.
use websocket_stt_bench.Common.{
  ℕ, ◌≡◌, ◌≤◌, refl, true, String, Option, none, some, List, [], ◌∷◌, ap, ◌∙◌, All, Result, ok, err,
}
use websocket_stt_bench.Common.Float.{unit_floats}
use websocket_stt_bench.Stub.{compute_stub}
use websocket_stt_bench.Gateway.Text.{split_once}
use websocket_stt_bench.Loadgen.Protocol.{PartialMessage, validate, frame_payload}
use websocket_stt_bench.Loadgen.Verify.{
  default_config, checksum, transcript, observe, verify_partial, verify_values, expected_stub,
  concat_payload, rms_matches,
}
use websocket_stt_bench.Loadgen.Conformance.{check, CaseError, wrong_values}
use websocket_stt_bench.Loadgen.Conformance.Replies.{
  text, close, other, schema_fields, read_partial, expect_close_code, normal_close,
  assert_schema_fields, matches_golden, partial_schema_and_golden,
}
use websocket_stt_bench.Loadgen.Conformance.Cases.{
  both, PacedArm, millis, send_due, reply, on_paced, paced_loop, stream_paced, concurrent_isolation,
}
use websocket_stt_bench.Loadgen.Conformance.Service.{
  invalid_starts, invalid_sizes, without_count, summary_of, failed, refused, connected,
  wait_until_ready, Answers, ServiceTarget, all_close, parse_service, Summary, all_passed,
  run_service, failed_services, conformance,
}
use websocket_stt_bench.Loadgen.Conformance.Verdict.{IsHealthy, conformance-IsHealthy}
use websocket_stt_bench.Loadgen.Conformance.Tests.{
  passes_case, steady_passes, burst, single, decode, turns_from,
}

abbrev keys_of : PartialMessage Unit → Option (List String)
keys_of p = some schema_fields

-- Two partials of a session, a second apart.
abbrev pair_turns : ℕ → List (ℕ × PacedArm (PartialMessage Unit))
pair_turns id =
    (millis 0, send_due (millis 0) true)
    ∷ (millis 1000, reply (some (text (single id 1))) (millis 1000))
    ∷ (millis 1100, send_due (millis 1100) true)
    ∷ (millis 2000, reply (some (text (single id 2))) (millis 2000))
    ∷ (millis 2250, reply (some other) (millis 2250))
    ∷ []

abbrev service : Answers Unit (PartialMessage Unit)
service = record {
  ready_deadline = millis 30000;
  tries = refused (millis 5) ∷ connected ∷ [];
  golden = other ∷ text (single 0 1) ∷ [];
  burst = burst ∷ [];
  starts = λ m. close (some 1002) ∷ [];
  frames = λ n. close (some 1003) ∷ [];
  cadence_started = 0;
  cadence = turns_from 13 1;
  left_started = 0;
  right_started = 0;
  left = pair_turns 211;
  right = pair_turns 422;
  ending = text (single 0 1) ∷ close none ∷ [];
}

abbrev target : ServiceTarget
target = record { name = 97 ∷ []; url = 98 ∷ [] }

golden_passes :
    ◌≡◌ {A = Result (Unit {0}) CaseError}
      (partial_schema_and_golden unit_floats decode keys_of default_config service.golden)
      (ok tt)
unfolding partial_schema_and_golden read_partial assert_schema_fields matches_golden check validate
    observe verify_partial verify_values expected_stub compute_stub concat_payload frame_payload
    rms_matches
golden_passes = refl

starts_pass :
    ◌≡◌ {A = Result (Unit {0}) CaseError} (all_close 1002 service.starts invalid_starts) (ok tt)
unfolding all_close expect_close_code
starts_pass = refl

frames_pass :
    ◌≡◌ {A = Result (Unit {0}) CaseError} (all_close 1003 service.frames invalid_sizes) (ok tt)
unfolding all_close expect_close_code
frames_pass = refl

isolation_passes :
    ◌≡◌ {A = Result (Unit {0}) CaseError}
      (concurrent_isolation unit_floats decode default_config 0 0 service.left service.right)
      (ok tt)
unfolding concurrent_isolation stream_paced paced_loop on_paced check validate observe
    verify_partial verify_values expected_stub compute_stub concat_payload frame_payload rms_matches
isolation_passes = refl

-- A session that is served the partials of another fails.
mixed_up :
    ◌≡◌ {A = Result (Unit {0}) CaseError}
      (concurrent_isolation unit_floats decode default_config 0 0 service.left service.left)
      (err (wrong_values (checksum ∷ transcript ∷ [])))
unfolding concurrent_isolation stream_paced paced_loop on_paced check validate observe
    verify_partial verify_values expected_stub compute_stub concat_payload frame_payload rms_matches
mixed_up = refl

both-of : (r u : Result (Unit {0}) CaseError) → r ≡ ok tt → u ≡ ok tt → both r u ≡ ok tt
both-of r u e more = ap (λ x. both x u) e ∙ more

service_passes :
    ◌≡◌ {A = Result (Unit {0}) CaseError}
      (run_service unit_floats decode keys_of default_config service)
      (ok tt)
unfolding run_service wait_until_ready normal_close
service_passes = both-of _ _ refl (
    both-of _ _ golden_passes (
      both-of _ _ (ap without_count passes_case) (
        both-of _ _ starts_pass (
          both-of _ _ frames_pass
            (both-of _ _ steady_passes (both-of _ _ isolation_passes refl))))))

tool_passes :
    ◌≡◌ {A = Summary}
      (conformance unit_floats decode keys_of default_config ((target, service) ∷ []))
      all_passed
unfolding conformance failed_services
tool_passes = ap (λ r. summary_of (failed target r [])) service_passes

parses_target :
    (◌≡◌ {A = Option ServiceTarget} (parse_service (97 ∷ 61 ∷ 98 ∷ [])) (some target))
    × (◌≡◌ {A = Option ServiceTarget} (parse_service (97 ∷ 61 ∷ [])) none)
unfolding parse_service split_once
parses_target = (refl, refl)

conformance-IsHealthy_example :
    (◌≤◌ 1 1)
    × All
        (λ (s : ServiceTarget × Answers Unit (PartialMessage Unit)).
          IsHealthy unit_floats decode keys_of default_config s.1)
        ((target, service) ∷ [])
conformance-IsHealthy_example =
    conformance-IsHealthy unit_floats decode keys_of default_config ((target, service) ∷ [])
      tool_passes
