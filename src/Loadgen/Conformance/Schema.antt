-- ===== src/Loadgen/Conformance/Schema.antt =====
-- loadgen/rust/src/bin/stt-conformance.rs: what a gateway that passes `partial_schema_and_golden` has sent.
use websocket_stt_bench.Common.{◌≡◌, refl, String, true, Option, none, some, List, Result, ok, err}
use websocket_stt_bench.Common.Float.{Float64}
use websocket_stt_bench.Loadgen.Protocol.{
  PartialMessage, ServerMessage, Validation, valid, invalid, validate,
}
use websocket_stt_bench.Loadgen.Verify.{ExpectedConfig}
use websocket_stt_bench.Loadgen.Verify.Values.{IsCorrect}
use websocket_stt_bench.Loadgen.Conformance.{CaseError, golden_mismatch, new_checker, check}
use websocket_stt_bench.Loadgen.Conformance.Golden.{check_error-Passed}
use websocket_stt_bench.Loadgen.Conformance.Replies.{
  NextMessage, partial_schema_and_golden, read_partial, assert_schema_fields, matches_golden,
  after_fields, after_valid, golden_read, passed,
}
use websocket_stt_bench.Loadgen.Conformance.Cadence.{require-ok}

module _ {F T : Type 0} (fl : Float64 F) (from_str : T → Option (ServerMessage F))
    (keys_of : T → Option (List String)) (expected : ExpectedConfig) where
  -- The first text is a partial with the fields of the schema, the golden values, and those of frame 1 of session 0.
  pub record IsGolden (replies : List (NextMessage T)) : Type 0 where
    pub text : T
    pub partial : PartialMessage F
    pub read : read_partial from_str replies ≡ ok (text, partial)
    pub fields : assert_schema_fields (keys_of text) ≡ ok tt
    pub matches : matches_golden fl from_str keys_of partial ≡ true
    pub correct : IsCorrect fl 0 partial expected

  fields-IsGolden :
      (replies : List (NextMessage T)) (t : T) (p : PartialMessage F)
      (r : Result (Unit {0}) CaseError)
      → read_partial from_str replies ≡ ok (t, p)
      → assert_schema_fields (keys_of t) ≡ r
      → after_fields fl from_str keys_of r expected p ≡ ok tt
      → IsGolden replies
  unfolding check
  fields-IsGolden replies t p (err x) read fields e = cc
  fields-IsGolden replies t p (ok tt) read fields e =
      let c = new_checker 0 expected in
      let (same, known) =
        require-ok (matches_golden fl from_str keys_of p) golden_mismatch
          (passed fl from_str keys_of (check fl c p 1).1) e in
      record {
        text = t;
        partial = p;
        read = read;
        fields = fields;
        matches = same;
        correct =
            (check_error-Passed fl (validate fl p) _ c p 1
              (passed-none (check fl c p 1).1 known)).correct;
      }
    where
      passed-none : (o : Option CaseError) → passed fl from_str keys_of o ≡ ok tt → o ≡ none
      passed-none none z = refl
      passed-none (some x) z = cc

  valid-IsGolden :
      (replies : List (NextMessage T)) (t : T) (p : PartialMessage F) (v : Validation)
      → read_partial from_str replies ≡ ok (t, p)
      → after_valid fl from_str keys_of v expected t p ≡ ok tt
      → IsGolden replies
  valid-IsGolden replies t p (invalid x) read e = cc
  valid-IsGolden replies t p valid read e = fields-IsGolden replies t p _ read refl e

  read-IsGolden :
      (replies : List (NextMessage T)) (r : Result (T × PartialMessage F) CaseError)
      → read_partial from_str replies ≡ r
      → golden_read fl from_str keys_of r expected ≡ ok tt
      → IsGolden replies
  read-IsGolden replies (err x) read e = cc
  read-IsGolden replies (ok (t, p)) read e = valid-IsGolden replies t p (validate fl p) read e

  pub partial_schema_and_golden-IsGolden :
      (replies : List (NextMessage T))
      → partial_schema_and_golden fl from_str keys_of expected replies ≡ ok tt
      → IsGolden replies
  unfolding partial_schema_and_golden
  partial_schema_and_golden-IsGolden replies e =
      read-IsGolden replies (read_partial from_str replies) refl e
