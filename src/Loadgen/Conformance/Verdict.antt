-- ===== src/Loadgen/Conformance/Verdict.antt =====
-- loadgen/rust/src/bin/stt-conformance.rs: what the services have done that the tool passes.
mod Tests
use websocket_stt_bench.Common.{
  ℕ, ◌+◌, ◌≤◌, ◌≡◌, refl, ap, subst, arith, String, Option, none, some, List, [], ◌∷◌, ◌++◌, map,
  ◌==◌, length, All, Result, ok, err,
}
use websocket_stt_bench.Common.Float.{Float64}
use websocket_stt_bench.Loadgen.Protocol.{PartialMessage, ServerMessage}
use websocket_stt_bench.Loadgen.Verify.{ExpectedConfig}
use websocket_stt_bench.Loadgen.Verify.Coverage.{Tiles, end_of}
use websocket_stt_bench.Loadgen.Verify.Values.{IsCorrect}
use websocket_stt_bench.Loadgen.Conformance.{
  CaseError, wrong_code, multi_frame_session, multi_frame_golden,
}
use websocket_stt_bench.Loadgen.Conformance.Golden.{range_of, multi_frame_golden-Tiles}
use websocket_stt_bench.Loadgen.Conformance.Cases.{
  Paced, PacedArm, millis, without_times, times_of, stream_paced, flush_cadence,
  concurrent_isolation, cadence_session, cadence_send_for, isolation_left, isolation_right,
}
use websocket_stt_bench.Loadgen.Conformance.Replies.{
  NextMessage, text, close, other, closed_error, failure, end_of_stream, expect_close_code,
  normal_close, partial_schema_and_golden,
}
use websocket_stt_bench.Loadgen.Conformance.Paced.{IsStreamed, Returns}
use websocket_stt_bench.Loadgen.Conformance.Cadence.{require-ok, both-ok, stream_paced-Returns}
use websocket_stt_bench.Loadgen.Conformance.Service.{
  invalid_starts, invalid_sizes, all_close, wait_until_ready, Answers, without_count, ServiceTarget,
  all_passed, summary_of, failed, run_service, failed_services, conformance,
}
use websocket_stt_bench.Loadgen.Conformance.Schema.{IsGolden, partial_schema_and_golden-IsGolden}

-- The very next message closes the connection with the code.
abbrev pub ClosesWith : {T : Type 0} → ℕ → List (NextMessage T) → Type 0
ClosesWith {T} code replies = (rest : List (NextMessage T)) × (replies ≡ close (some code) ∷ rest)

expect_close_code-ClosesWith :
    {T : Type 0} (replies : List (NextMessage T)) (code : ℕ)
    → expect_close_code replies code ≡ ok tt
    → ClosesWith code replies
unfolding expect_close_code
expect_close_code-ClosesWith [] code e = cc
expect_close_code-ClosesWith (close (some actual) ∷ rest) code e =
    let (same, _) = require-ok (actual == code) wrong_code (ok tt) e in
    let eq : actual ≡ code = ground (arith, same) in (rest, ap (λ c. close (some c) ∷ rest) eq)
expect_close_code-ClosesWith (close none ∷ rest) code e = cc
expect_close_code-ClosesWith (text t ∷ rest) code e = cc
expect_close_code-ClosesWith (other ∷ rest) code e = cc
expect_close_code-ClosesWith (closed_error ∷ rest) code e = cc
expect_close_code-ClosesWith (failure ∷ rest) code e = cc
expect_close_code-ClosesWith (end_of_stream ∷ rest) code e = cc

all_close-ClosesWith :
    {T A : Type 0} (code : ℕ) (answers : A → List (NextMessage T)) (ms : List A)
    → all_close code answers ms ≡ ok tt
    → All (λ m. ClosesWith code (answers m)) ms
unfolding all_close
all_close-ClosesWith code answers [] e = tt
all_close-ClosesWith code answers (m ∷ ms) e =
    let (here, rest) = both-ok (expect_close_code (answers m) code) (all_close code answers ms) e in
    (expect_close_code-ClosesWith (answers m) code here, all_close-ClosesWith code answers ms rest)

without_count-ok : (r : Result ℕ CaseError) → without_count r ≡ ok tt → (n : ℕ) × (r ≡ ok n)
without_count-ok (ok n) e = (n, refl)
without_count-ok (err x) e = cc

summary_of-all_passed :
    (fs : List (ServiceTarget × CaseError)) → summary_of fs ≡ all_passed → fs ≡ []
summary_of-all_passed [] e = refl
summary_of-all_passed (f ∷ fs) e = cc

failed-nil :
    (target : ServiceTarget) (r : Result (Unit {0}) CaseError)
    (fs : List (ServiceTarget × CaseError))
    → failed target r fs ≡ []
    → (r ≡ ok tt) × (fs ≡ [])
failed-nil target (ok tt) fs e = (refl, e)
failed-nil target (err x) fs e = cc

module _ {F T : Type 0} (fl : Float64 F) (from_str : T → Option (ServerMessage F))
    (keys_of : T → Option (List String)) (expected : ExpectedConfig) where
  -- A session that was streamed to its end, and whose partials, at least so many, were checked one by one.
  abbrev pub Served : (id least started send_for give_up_after : ℕ) → List (ℕ × PacedArm T) → Type 0
  Served id least started send_for give_up_after turns =
      (s : Paced F) × (stream_paced fl from_str id expected least started send_for give_up_after
          turns
        ≡ ok s)
      × IsStreamed fl id expected s
      × (least ≤ length s.heard)

  -- What a service has done that passes every case.
  pub record IsHealthy (a : Answers F T) : Type 0 where
    pub golden : IsGolden fl from_str keys_of expected a.golden
    pub burst :
        (taken : List (PartialMessage F)) × (left : List (PartialMessage F)) × (a.burst
          ≡ taken ++ left)
        × (length taken ≤ 2)
        × Tiles 0 (map range_of taken)
        × (end_of 0 (map range_of taken) ≡ 50)
        × All (λ p. IsCorrect fl multi_frame_session p expected) taken
    pub starts : All (λ m. ClosesWith 1002 (a.starts m)) invalid_starts
    pub frames : All (λ n. ClosesWith 1003 (a.frames n)) invalid_sizes
    pub cadence :
        Served cadence_session 13 a.cadence_started cadence_send_for
          (cadence_send_for + millis 4000)
          a.cadence
    pub left : Served isolation_left 2 a.left_started (millis 2250) (millis 6000) a.left
    pub right : Served isolation_right 2 a.right_started (millis 2250) (millis 6000) a.right

  Served-of :
      (id least started send_for give_up_after : ℕ) (turns : List (ℕ × PacedArm T))
      (r : Result (Paced F) CaseError)
      → stream_paced fl from_str id expected least started send_for give_up_after turns ≡ r
      → without_times r ≡ ok tt
      → Served id least started send_for give_up_after turns
  Served-of id least started send_for give_up_after turns (err e) read z = cc
  Served-of id least started send_for give_up_after turns (ok s) read z =
      let (streamed, many) =
        subst (Returns fl id expected from_str least) read (
          stream_paced-Returns fl from_str id expected least started send_for give_up_after
            turns) in
      (s, read, streamed, omega (arith, many, streamed.times))

  times_of-without_times :
      (r : Result (Paced F) CaseError) → times_of r ≡ ok tt → without_times r ≡ ok tt
  times_of-without_times (err e) z = cc
  times_of-without_times (ok s) z = refl

  flush_cadence-Served :
      (started : ℕ) (turns : List (ℕ × PacedArm T))
      → flush_cadence fl from_str expected started turns ≡ ok tt
      → Served cadence_session 13 started cadence_send_for (cadence_send_for + millis 4000) turns
  unfolding flush_cadence
  flush_cadence-Served started turns e =
      Served-of cadence_session 13 started cadence_send_for (cadence_send_for + millis 4000) turns _
        refl (times_of-without_times _ e)

  concurrent_isolation-Served :
      (left_started right_started : ℕ) (left right : List (ℕ × PacedArm T))
      → concurrent_isolation fl from_str expected left_started right_started left right ≡ ok tt
      → Served isolation_left 2 left_started (millis 2250) (millis 6000) left
        × Served isolation_right 2 right_started (millis 2250) (millis 6000) right
  unfolding concurrent_isolation
  concurrent_isolation-Served left_started right_started left right e =
      let (l, r) = both-ok _ _ e in
      (
        Served-of isolation_left 2 left_started (millis 2250) (millis 6000) left _ refl l,
        Served-of isolation_right 2 right_started (millis 2250) (millis 6000) right _ refl r,
      )

  cases-IsHealthy :
      (a : Answers F T)
      → partial_schema_and_golden fl from_str keys_of expected a.golden ≡ ok tt
      → without_count (multi_frame_golden fl expected a.burst) ≡ ok tt
      → all_close 1002 a.starts invalid_starts ≡ ok tt
      → all_close 1003 a.frames invalid_sizes ≡ ok tt
      → flush_cadence fl from_str expected a.cadence_started a.cadence ≡ ok tt
      → concurrent_isolation fl from_str expected a.left_started a.right_started a.left a.right
        ≡ ok tt
      → IsHealthy a
  cases-IsHealthy a golden burst starts frames cadence isolation =
      let (n, b) = without_count-ok (multi_frame_golden fl expected a.burst) burst in
      let (taken, rest, split, count, few, tiles, end, correct) =
        multi_frame_golden-Tiles fl expected a.burst n b in
      let (left, right) =
        concurrent_isolation-Served a.left_started a.right_started a.left a.right isolation in
      record {
        golden = partial_schema_and_golden-IsGolden fl from_str keys_of expected a.golden golden;
        burst = (taken, rest, split, omega (arith, count, few), tiles, end, correct);
        starts = all_close-ClosesWith 1002 a.starts invalid_starts starts;
        frames = all_close-ClosesWith 1003 a.frames invalid_sizes frames;
        cadence = flush_cadence-Served a.cadence_started a.cadence cadence;
        left = left;
        right = right;
      }

  run_service-IsHealthy :
      (a : Answers F T) → run_service fl from_str keys_of expected a ≡ ok tt → IsHealthy a
  unfolding run_service
  run_service-IsHealthy a e =
      let (_, checked) = both-ok (wait_until_ready a.ready_deadline a.tries) _ e in
      let (golden, e1) =
        both-ok (partial_schema_and_golden fl from_str keys_of expected a.golden) _ checked in
      let (burst, e2) = both-ok (without_count (multi_frame_golden fl expected a.burst)) _ e1 in
      let (starts, e3) = both-ok (all_close 1002 a.starts invalid_starts) _ e2 in
      let (frames, e4) = both-ok (all_close 1003 a.frames invalid_sizes) _ e3 in
      let (cadence, e5) =
        both-ok (flush_cadence fl from_str expected a.cadence_started a.cadence) _ e4 in
      let (isolation, _) =
        both-ok
          (concurrent_isolation fl from_str expected a.left_started a.right_started a.left a.right)
          (normal_close a.ending) e5 in
      cases-IsHealthy a golden burst starts frames cadence isolation

  failed_services-IsHealthy :
      (services : List (ServiceTarget × Answers F T))
      → failed_services fl from_str keys_of expected services ≡ []
      → All (λ s. IsHealthy s.1) services
  unfolding failed_services
  failed_services-IsHealthy [] e = tt
  failed_services-IsHealthy ((target, a) ∷ rest) e =
      let (here, more) =
        failed-nil target (run_service fl from_str keys_of expected a)
          (failed_services fl from_str keys_of expected rest) e in
      (run_service-IsHealthy a here, failed_services-IsHealthy rest more)

  -- The tool passes only if there is a service and each has answered the golden frame with a partial that has
  -- just the fields of the schema and the golden values; has closed the connection at once with code 1002
  -- for every invalid start and with 1003 for every frame of a wrong size; has answered the burst in at
  -- most two partials that tile its frames, each correct; and has served each paced session, the two
  -- that run at once among them, partials that tile the frames of that session from the first on,
  -- each correct in every field for that very session and read after its frames were sent.
  pub conformance-IsHealthy :
      (services : List (ServiceTarget × Answers F T))
      → conformance fl from_str keys_of expected services ≡ all_passed
      → (1 ≤ length services) × All (λ s. IsHealthy s.1) services
  unfolding conformance
  conformance-IsHealthy [] e = cc
  conformance-IsHealthy (s ∷ ss) e = (
    omega arith,
    failed_services-IsHealthy (s ∷ ss)
        (summary_of-all_passed (failed_services fl from_str keys_of expected (s ∷ ss)) e),
  )
