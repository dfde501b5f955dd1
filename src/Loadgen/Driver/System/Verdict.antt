-- ===== src/Loadgen/Driver/System/Verdict.antt =====
-- loadgen/rust/src/main.rs: what a run without a correctness error shows.
use websocket_stt_bench.Common.{
  ℕ, ◌+◌, ◌≤◌, ◌≡◌, refl, sym, ap, ◌∙◌, arith, true, false, Option, none, some, List, [], ◌∷◌, ◌++◌,
  length, Bool-cases, inl, inr,
}
use websocket_stt_bench.Common.Float.{Float64}
use websocket_stt_bench.Loadgen.Protocol.{PartialMessage, ServerMessage, partial, valid, validate}
use websocket_stt_bench.Loadgen.Verify.{ExpectedConfig, malformed_message, verify_partial}
use websocket_stt_bench.Loadgen.Verify.Values.{IsCorrect, verify_partial-nil_iff}
use websocket_stt_bench.Loadgen.Driver.Correctness.{new_correctness, record_malformed}
use websocket_stt_bench.Loadgen.Driver.Receive.{
  VerifyJob, World, SessionCheck, Session, Arrival, Inbound, text_message, binary_message,
  close_message, other_message, end_of_stream, closed_error, read_error, open_session, measured,
  process_inbound, on_decoded, verify_job, drain_queue,
}
use websocket_stt_bench.Loadgen.Driver.Receive.Faults.{
  faults, settings, job_mismatches, backlog, drain_queue-errors, record_mismatches-errors,
  with_errors-faults, with_errors-settings,
}
use websocket_stt_bench.Loadgen.Driver.Receive.Steps.{RightValues, gap_of, on_decoded-Step}
use websocket_stt_bench.Loadgen.Driver.System.{
  System, Happening, arrives, verifies, happen, happen_all, new_system, pop_job,
}

module _ {F T : Type 0} (fl : Float64 F) (from_str : T → Option (ServerMessage F)) where
  -- A step takes no fault back and keeps the settings.
  pub record Grows (w u : World F) : Type 0 where
    pub mono : faults fl w ≤ faults fl u
    pub same : settings fl u ≡ settings fl w

  pub Grows-refl : (w : World F) → Grows w w
  Grows-refl w = record { mono = omega arith; same = refl }

  malformed-Grows :
      (s : Session) (w : World F)
      → Grows w (record w { correctness = record_malformed w.correctness s.id })
  unfolding record_malformed
  malformed-Grows s w = record {
    mono = omega (arith, with_errors-faults fl w s.id "malformed" 0 0 (malformed_message ∷ []));
    same = with_errors-settings fl w s.id "malformed" 0 0 (malformed_message ∷ []);
  }

  -- What must hold of a response where it is handled in the measured window.
  abbrev pub Right : Session → World F → SessionCheck → ℕ → ServerMessage F → Type 0
  Right s w check sent m = (gap_of fl check m ≡ none) × RightValues fl s w sent m

  -- A message is right: if it parses as a response inside the measured window and the session goes on,
  -- the response is right; and any other text or binary message is wrong.
  pub process_inbound-Grows :
      (s : Session) (w : World F) (check : SessionCheck) (sent_times : List ℕ) (a : Arrival T)
      → Grows w (process_inbound fl from_str s w check sent_times a).world
  unfolding process_inbound
  process_inbound-Grows s w check sent_times a = by_message a.message
    where
      by_text :
          (o : Option (ServerMessage F))
          → Grows w (on_decoded fl o s w check sent_times a.now a.can_sample).world
      by_text none = malformed-Grows s w
      by_text (some m) =
          let v = on_decoded-Step fl m s w check sent_times a.now a.can_sample in
          record { mono = v.mono; same = v.same }

      by_message :
          (m : Inbound T)
          → Grows w
              (process_inbound fl from_str s w check sent_times (record a { message = m })).world
      by_message (text_message t) = by_text (from_str t)
      by_message binary_message = malformed-Grows s w
      by_message close_message = Grows-refl w
      by_message other_message = Grows-refl w
      by_message end_of_stream = Grows-refl w
      by_message closed_error = Grows-refl w
      by_message read_error = Grows-refl w

  pub process_inbound-Right :
      (s : Session) (w : World F) (check : SessionCheck) (sent_times : List ℕ) (a : Arrival T)
      (t : T) (m : ServerMessage F)
      → a.message ≡ text_message t
      → from_str t ≡ some m
      → measured s a.now ≡ true
      → let h = process_inbound fl from_str s w check sent_times a in
        h.state ≡ open_session → faults fl h.world ≡ 0 → Right s w check (length sent_times) m
  unfolding process_inbound
  process_inbound-Right s w check sent_times a t m e parsed inside = rw e (
      rw parsed
        (λ o z. (on_decoded-Step fl m s w check sent_times a.now a.can_sample).good o inside z))

  pub verify_job-Grows :
      (w : World F) (jobs : List (VerifyJob F))
      → w.queue ≡ jobs
      → Grows w (pop_job fl from_str jobs w)
  unfolding verify_job
  verify_job-Grows w [] e = Grows-refl w
  verify_job-Grows w (job ∷ rest) e =
      let c = w.correctness in
      let (errors, dropped, expected, every) =
        record_mismatches-errors (record c { verified = c.verified + 1 }) job.session_id "partial"
          job.response.oldest_frame_seq job.response.newest_frame_seq
          (job_mismatches fl c.expected job) in
      record {
        mono = omega (
          arith,
          errors,
          dropped,
          ap (λ k. backlog fl k rest) expected,
          ap (backlog fl c.expected) e,
        );
        same = cc (expected, every);
      }

  happen-Grows : (y : System F) (h : Happening T) → Grows y.world (happen fl from_str y h).world
  unfolding happen
  happen-Grows y (arrives s sent_times a) = elim (Bool-cases (y.ended s.id)) [
    | inl on ↦ rw on (Grows-refl y.world)
    | inr off ↦ rw off (process_inbound-Grows s y.world (y.checks s.id) sent_times a)
  ]
  happen-Grows y verifies = verify_job-Grows y.world y.world.queue refl

  happen_all-Grows :
      (y : System F) (hs : List (Happening T)) → Grows y.world (happen_all fl from_str y hs).world
  unfolding happen_all
  happen_all-Grows y [] = Grows-refl y.world
  happen_all-Grows y (h ∷ rest) =
      let one = happen-Grows y h in
      let more = happen_all-Grows (happen fl from_str y h) rest in
      record { mono = omega (arith, one.mono, more.mono); same = more.same ∙ one.same }

  happen_all-append :
      (y : System F) (hs gs : List (Happening T))
      → happen_all fl from_str y (hs ++ gs)
        ≡ happen_all fl from_str (happen_all fl from_str y hs) gs
  unfolding happen_all
  happen_all-append y [] gs = refl
  happen_all-append y (h ∷ hs) gs = happen_all-append (happen fl from_str y h) hs gs

  arrives-world :
      (y : System F) (s : Session) (sent_times : List ℕ) (a : Arrival T)
      → y.ended s.id ≡ false
      → (happen fl from_str y (arrives s sent_times a)).world
        ≡ (process_inbound fl from_str s y.world (y.checks s.id) sent_times a).world
  unfolding happen
  arrives-world y s sent_times a e = rw e refl

  -- What the verifier has left at the end of a run is what its faults are.
  pub no_faults :
      (w : World F)
      → (drain_queue fl w.correctness w.queue).errors ≡ 0
      → w.correctness.verify_dropped ≡ 0
      → faults fl w ≡ 0
  no_faults w e d = omega (arith, drain_queue-errors fl w.correctness w.queue, e, d)

  none_before :
      (y : System F) (s : Session) (sent_times : List ℕ) (a : Arrival T)
      (after : List (Happening T))
      → y.ended s.id ≡ false
      → faults fl (happen_all fl from_str y (arrives s sent_times a ∷ after)).world ≡ 0
      → faults fl (process_inbound fl from_str s y.world (y.checks s.id) sent_times a).world ≡ 0
  unfolding happen_all
  none_before y s sent_times a after live clean =
      let later = happen_all-Grows (happen fl from_str y (arrives s sent_times a)) after in
      omega (arith, clean, later.mono, ap (faults fl) (arrives-world y s sent_times a live))

  -- A run that verifies every response, however the messages of its sessions and the jobs of the verifier
  -- interleave, and that ends, the verifier's queue drained, with no correctness error and no dropped
  -- verification, got only right partials: each partial that was read inside the measured window, of a
  -- session that went on and could go on, continued the frames reported before it, was about frames that
  -- were sent, passed `validate`, and was correct in every field.
  pub clean_run-IsCorrect :
      (expected : ExpectedConfig) (before after : List (Happening T)) (s : Session)
      (sent_times : List ℕ) (a : Arrival T) (t : T) (p : PartialMessage F)
      → let y = happen_all fl from_str (new_system fl from_str expected 1) before in
        let z =
          happen_all fl from_str
            (new_system fl from_str expected 1)
            (before ++ arrives s sent_times a ∷ after) in
        a.message ≡ text_message t
        → from_str t ≡ some (partial p)
        → measured s a.now ≡ true
        → y.ended s.id ≡ false
        → (process_inbound fl from_str s y.world (y.checks s.id) sent_times a).state ≡ open_session
        → (drain_queue fl z.world.correctness z.world.queue).errors ≡ 0
        → z.world.correctness.verify_dropped ≡ 0
        → (gap_of fl (y.checks s.id) (partial p) ≡ none)
          × (p.newest_frame_seq ≤ length sent_times)
          × (validate fl p ≡ valid)
          × IsCorrect fl s.id p expected
  unfolding new_system new_correctness
  clean_run-IsCorrect expected before after s sent_times a t p text parsed inside live goes_on clean
        kept =
      let y0 = new_system fl from_str expected 1 in
      let y = happen_all fl from_str y0 before in
      let z = happen_all fl from_str y0 (before ++ arrives s sent_times a ∷ after) in
      let none_left = none_before y s sent_times a after live (
        sym (
          ap (λ (x : System F). faults fl x.world)
            (happen_all-append y0 before (arrives s sent_times a ∷ after)))
        ∙ no_faults z.world clean kept) in
      let (ok_gap, (ok_sent, ok_valid, ok_values)) =
        process_inbound-Right s y.world (y.checks s.id) sent_times a t (partial p) text parsed
          inside goes_on none_left in
      let same = (happen_all-Grows y0 before).same in
      (
        ok_gap,
        ok_sent,
        ok_valid,
        (verify_partial-nil_iff fl s.id p expected).0 (
            ap (verify_partial fl s.id p) (sym (ap (λ (x : ExpectedConfig × ℕ). x.0) same))
            ∙ ok_values (ap (λ (x : ExpectedConfig × ℕ). x.1) same)),
      )
