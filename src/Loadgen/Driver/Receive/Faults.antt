-- ===== src/Loadgen/Driver/Receive/Faults.antt =====
-- loadgen/rust/src/main.rs: what the handling of a message adds to the errors of the run, those included
-- that the verifier thread has yet to find.
use websocket_stt_bench.Common.{
  ℕ, ◌+◌, ◌≤◌, ◌≡◌, refl, ap, ◌∙◌, arith, String, ◌&&◌, List, [], ◌∷◌, ◌++◌, ltb, if_cases, length,
}
use websocket_stt_bench.Common.Float.{Float64}
use websocket_stt_bench.Loadgen.Verify.{MismatchKind, ExpectedConfig, verify_partial}
use websocket_stt_bench.Loadgen.Driver.Correctness.{Correctness, record_mismatches}
use websocket_stt_bench.Loadgen.Driver.Receive.{
  VerifyJob, World, with_errors, submit_verify, verify_job, drain_queue, verify_queue_capacity,
}

-- A response counts once however many mismatches it has.
abbrev pub wrong : List MismatchKind → ℕ
wrong [] = 0
wrong (m ∷ ms) = 1

pub wrong_nil : (ms : List MismatchKind) → wrong ms ≡ 0 → ms ≡ []
wrong_nil [] e = refl
wrong_nil (m ∷ ms) e = cc

pub wrong-append : (ms ns : List MismatchKind) → wrong ms ≤ wrong (ms ++ ns)
wrong-append [] ns = omega arith
wrong-append (m ∷ ms) ns = omega arith

pub record_mismatches-errors :
    (c : Correctness) (id : ℕ) (ty : String) (o n : ℕ) (ms : List MismatchKind)
    → let c' = record_mismatches c id ty o n ms in
      (c'.errors ≡ c.errors + wrong ms)
      × (c'.verify_dropped ≡ c.verify_dropped)
      × (c'.expected ≡ c.expected)
      × (c'.verify_every ≡ c.verify_every)
unfolding record_mismatches
record_mismatches-errors c id ty o n [] = (omega arith, refl, refl, refl)
record_mismatches-errors c id ty o n (m ∷ ms) = (omega arith, refl, refl, refl)

module _ {F : Type 0} (fl : Float64 F) where
  abbrev pub job_mismatches : ExpectedConfig → VerifyJob F → List MismatchKind
  job_mismatches expected job = job.inline ++ verify_partial fl job.session_id job.response expected

  -- The errors that the queue holds.
  abbrev pub backlog : ExpectedConfig → List (VerifyJob F) → ℕ
  backlog expected [] = 0
  backlog expected (job ∷ rest) = wrong (job_mismatches expected job) + backlog expected rest

  backlog-snoc :
      (expected : ExpectedConfig) (jobs : List (VerifyJob F)) (job : VerifyJob F)
      → backlog expected (jobs ++ job ∷ [])
        ≡ backlog expected jobs + wrong (job_mismatches expected job)
  backlog-snoc expected [] job = omega arith
  backlog-snoc expected (j ∷ jobs) job = omega (arith, backlog-snoc expected jobs job)

  -- The verifier counts exactly the errors of its queue.
  pub drain_queue-errors :
      (c : Correctness) (jobs : List (VerifyJob F))
      → (drain_queue fl c jobs).errors ≡ c.errors + backlog c.expected jobs
  unfolding drain_queue verify_job
  drain_queue-errors c [] = omega arith
  drain_queue-errors c (job ∷ rest) =
      drain_queue-errors (verify_job fl c job) rest ∙ verified c job rest
    where
      verified :
          (c : Correctness) (job : VerifyJob F) (rest : List (VerifyJob F))
          → (verify_job fl c job).errors + backlog (verify_job fl c job).expected rest
            ≡ c.errors + (wrong (job_mismatches c.expected job) + backlog c.expected rest)
      verified c job rest =
          let (e, d, x, v) =
            record_mismatches-errors (record c { verified = c.verified + 1 }) job.session_id
              "partial" job.response.oldest_frame_seq job.response.newest_frame_seq
              (job_mismatches c.expected job) in
          omega (arith, e, ap (λ k. backlog k rest) x)

  -- Errors found, errors in the queue, and verifications dropped.
  abbrev pub faults : World F → ℕ
  faults w =
      w.correctness.errors + backlog w.correctness.expected w.queue + w.correctness.verify_dropped

  abbrev pub settings : World F → ExpectedConfig × ℕ
  settings w = (w.correctness.expected, w.correctness.verify_every)

  pub with_errors-faults :
      (w : World F) (id : ℕ) (ty : String) (o n : ℕ) (ms : List MismatchKind)
      → faults (with_errors w id ty o n ms) ≡ faults w + wrong ms
  with_errors-faults w id ty o n ms =
      let (e, d, x, v) = record_mismatches-errors w.correctness id ty o n ms in
      omega (arith, e, d, ap (λ k. backlog k w.queue) x)

  pub submit_verify-faults :
      (w : World F) (job : VerifyJob F)
      → (faults w + wrong job.inline ≤ faults (submit_verify w job))
        × (faults (submit_verify w job) ≡ 0
            → verify_partial fl job.session_id job.response w.correctness.expected ≡ [])
  unfolding submit_verify
  submit_verify-faults w job =
      if_cases
        (λ (u : World F).
          (faults w + wrong job.inline ≤ faults u)
          × (faults u ≡ 0
              → verify_partial fl job.session_id job.response w.correctness.expected ≡ []))
        (w.verifier_alive && ltb (length w.queue) verify_queue_capacity)
        (λ h. (
          omega (
            arith,
            backlog-snoc w.correctness.expected w.queue job,
            wrong-append job.inline
                (verify_partial fl job.session_id job.response w.correctness.expected),
          ),
          λ z.
              append_nil_right job.inline _
                (wrong_nil _ (omega (arith, z, backlog-snoc w.correctness.expected w.queue job))),
        ))
        (λ h. (omega (arith, dropped), λ z. absurd (omega (arith, z, dropped))))
    where
      append_nil_right : (ms ns : List MismatchKind) → ms ++ ns ≡ [] → ns ≡ []
      append_nil_right [] ns e = e
      append_nil_right (m ∷ ms) ns e = cc

      less : World F
      less = record w {
        correctness = record w.correctness { verify_dropped = w.correctness.verify_dropped + 1 };
      }

      dropped :
          faults (
            with_errors less job.session_id "partial" job.response.oldest_frame_seq
              job.response.newest_frame_seq job.inline)
          ≡ faults w + 1 + wrong job.inline
      dropped = omega (
        arith,
        with_errors-faults less job.session_id "partial" job.response.oldest_frame_seq
            job.response.newest_frame_seq job.inline,
      )

  pub with_errors-settings :
      (w : World F) (id : ℕ) (ty : String) (o n : ℕ) (ms : List MismatchKind)
      → settings (with_errors w id ty o n ms) ≡ settings w
  unfolding record_mismatches
  with_errors-settings w id ty o n [] = refl
  with_errors-settings w id ty o n (m ∷ ms) = refl

  pub submit_verify-settings :
      (w : World F) (job : VerifyJob F) → settings (submit_verify w job) ≡ settings w
  unfolding submit_verify
  submit_verify-settings w job =
      if_cases (λ (u : World F). settings u ≡ settings w)
        (w.verifier_alive && ltb (length w.queue) verify_queue_capacity) (λ h. refl)
        (λ h.
          with_errors-settings
            (record w {
              correctness = record w.correctness {
                verify_dropped = w.correctness.verify_dropped + 1;
              };
            })
            job.session_id "partial" job.response.oldest_frame_seq job.response.newest_frame_seq
            job.inline)
