-- ===== src/Loadgen/Bench/Loops/Ends.antt =====
-- loadgen/rust/src/bin/stt-inferbench.rs: the open loop comes to its end.
use websocket_stt_bench.Common.{
  ℕ, zero, suc, ◌+◌, ◌-◌, ◌*◌, ◌≤◌, ◌<◌, ◌≡◌, arith, String, true, false, List, [], ◌∷◌, length,
  Bool-cases, inl, inr, Result,
}
use websocket_stt_bench.Loadgen.Bench.{BenchError, BenchReply}
use websocket_stt_bench.Loadgen.Bench.Loops.{
  Start, OpenLoop, OpenStep, spawns, ends, sends, new_open, open_done, on_open, run_open_loop,
}
use websocket_stt_bench.Loadgen.Bench.Loops.Counts.{IsPaced, on_open-InPace, open_loop-IsPaced}

module _ (status_text : ℕ → String) (clients concurrency requests : ℕ) (due : ℕ → ℕ)
    (reply : BenchReply) (some_permit : 0 < concurrency) where
  -- The steps that are left: three for a request that is not made, two for one in flight, one for a result.
  abbrev left : OpenLoop → ℕ
  left s = 3 * (requests - s.next) + 2 * length s.flying + length s.sending

  abbrev step : OpenStep → OpenLoop → OpenLoop
  step e s = on_open status_text clients requests due e s

  fields-step :
      (next permits : ℕ) (flying : List ℕ) (sending : List (Result ℕ BenchError))
      (started : List Start) (results : List (Result ℕ BenchError))
      → let s : OpenLoop = record {
        next = next;
        permits = permits;
        flying = flying;
        sending = sending;
        started = started;
        results = results;
      } in
        IsPaced clients concurrency requests due s
        → open_done requests s ≡ false
        → (e : OpenStep) × (left (step e s) < left s)
  unfolding on_open
  fields-step next permits flying (r ∷ rs) started results v more = (sends 0, omega arith)
  fields-step next permits (x ∷ xs) [] started results v more = (ends 0 reply, ground arith)
  fields-step next permits [] [] started results v more =
      (spawns (due next), ground (arith, more, some_permit, v.permits, v.bounded))

  ends_within :
      (n : ℕ) (s : OpenLoop)
      → IsPaced clients concurrency requests due s
      → left s ≤ n
      → (es : List OpenStep) × (open_done requests
            (run_open_loop status_text clients requests due es s)
          ≡ true)
  unfolding run_open_loop
  ends_within zero s v h = elim (Bool-cases (open_done requests s)) [
    | inl done ↦ ([], done)
    | inr more ↦
        let (e, less) =
          fields-step s.next s.permits s.flying s.sending s.started s.results v more in
        absurd (omega (arith, h, less))
  ]
  ends_within (suc n) s v h = elim (Bool-cases (open_done requests s)) [
    | inl done ↦ ([], done)
    | inr more ↦
        let (e, less) =
          fields-step s.next s.permits s.flying s.sending s.started s.results v more in
        let (es, done) =
          ends_within n (step e s)
            (on_open-InPace status_text clients concurrency requests due e s v)
            (omega (arith, h, less)) in
        (e ∷ es, done)
  ]

  -- If a request may be in flight: after any steps of the open loop and its tasks, at most `concurrency` requests are
  -- in flight, each request that was made went to the next client in turn and no sooner than it was due,
  -- and there are further steps after which every request was made and its result was sent.
  pub open_loop_ends :
      (es : List OpenStep)
      → let s = run_open_loop status_text clients requests due es (new_open concurrency) in
        IsPaced clients concurrency requests due s
        × (length s.flying ≤ concurrency)
        × (more : List OpenStep) × (open_done requests
              (run_open_loop status_text clients requests due more s)
            ≡ true)
  open_loop_ends es =
      let s = run_open_loop status_text clients requests due es (new_open concurrency) in
      let v = open_loop-IsPaced status_text clients concurrency requests due es in
      let (more, done) = ends_within (left s) s v (omega arith) in
      (v, omega (arith, v.permits), more, done)
