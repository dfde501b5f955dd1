-- ===== src/Loadgen/Bench/Loops/Workers.antt =====
-- loadgen/rust/src/bin/stt-inferbench.rs: the workers of the closed loop.
use websocket_stt_bench.Common.{
  ℕ, zero, suc, ◌+◌, ◌%◌, ◌≡◌, refl, ap, arith, String, true, Option, none, some, List, [], ◌∷◌,
  ltb, if_cases, length, length-append, get_elem?, set,
}
use websocket_stt_bench.Loadgen.Bench.{send_infer}
use websocket_stt_bench.Loadgen.Bench.Loops.{
  WorkerPhase, looking, waiting, stopped, ClosedLoop, ClosedStep, looks, answers, workers_of,
  new_closed, all_stopped, looked, reply_taken, on_closed, run_closed_loop,
}

-- The workers that wait for an answer.
abbrev busy_one : WorkerPhase → ℕ
busy_one looking = 0
busy_one waiting = 1
busy_one stopped = 0

abbrev pub busy : List WorkerPhase → ℕ
busy [] = 0
busy (w ∷ ws) = busy_one w + busy ws

abbrev busy_found : Option WorkerPhase → ℕ
busy_found none = 0
busy_found (some w) = busy_one w

busy-set :
    (ws : List WorkerPhase) (i : ℕ) (p q : WorkerPhase)
    → get_elem? ws i ≡ some p
    → busy (set ws i q) + busy_one p ≡ busy ws + busy_one q
busy-set [] i p q e = cc
busy-set (w ∷ ws) zero p q e = omega (arith, ap busy_found e)
busy-set (w ∷ ws) (suc i) p q e = omega (arith, busy-set ws i p q e)

busy-all_stopped : (ws : List WorkerPhase) → all_stopped ws ≡ true → busy ws ≡ 0
busy-all_stopped [] e = refl
busy-all_stopped (stopped ∷ ws) e = omega (arith, busy-all_stopped ws e)
busy-all_stopped (looking ∷ ws) e = cc
busy-all_stopped (waiting ∷ ws) e = cc

busy-workers_of : (n : ℕ) → busy (workers_of n) ≡ 0
busy-workers_of zero = refl
busy-workers_of (suc n) = omega (arith, busy-workers_of n)

-- Each request that was made has its result, or a worker that waits for it.
module _ (status_text : ℕ → String) (clients deadline : ℕ) where
  abbrev IsAnswered : ClosedLoop → Type 0
  IsAnswered s = length s.results + busy s.workers ≡ length s.started

  on_closed-IsAnswered :
      (e : ClosedStep) (s : ClosedLoop)
      → IsAnswered s
      → IsAnswered (on_closed status_text clients deadline e s)
  unfolding on_closed
  on_closed-IsAnswered (looks worker now) s v = by_phase (get_elem? s.workers worker) refl
    where
      by_phase :
          (o : Option WorkerPhase)
          → get_elem? s.workers worker ≡ o
          → IsAnswered (looked status_text clients o worker now deadline s)
      by_phase (some looking) e =
          if_cases IsAnswered (ltb now deadline)
            (λ on. omega (
              arith,
              v,
              busy-set s.workers worker looking waiting e,
              length-append s.started (record { client = worker % clients; at = now } ∷ []),
            ))
            (λ off. omega (arith, v, busy-set s.workers worker looking stopped e))
      by_phase (some waiting) e = v
      by_phase (some stopped) e = v
      by_phase none e = v
  on_closed-IsAnswered (answers worker reply) s v = by_phase (get_elem? s.workers worker) refl
    where
      by_phase :
          (o : Option WorkerPhase)
          → get_elem? s.workers worker ≡ o
          → IsAnswered (reply_taken status_text clients o worker reply s)
      by_phase (some waiting) e = omega (
        arith,
        v,
        busy-set s.workers worker waiting looking e,
        length-append s.results (send_infer status_text reply ∷ []),
      )
      by_phase (some looking) e = v
      by_phase (some stopped) e = v
      by_phase none e = v

  run_closed_loop-IsAnswered :
      (es : List ClosedStep) (s : ClosedLoop)
      → IsAnswered s
      → IsAnswered (run_closed_loop status_text clients deadline es s)
  unfolding run_closed_loop
  run_closed_loop-IsAnswered [] s v = v
  run_closed_loop-IsAnswered (e ∷ es) s v =
      run_closed_loop-IsAnswered es (on_closed status_text clients deadline e s)
        (on_closed-IsAnswered e s v)

  pub closed_loop-results :
      (concurrency : ℕ) (es : List ClosedStep)
      → let s = run_closed_loop status_text clients deadline es (new_closed concurrency) in
        all_stopped s.workers ≡ true → length s.results ≡ length s.started
  closed_loop-results concurrency es done =
      let s = run_closed_loop status_text clients deadline es (new_closed concurrency) in
      omega (
        arith,
        run_closed_loop-IsAnswered es (new_closed concurrency)
            (omega (arith, busy-workers_of concurrency)),
        busy-all_stopped s.workers done,
      )
