-- ===== src/Loadgen/Bench/Loops/Tests.antt =====
-- loadgen/rust/src/bin/stt-inferbench.rs: the request loops on a few steps, and arguments.
use websocket_stt_bench.Common.{
  ℕ, ◌*◌, ◌≡◌, ◌≤◌, refl, arith, String, Bool, true, false, Option, none, some, List, [], ◌∷◌, leb,
  length, ok, All,
}
use websocket_stt_bench.Common.Float.{unit_floats}
use websocket_stt_bench.Loadgen.Bench.{
  BenchSummary, BenchReply, responded, new_summary, attempted, record_result, collect_results,
  send_infer,
}
use websocket_stt_bench.Loadgen.Bench.Summary.{Fits, Counts}
use websocket_stt_bench.Loadgen.Bench.Loops.{
  validate_args, OpenStep, spawns, ends, sends, on_open, run_open_loop, open_run, open_done,
  open_loop,
}
use websocket_stt_bench.Loadgen.Bench.Loops.Counts.{IsPaced}
use websocket_stt_bench.Loadgen.Bench.Loops.Ends.{open_loop_ends}
use websocket_stt_bench.Loadgen.Bench.Loops.Outcome.{Finished-Counts}

abbrev status_text : ℕ → String
status_text n = "HTTP"

-- A histogram that takes up to a minute, in microseconds.
abbrev minute : ℕ → Bool
minute us = leb us 60000000

abbrev answer : BenchReply
answer = responded 200 1500 none

abbrev due_at : ℕ → ℕ
due_at k = k * 10

-- Two permits: the third request waits until a task has ended.
abbrev steps : List OpenStep
steps =
    spawns 0
    ∷ spawns 5
    ∷ spawns 10
    ∷ spawns 20
    ∷ ends 1 answer
    ∷ spawns 25
    ∷ ends 0 answer
    ∷ sends 1
    ∷ []

abbrev last_steps : List OpenStep
last_steps = ends 0 (responded 503 900 none) ∷ sends 0 ∷ sends 0 ∷ []

open_done_example :
    open_done 3
      (run_open_loop status_text 4 3 due_at last_steps (open_run status_text 4 2 3 due_at steps))
    ≡ true
unfolding run_open_loop on_open send_infer
open_done_example = refl

-- A latency of more than a minute is a panic.
slow_answer_panics :
    ◌≡◌ {A = Option BenchSummary} (collect_results minute (ok 60000001 ∷ []) new_summary) none
unfolding collect_results record_result
slow_answer_panics = refl

no_workers :
    ◌≡◌ {A = Bool}
      (validate_args unit_floats (record {
        concurrency = 0;
        clients = 4;
        rps = none;
        duration_secs = 30;
        payload_frames = 50;
      }))
      false
unfolding validate_args
no_workers = refl

abbrev all_steps : List OpenStep
all_steps =
    spawns 0
    ∷ spawns 10
    ∷ ends 1 answer
    ∷ spawns 25
    ∷ ends 0 answer
    ∷ sends 1
    ∷ ends 0 (responded 503 900 none)
    ∷ sends 0
    ∷ sends 0
    ∷ []

all_steps_done : open_done 3 (open_run status_text 4 2 3 due_at all_steps) ≡ true
unfolding run_open_loop on_open send_infer
all_steps_done = refl

all_steps_fit : All (Fits minute) (open_run status_text 4 2 3 due_at all_steps).results
unfolding run_open_loop on_open send_infer
all_steps_fit = (refl, (refl, (tt, tt)))

Finished-Counts_example :
    (s : BenchSummary) × (collect_results minute
        (open_run status_text 4 2 3 due_at all_steps).results
        new_summary
      ≡ some s)
    × Counts s (open_run status_text 4 2 3 due_at all_steps).results
    × (attempted s ≡ 3)
Finished-Counts_example =
    Finished-Counts status_text 4 2 minute (open_run status_text 4 2 3 due_at all_steps).results 3
      (open_loop 3 due_at all_steps all_steps_done) all_steps_fit

open_loop_ends_example :
    let s = open_run status_text 4 2 3 due_at steps in
    IsPaced 4 2 3 due_at s
    × (length s.flying ≤ 2)
    × (more : List OpenStep) × (open_done 3 (run_open_loop status_text 4 3 due_at more s) ≡ true)
open_loop_ends_example = open_loop_ends status_text 4 2 3 due_at answer (omega arith) steps
