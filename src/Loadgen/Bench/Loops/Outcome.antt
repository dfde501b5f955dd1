-- ===== src/Loadgen/Bench/Loops/Outcome.antt =====
-- loadgen/rust/src/bin/stt-inferbench.rs: what the benchmark reports of its requests.
use websocket_stt_bench.Common.{ℕ, ◌≡◌, ◌∙◌, arith, String, Bool, some, List, length, All, Result}
use websocket_stt_bench.Loadgen.Bench.{
  BenchError, BenchSummary, new_summary, attempted, collect_results,
}
use websocket_stt_bench.Loadgen.Bench.Summary.{Fits, Counts, collect_results-Counts}
use websocket_stt_bench.Loadgen.Bench.Loops.{Finished, closed_loop, open_loop}
use websocket_stt_bench.Loadgen.Bench.Loops.Counts.{open_loop-IsPaced}
use websocket_stt_bench.Loadgen.Bench.Loops.Workers.{closed_loop-results}

Finished-length :
    (status_text : ℕ → String) (clients concurrency : ℕ) (rs : List (Result ℕ BenchError)) (n : ℕ)
    → Finished status_text clients concurrency rs n
    → length rs ≡ n
Finished-length status_text clients concurrency rs n (closed_loop deadline es done) =
    closed_loop-results status_text clients deadline concurrency es done
Finished-length status_text clients concurrency rs n (open_loop requests due es done) =
    let v = open_loop-IsPaced status_text clients concurrency requests due es in
    ground (arith, v.counted, done)

-- When a request loop has returned, the closed one or the open one, and if the histogram takes each latency: as many
-- requests are counted as were made, which in the open loop are all that were asked for; the completed ones
-- are those with a latency, each recorded, in the order of the results; each error is counted under its
-- kind; and the messages kept are those of the first five errors.
pub Finished-Counts :
    (status_text : ℕ → String) (clients concurrency : ℕ) (fits : ℕ → Bool)
    (rs : List (Result ℕ BenchError)) (n : ℕ)
    → Finished status_text clients concurrency rs n
    → All (Fits fits) rs
    → (s : BenchSummary) × (collect_results fits rs new_summary ≡ some s)
      × Counts s rs
      × (attempted s ≡ n)
Finished-Counts status_text clients concurrency fits rs n done h =
    let (s, e, v) = collect_results-Counts fits rs h in
    (s, e, v, v.all ∙ Finished-length status_text clients concurrency rs n done)
