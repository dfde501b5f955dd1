-- ===== src/Loadgen/Bench/Loops.antt =====
-- loadgen/rust/src/bin/stt-inferbench.rs: `validate_args`, and the two request loops as steps. A step whose guard
-- does not hold changes nothing. Instants are numbers of nanoseconds; `due` gives the instant that the
-- open loop computes for a request in floats.
pub mod Counts
pub mod Ends
pub mod Workers
pub mod Outcome
mod Tests
use websocket_stt_bench.Common.{
  ℕ, zero, suc, ◌≡◌, ◌+◌, ◌-◌, ◌%◌, String, Bool, true, false, ◌&&◌, ◌||◌, not, Option, none, some,
  List, [], ◌∷◌, ◌++◌, ltb, leb, ◌==◌, if◌then◌else◌, length, get_elem?, set, Result,
}
use websocket_stt_bench.Common.Float.{Float64}
use websocket_stt_bench.Loadgen.Bench.{BenchError, BenchReply, send_infer}

pub record Args (F : Type 0) : Type 0 where
  pub concurrency : ℕ
  pub clients : ℕ
  pub rps : Option F
  pub duration_secs : ℕ
  pub payload_frames : ℕ

abbrev pub valid_rps : {F : Type 0} → Float64 F → Option F → Bool
valid_rps fl none = true
valid_rps fl (some rps) = fl.is_finite rps && not (fl.leb rps (fl.of_nat 0))

unfoldable pub validate_args : {F : Type 0} → Float64 F → Args F → Bool
validate_args fl args =
    not (args.concurrency == 0)
    && not (args.clients == 0)
    && not (args.duration_secs == 0)
    && not (args.payload_frames == 0)
    && valid_rps fl args.rps

-- A request that was made: the client that it went to, and when.
pub record Start : Type 0 where
  pub client : ℕ
  pub at : ℕ

-- A worker of the closed loop: at its test, in `send_infer`, or done.
pub data WorkerPhase : Type 0 where
  looking waiting stopped : WorkerPhase

pub record ClosedLoop : Type 0 where
  pub workers : List WorkerPhase
  pub started : List Start
  pub results : List (Result ℕ BenchError)

pub data ClosedStep : Type 0 where
  looks : (worker now : ℕ) → ClosedStep
  answers : (worker : ℕ) → BenchReply → ClosedStep

abbrev pub workers_of : ℕ → List WorkerPhase
workers_of zero = []
workers_of (suc n) = looking ∷ workers_of n

abbrev pub new_closed : ℕ → ClosedLoop
new_closed concurrency = record { workers = workers_of concurrency; started = []; results = [] }

abbrev pub all_stopped : List WorkerPhase → Bool
all_stopped [] = true
all_stopped (stopped ∷ ws) = all_stopped ws
all_stopped (looking ∷ ws) = false
all_stopped (waiting ∷ ws) = false

-- The tasks of the open loop: those in `send_infer`, which hold a permit, and those that have dropped it and have
-- yet to send their result.
pub record OpenLoop : Type 0 where
  pub next : ℕ
  pub permits : ℕ
  pub flying : List ℕ
  pub sending : List (Result ℕ BenchError)
  pub started : List Start
  pub results : List (Result ℕ BenchError)

pub data OpenStep : Type 0 where
  spawns : (now : ℕ) → OpenStep
  ends : (index : ℕ) → BenchReply → OpenStep
  sends : (index : ℕ) → OpenStep

abbrev pub new_open : ℕ → OpenLoop
new_open concurrency = record {
  next = 0;
  permits = concurrency;
  flying = [];
  sending = [];
  started = [];
  results = [];
}

abbrev pub without : {A : Type 0} → ℕ → List A → List A
without i [] = []
without zero (x ∷ xs) = xs
without (suc i) (x ∷ xs) = x ∷ without i xs

abbrev pub sent : Option (Result ℕ BenchError) → ℕ → OpenLoop → OpenLoop
sent none i s = s
sent (some r) i s = record s { sending = without i s.sending; results = s.results ++ r ∷ [] }

-- Every request was made, and every task has ended.
abbrev pub open_done : ℕ → OpenLoop → Bool
open_done requests s = (s.next == requests) && (length s.flying == 0) && (length s.sending == 0)

module _ (status_text : ℕ → String) (clients : ℕ) where
  abbrev pub looked : Option WorkerPhase → (worker now deadline : ℕ) → ClosedLoop → ClosedLoop
  looked (some looking) worker now deadline s =
      if ltb now deadline
      then record s {
        workers = set s.workers worker waiting;
        started = s.started ++ record { client = worker % clients; at = now } ∷ [];
      }
      else record s { workers = set s.workers worker stopped }
  looked _ worker now deadline s = s

  abbrev pub reply_taken : Option WorkerPhase → ℕ → BenchReply → ClosedLoop → ClosedLoop
  reply_taken (some waiting) worker reply s = record s {
    workers = set s.workers worker looking;
    results = s.results ++ send_infer status_text reply ∷ [];
  }
  reply_taken _ worker reply s = s

  unfoldable pub on_closed : ℕ → ClosedStep → ClosedLoop → ClosedLoop
  unfolding send_infer
  on_closed deadline (looks worker now) s =
      looked (get_elem? s.workers worker) worker now deadline s
  on_closed deadline (answers worker reply) s =
      reply_taken (get_elem? s.workers worker) worker reply s

  unfoldable pub run_closed_loop : ℕ → List ClosedStep → ClosedLoop → ClosedLoop
  unfolding on_closed
  run_closed_loop deadline [] s = s
  run_closed_loop deadline (e ∷ es) s = run_closed_loop deadline es (on_closed deadline e s)

  unfoldable pub on_open : ℕ → (ℕ → ℕ) → OpenStep → OpenLoop → OpenLoop
  unfolding send_infer
  on_open requests due (spawns now) s =
      if ltb s.next requests && leb (due s.next) now && ltb 0 s.permits
      then record s {
        next = s.next + 1;
        permits = s.permits - 1;
        flying = s.flying ++ s.next ∷ [];
        started = s.started ++ record { client = s.next % clients; at = now } ∷ [];
      }
      else s
  on_open requests due (ends index reply) s =
      if ltb index (length s.flying)
      then record s {
        permits = s.permits + 1;
        flying = without index s.flying;
        sending = s.sending ++ send_infer status_text reply ∷ [];
      }
      else s
  on_open requests due (sends index) s = sent (get_elem? s.sending index) index s

  unfoldable pub run_open_loop : ℕ → (ℕ → ℕ) → List OpenStep → OpenLoop → OpenLoop
  unfolding on_open
  run_open_loop requests due [] s = s
  run_open_loop requests due (e ∷ es) s = run_open_loop requests due es (on_open requests due e s)

  abbrev pub closed_run : (concurrency deadline : ℕ) → List ClosedStep → ClosedLoop
  closed_run concurrency deadline es = run_closed_loop deadline es (new_closed concurrency)

  abbrev pub open_run : (concurrency requests : ℕ) → (ℕ → ℕ) → List OpenStep → OpenLoop
  open_run concurrency requests due es = run_open_loop requests due es (new_open concurrency)

  -- The results that `main` collects, with the number of requests that were made, when its loop has returned.
  pub data Finished (concurrency : ℕ) : List (Result ℕ BenchError) → ℕ → Type 0 where
    closed_loop :
        (deadline : ℕ) (es : List ClosedStep)
        → all_stopped (closed_run concurrency deadline es).workers ≡ true
        → Finished concurrency
            (closed_run concurrency deadline es).results
            (length (closed_run concurrency deadline es).started)
    open_loop :
        (requests : ℕ) (due : ℕ → ℕ) (es : List OpenStep)
        → open_done requests (open_run concurrency requests due es) ≡ true
        → Finished concurrency (open_run concurrency requests due es).results requests
