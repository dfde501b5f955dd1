-- ===== src/Loadgen/Driver/Outcomes/Sessions.antt =====
-- loadgen/rust/src/main.rs: the counters of failed sessions over a whole run.
use websocket_stt_bench.Common.{
  ℕ, ◌+◌, ◌≤◌, ◌≡◌, refl, subst, arith, Bool, true, false, List, [], ◌∷◌, ok, err,
}
use websocket_stt_bench.Loadgen.Driver.Outcomes.{
  TimeoutKind, connect_timeout, send_timeout, close_timeout, session_timeout, TimeoutCounters,
  no_timeouts, increment, timed_out, other_error, Tally, SessionEnd, finished, failed,
  deadline_elapsed, Timed, in_time, elapsed, timed, record_session_outcome,
}

-- The timed futures of a session, in order; the first that fails ends it.
unfoldable pub await_all :
    TimeoutCounters → List (TimeoutKind × Timed Unit) → TimeoutCounters × SessionEnd
unfolding timed
await_all c [] = (c, finished)
await_all c ((kind, f) ∷ rest) =
    let (c', r) = timed c kind f in
    let more = await_all c' rest in elim r [ ok u ↦ more | err e ↦ (c', failed e) ]

-- Whether a session failed, whether it did for a timeout, and whether a future counted that.
abbrev pub failures : SessionEnd → ℕ
failures finished = 0
failures (failed f) = 1
failures deadline_elapsed = 1

abbrev pub timeouts_of : SessionEnd → ℕ
timeouts_of finished = 0
timeouts_of (failed (timed_out k)) = 1
timeouts_of (failed (other_error e)) = 0
timeouts_of deadline_elapsed = 1

abbrev pub inner_timeouts : SessionEnd → ℕ
inner_timeouts finished = 0
inner_timeouts (failed (timed_out k)) = 1
inner_timeouts (failed (other_error e)) = 0
inner_timeouts deadline_elapsed = 0

-- A session: its timed futures, and whether its deadline passes before it ends.
pub record Script : Type 0 where
  pub steps : List (TimeoutKind × Timed Unit)
  pub deadline : Bool

abbrev pub outcome_of : Bool → SessionEnd → SessionEnd
outcome_of true finished = deadline_elapsed
outcome_of _ e = e

abbrev pub run_script : Tally → Script → Tally
run_script t s =
    let (c, e) = await_all t.timeouts s.steps in
    record_session_outcome (record t { timeouts = c }) (outcome_of s.deadline e)

abbrev pub run_scripts : Tally → List Script → Tally
run_scripts t [] = t
run_scripts t (s ∷ rest) = run_scripts (run_script t s) rest

abbrev pub no_failures : Tally
no_failures = record { protocol_errors = 0; timeouts = no_timeouts }

abbrev pub end_of_script : Script → SessionEnd
end_of_script s = outcome_of s.deadline (await_all no_timeouts s.steps).1

abbrev pub all_timeouts : TimeoutCounters → ℕ
all_timeouts c = c.connect + c.send + c.close + c.session

pub all_timeouts-increment :
    (c : TimeoutCounters) (k : TimeoutKind) → all_timeouts (increment c k) ≡ all_timeouts c + 1
unfolding increment
all_timeouts-increment c connect_timeout = omega arith
all_timeouts-increment c send_timeout = omega arith
all_timeouts-increment c close_timeout = omega arith
all_timeouts-increment c session_timeout = omega arith

await_all-timeouts :
    (c : TimeoutCounters) (steps : List (TimeoutKind × Timed Unit))
    → all_timeouts (await_all c steps).0 ≡ all_timeouts c + inner_timeouts (await_all c steps).1
unfolding await_all timed
await_all-timeouts c [] = omega arith
await_all-timeouts c ((kind, in_time (ok u)) ∷ rest) = await_all-timeouts c rest
await_all-timeouts c ((kind, in_time (err e)) ∷ rest) = omega arith
await_all-timeouts c ((kind, elapsed) ∷ rest) = all_timeouts-increment c kind

-- How a session ends does not depend on the counters.
await_all_end :
    (c d : TimeoutCounters) (steps : List (TimeoutKind × Timed Unit))
    → (await_all c steps).1 ≡ (await_all d steps).1
unfolding await_all timed
await_all_end c d [] = refl
await_all_end c d ((kind, in_time (ok u)) ∷ rest) = await_all_end c d rest
await_all_end c d ((kind, in_time (err e)) ∷ rest) = refl
await_all_end c d ((kind, elapsed) ∷ rest) = refl

pub record Counted (t u : Tally) (e : SessionEnd) : Type 0 where
  pub errors : u.protocol_errors ≡ t.protocol_errors + failures e
  pub timeouts : all_timeouts u.timeouts ≡ all_timeouts t.timeouts + timeouts_of e

pub outcome_Counted :
    (t : Tally) (c : TimeoutCounters) (deadline : Bool) (e : SessionEnd)
    → all_timeouts c ≡ all_timeouts t.timeouts + inner_timeouts e
    → Counted t
        (record_session_outcome (record t { timeouts = c }) (outcome_of deadline e))
        (outcome_of deadline e)
unfolding record_session_outcome
outcome_Counted t c true finished h = record {
  errors = omega arith;
  timeouts = omega (arith, h, all_timeouts-increment c session_timeout);
}
outcome_Counted t c false finished h = record { errors = omega arith; timeouts = h }
outcome_Counted t c true (failed (timed_out k)) h = record { errors = omega arith; timeouts = h }
outcome_Counted t c false (failed (timed_out k)) h = record { errors = omega arith; timeouts = h }
outcome_Counted t c true (failed (other_error x)) h = record { errors = omega arith; timeouts = h }
outcome_Counted t c false (failed (other_error x)) h = record { errors = omega arith; timeouts = h }
outcome_Counted t c true deadline_elapsed h = record {
  errors = omega arith;
  timeouts = omega (arith, h, all_timeouts-increment c session_timeout);
}
outcome_Counted t c false deadline_elapsed h = record {
  errors = omega arith;
  timeouts = omega (arith, h, all_timeouts-increment c session_timeout);
}

abbrev pub total_of : (SessionEnd → ℕ) → List Script → ℕ
total_of f [] = 0
total_of f (s ∷ rest) = f (end_of_script s) + total_of f rest

run_script-Counted : (t : Tally) (s : Script) → Counted t (run_script t s) (end_of_script s)
run_script-Counted t s =
    subst (λ e. Counted t (run_script t s) (outcome_of s.deadline e))
      (await_all_end t.timeouts no_timeouts s.steps)
      (outcome_Counted t (await_all t.timeouts s.steps).0 s.deadline
        (await_all t.timeouts s.steps).1 (await_all-timeouts t.timeouts s.steps))

run_scripts_from :
    (t : Tally) (ss : List Script)
    → ((run_scripts t ss).protocol_errors ≡ t.protocol_errors + total_of failures ss)
      × (all_timeouts (run_scripts t ss).timeouts
          ≡ all_timeouts t.timeouts + total_of timeouts_of ss)
run_scripts_from t [] = (omega arith, omega arith)
run_scripts_from t (s ∷ rest) =
    let one = run_script-Counted t s in
    let (errors, timeouts) = run_scripts_from (run_script t s) rest in
    (omega (arith, one.errors, errors), omega (arith, one.timeouts, timeouts))

timeouts_le : (e : SessionEnd) → timeouts_of e ≤ failures e
timeouts_le finished = omega arith
timeouts_le (failed (timed_out k)) = omega arith
timeouts_le (failed (other_error x)) = omega arith
timeouts_le deadline_elapsed = omega arith

total_le : (ss : List Script) → total_of timeouts_of ss ≤ total_of failures ss
total_le [] = omega arith
total_le (s ∷ rest) = omega (arith, timeouts_le (end_of_script s), total_le rest)

-- After any sessions, `protocol_errors` is the number of those that failed; the timeout counters add up to
-- the number of those that failed for a timeout, of a future or of the whole session; so they break down a
-- part of `protocol_errors`.
pub run_scripts-counts :
    (ss : List Script)
    → let t = run_scripts no_failures ss in
      (t.protocol_errors ≡ total_of failures ss)
      × (all_timeouts t.timeouts ≡ total_of timeouts_of ss)
      × (all_timeouts t.timeouts ≤ t.protocol_errors)
run_scripts-counts ss =
    let (errors, timeouts) = run_scripts_from no_failures ss in
    (omega (arith, errors), omega (arith, timeouts), omega (arith, errors, timeouts, total_le ss))
