-- ===== src/Loadgen/Driver/Task/Counted.antt =====
-- loadgen/rust/src/main.rs: how a session is counted, however it ends.
use websocket_stt_bench.Common.{
  ℕ, ◌+◌, ◌≡◌, refl, arith, true, false, Option, none, some, List, [], ◌∷◌, ltb, ok, err,
}
use websocket_stt_bench.Common.Float.{Float64}
use websocket_stt_bench.Loadgen.Protocol.{ServerMessage}
use websocket_stt_bench.Loadgen.Driver.Outcomes.{
  TimeoutKind, connect_timeout, send_timeout, close_timeout, TimeoutCounters, Tally, SessionEnd,
  Timed, in_time, elapsed, timed, record_session_outcome,
}
use websocket_stt_bench.Loadgen.Driver.Outcomes.Sessions.{
  failures, timeouts_of, inner_timeouts, all_timeouts, all_timeouts-increment, outcome_Counted,
}
use websocket_stt_bench.Loadgen.Driver.Receive.{
  World, Session, InboundState, open_session, closed_session, session_error,
}
use websocket_stt_bench.Loadgen.Driver.Task.{
  Task, Arm, tick, message, meanwhile, ClosingArm, late_message, grace_over, elsewhere, Script,
  start_task, ended_by, await_timed, and_then, received, handled, on_arm, send_loop, on_late,
  close_loop, run_session,
}

abbrev count : {F : Type 0} → Task F → ℕ
count t = all_timeouts t.counters

-- From `n` timeouts: a future's end adds its own, and going on none.
abbrev Adds : {F : Type 0} → (Task F → Type 0) → ℕ → Task F × Option SessionEnd → Type 0
Adds Q n (u, none) = Q u
Adds Q n (u, some e) = count u ≡ n + inner_timeouts e

module _ {F : Type 0} (Q : Task F → Type 0) where
  and_then-Adds :
      (n : ℕ) (r : Task F × Option SessionEnd) (k : Task F → Task F × Option SessionEnd)
      → Adds (λ u. count u ≡ n) n r
      → ((u : Task F) → count u ≡ n → Adds Q n (k u))
      → Adds Q n (and_then r k)
  and_then-Adds n (u, none) k h more = more u h
  and_then-Adds n (u, some e) k h more = h

  await_timed-Adds :
      (n : ℕ) (kind : TimeoutKind) (future : Option (Timed (Unit {0}))) (t : Task F)
      (k : Task F → Task F × Option SessionEnd)
      → count t ≡ n
      → Adds Q n (k t)
      → Adds Q n (await_timed kind future t k)
  unfolding await_timed timed
  await_timed-Adds n kind none t k e more = omega (arith, e)
  await_timed-Adds n kind (some (in_time (ok u))) t k e more = more
  await_timed-Adds n kind (some (in_time (err x))) t k e more = omega (arith, e)
  await_timed-Adds n kind (some elapsed) t k e more =
      omega (arith, e, all_timeouts-increment t.counters kind)

module _ {F T : Type 0} (fl : Float64 F) (from_str : T → Option (ServerMessage F))
    (s : Session) where
  ended_by-Adds :
      (n : ℕ) (st : InboundState) (u : Task F)
      → count u ≡ n
      → Adds (λ v. count v ≡ n) n (u, ended_by st)
  ended_by-Adds n open_session u e = e
  ended_by-Adds n closed_session u e = omega (arith, e)
  ended_by-Adds n session_error u e = omega (arith, e)

  on_arm-Adds :
      (n : ℕ) (t : Task F) (arm : Arm F T)
      → count t ≡ n
      → Adds (λ v. count v ≡ n) n (on_arm fl from_str s t arm)
  unfolding on_arm
  on_arm-Adds n t (tick woke sent_at sent) e =
      await_timed-Adds (λ v. count v ≡ n) n send_timeout sent t _ e e
  on_arm-Adds n t (message a) e =
      ended_by-Adds n (handled fl from_str s t a).state
        (received fl from_str s t a (handled fl from_str s t a)) e
  on_arm-Adds n t (meanwhile f) e = e

  send_loop-Adds :
      (n : ℕ) (t : Task F) (turns : List (ℕ × Arm F T))
      → count t ≡ n
      → Adds (λ v. count v ≡ n) n (send_loop fl from_str s t turns)
  unfolding send_loop
  send_loop-Adds n t [] e = omega (arith, e)
  send_loop-Adds n t ((now, arm) ∷ rest) e =
      elim (ltb now s.end_at)
        as (λ b.
          Adds {F = F} (λ v. count v ≡ n) n
            (elim b [
              | true ↦ and_then (on_arm fl from_str s t arm) (λ u. send_loop fl from_str s u rest)
              | false ↦ (t, none)
            ])) [
              | true ↦
                  and_then-Adds (λ v. count v ≡ n) n (on_arm fl from_str s t arm) _
                    (on_arm-Adds n t arm e) (λ u h. send_loop-Adds n u rest h)
              | false ↦ e
            ]

  on_late-Adds :
      (n : ℕ) (st : InboundState) (t : Task F) (k : Task F → Task F × Option SessionEnd)
      → count t ≡ n
      → Adds (λ v. ⊥) n (k t)
      → Adds (λ v. ⊥) n (on_late fl from_str s st t k)
  on_late-Adds n open_session t k e more = more
  on_late-Adds n closed_session t k e more = omega (arith, e)
  on_late-Adds n session_error t k e more = omega (arith, e)

  close_loop-Adds :
      (n : ℕ) (t : Task F) (arms : List (ClosingArm F T))
      → count t ≡ n
      → Adds (λ v. ⊥) n (close_loop fl from_str s t arms)
  unfolding close_loop
  close_loop-Adds n t [] e = omega (arith, e)
  close_loop-Adds n t (late_message a ∷ rest) e =
      let u = received fl from_str s t a (handled fl from_str s t a) in
      on_late-Adds n (handled fl from_str s t a).state u _ e (close_loop-Adds n u rest e)
  close_loop-Adds n t (grace_over ∷ rest) e =
      omega (arith, e, all_timeouts-increment t.counters close_timeout)
  close_loop-Adds n t (elsewhere f ∷ rest) e =
      close_loop-Adds n (record t { world = f t.world }) rest e

  run_session-Adds :
      (w : World F) (counters : TimeoutCounters) (sc : Script F T)
      → Adds (λ v. ⊥) (all_timeouts counters) (run_session fl from_str s w counters sc)
  unfolding run_session
  run_session-Adds w counters sc =
      let n = all_timeouts counters in
      let t = start_task w counters sc.loop_start in
      await_timed-Adds (λ v. ⊥) n connect_timeout sc.connect t _ refl
        (await_timed-Adds (λ v. ⊥) n send_timeout sc.send_start t _ refl
          (and_then-Adds (λ v. ⊥) n (send_loop fl from_str s t sc.turns) _
            (send_loop-Adds n t sc.turns refl)
            (λ u h.
              await_timed-Adds (λ v. ⊥) n send_timeout sc.send_close u _ h
                (close_loop-Adds n u sc.closing h))))

-- A session always ends, and is counted once: if it failed, for whatever cause, `protocol_errors` goes up by
-- one; if it failed for a timeout, of one of its futures, of the close grace or of the whole session, the
-- timeout counters go up by one altogether, and otherwise by none.
pub run_session-counts :
    {F T : Type 0} (fl : Float64 F) (from_str : T → Option (ServerMessage F)) (s : Session)
    (w : World F) (tally : Tally) (sc : Script F T)
    → (u : Task F) × (e : SessionEnd) × (run_session fl from_str s w tally.timeouts sc
        ≡ (u, some e))
      × (let tally' = record_session_outcome (record tally { timeouts = u.counters }) e in
          (tally'.protocol_errors ≡ tally.protocol_errors + failures e)
          × (all_timeouts tally'.timeouts ≡ all_timeouts tally.timeouts + timeouts_of e))
run_session-counts {F = F} fl from_str s w tally sc =
    by_result (run_session fl from_str s w tally.timeouts sc) refl
      (run_session-Adds fl from_str s w tally.timeouts sc)
  where
    by_result :
        (r : Task F × Option SessionEnd)
        → run_session fl from_str s w tally.timeouts sc ≡ r
        → Adds (λ v. ⊥) (all_timeouts tally.timeouts) r
        → (u : Task F) × (e : SessionEnd) × (run_session fl from_str s w tally.timeouts sc
            ≡ (u, some e))
          × (let tally' = record_session_outcome (record tally { timeouts = u.counters }) e in
              (tally'.protocol_errors ≡ tally.protocol_errors + failures e)
              × (all_timeouts tally'.timeouts ≡ all_timeouts tally.timeouts + timeouts_of e))
    by_result (u, none) ran h = absurd h
    by_result (u, some e) ran h =
        let c = outcome_Counted tally u.counters false e h in (u, e, ran, (c.errors, c.timeouts))
