-- ===== src/Loadgen/Driver/Task/Loops.antt =====
-- loadgen/rust/src/main.rs: what the loops of a session keep, whatever arms they take.
use websocket_stt_bench.Common.{
  ℕ, ◌≡◌, refl, sym, subst, true, false, Option, none, some, List, [], ◌∷◌, ltb, All, Result, ok,
  err,
}
use websocket_stt_bench.Common.Float.{Float64}
use websocket_stt_bench.Loadgen.Protocol.{ServerMessage}
use websocket_stt_bench.Loadgen.Verify.{ExpectedConfig}
use websocket_stt_bench.Loadgen.Driver.Outcomes.{
  TimeoutKind, send_timeout, TimeoutCounters, Failure, SessionEnd, finished, failed,
  deadline_elapsed, Timed, timed,
}
use websocket_stt_bench.Loadgen.Driver.Receive.{
  World, Session, InboundState, open_session, closed_session, Arrival, session_error,
}
use websocket_stt_bench.Loadgen.Driver.System.Verdict.{Grows, Grows-refl}
use websocket_stt_bench.Loadgen.Driver.Send.{Sender, send_frame}
use websocket_stt_bench.Loadgen.Driver.Task.{
  Task, Arm, tick, message, meanwhile, ClosingArm, late_message, grace_over, elsewhere, Script,
  ended_by, after_timed, await_timed, and_then, handled, received, on_arm, send_loop, checked,
  on_late, close_loop,
}
use websocket_stt_bench.Loadgen.Driver.Task.Run.{Keeps, Keeps-trans, Runs, received-Keeps}

-- What holds where a loop goes on, and where the session has ended well.
abbrev pub After :
    {F : Type 0} → (Task F → Type 0) → (Task F → Type 0) → Task F × Option SessionEnd → Type 0
After Q R (t, none) = Q t
After Q R (t, some finished) = R t
After Q R (t, some (failed f)) = Unit
After Q R (t, some deadline_elapsed) = Unit

module _ {F : Type 0} (Q R : Task F → Type 0) where
  pub and_then-After :
      (P : Task F → Type 0) (r : Task F × Option SessionEnd)
      (k : Task F → Task F × Option SessionEnd)
      → After P R r
      → ((t : Task F) → P t → After Q R (k t))
      → After Q R (and_then r k)
  and_then-After P (t, none) k h more = more t h
  and_then-After P (t, some finished) k h more = h
  and_then-After P (t, some (failed f)) k h more = tt
  and_then-After P (t, some deadline_elapsed) k h more = tt

  pub After-map :
      (P S : Task F → Type 0) (r : Task F × Option SessionEnd)
      → ((t : Task F) → P t → Q t)
      → ((t : Task F) → S t → R t)
      → After P S r
      → After Q R r
  After-map P S (t, none) f g h = f t h
  After-map P S (t, some finished) f g h = g t h
  After-map P S (t, some (failed x)) f g h = tt
  After-map P S (t, some deadline_elapsed) f g h = tt

  pub await_timed-After :
      (kind : TimeoutKind) (future : Option (Timed (Unit {0}))) (t : Task F)
      (k : Task F → Task F × Option SessionEnd)
      → ((counters : TimeoutCounters) → After Q R (k (record t { counters = counters })))
      → After Q R (await_timed kind future t k)
  unfolding await_timed
  await_timed-After kind none t k more = tt
  await_timed-After kind (some f) t k more = by_result (timed t.counters kind f)
    where
      by_result : (r : TimeoutCounters × Result (Unit {0}) Failure) → After Q R (after_timed r t k)
      by_result (counters, ok u) = more counters
      by_result (counters, err x) = tt

module _ {F T : Type 0} (fl : Float64 F) (from_str : T → Option (ServerMessage F)) (s : Session)
    (expected : ExpectedConfig) where
  -- What other tasks do takes no fault back and keeps the settings.
  abbrev pub ArmFits : ℕ × Arm F T → Type 0
  ArmFits (now, meanwhile f) = (w : World F) → Grows fl from_str w (f w)
  ArmFits _ = Unit

  abbrev pub ClosingFits : ClosingArm F T → Type 0
  ClosingFits (elsewhere f) = (w : World F) → Grows fl from_str w (f w)
  ClosingFits _ = Unit

  abbrev pub Fits : Script F T → Type 0
  Fits sc = All ArmFits sc.turns × All ClosingFits sc.closing

  abbrev pub Kept : Task F → Task F → Type 0
  Kept t u = Keeps fl from_str s expected t u

  -- A step that changes neither what was heard nor the tracker.
  pub aside-Keeps :
      (t : Task F) (w : World F) (counters : TimeoutCounters) (sender : Sender)
      → Grows fl from_str t.world w
      → Kept t (record t { world = w; counters = counters; sender = sender })
  aside-Keeps t w counters sender g = record {
    grows = g;
    tracked = λ z e v. record { linked = v.linked; tracker = v.tracker };
  }

  on_arm-After :
      (R : Task F → Type 0) (t : Task F) (now : ℕ) (arm : Arm F T)
      → ArmFits (now, arm)
      → After (Kept t) R (on_arm fl from_str s t arm)
  unfolding on_arm
  on_arm-After R t now (tick woke sent_at sent) fits =
      await_timed-After (Kept t) R send_timeout sent t
        (λ u. (record u { sender = send_frame s.id s.measure_start woke sent_at u.sender }, none))
        (λ counters. aside-Keeps t t.world counters _ (Grows-refl fl from_str t.world))
  on_arm-After R t now (message a) fits = by_state (handled fl from_str s t a).state refl
    where
      by_state :
          (st : InboundState)
          → (handled fl from_str s t a).state ≡ st
          → After (Kept t) R (received fl from_str s t a (handled fl from_str s t a), ended_by st)
      by_state open_session e =
          received-Keeps fl from_str s expected t a (subst (Runs fl from_str s expected) (sym e) tt)
      by_state closed_session e = tt
      by_state session_error e = tt
  on_arm-After R t now (meanwhile f) fits =
      aside-Keeps t (f t.world) t.counters t.sender (fits t.world)

  pub send_loop-After :
      (R : Task F → Type 0) (t : Task F) (turns : List (ℕ × Arm F T))
      → All ArmFits turns
      → After (Kept t) R (send_loop fl from_str s t turns)
  unfolding send_loop
  send_loop-After R t [] fits = tt
  send_loop-After R t ((now, arm) ∷ rest) fits =
      elim (ltb now s.end_at)
        as (λ b. After (Kept t) R (elim b [
          | true ↦ and_then (on_arm fl from_str s t arm) (λ u. send_loop fl from_str s u rest)
          | false ↦ (t, none)
        ])) [
          | true ↦
              and_then-After (Kept t) R (Kept t) (on_arm fl from_str s t arm)
                (λ u. send_loop fl from_str s u rest) (on_arm-After R t now arm fits.0)
                (λ u k.
                  After-map (Kept t) R (Kept u) R (send_loop fl from_str s u rest)
                    (λ v l. Keeps-trans fl from_str s expected k l) (λ v r. r)
                    (send_loop-After R u rest fits.1))
          | false ↦ aside-Keeps t t.world t.counters t.sender (Grows-refl fl from_str t.world)
        ]

  -- The session has ended well: its tail was checked, after what it kept.
  abbrev pub Final : Task F → Task F → Type 0
  Final t u = (v : Task F) × Kept t v × (u ≡ checked fl from_str s v)

  pub close_loop-After :
      (t : Task F) (arms : List (ClosingArm F T))
      → All ClosingFits arms
      → After (λ u. Unit) (Final t) (close_loop fl from_str s t arms)
  unfolding close_loop
  close_loop-After t [] fits = tt
  close_loop-After t (late_message a ∷ rest) fits =
      by_state (handled fl from_str s t a).state refl (λ k.
        After-map (λ u. Unit) (Final t) (λ u. Unit) (Final (next a))
          (close_loop fl from_str s (next a) rest) (λ v l. tt)
          (λ v (x, l, e). (x, Keeps-trans fl from_str s expected k l, e))
          (close_loop-After (next a) rest fits.1))
    where
      next : Arrival T → Task F
      next a = received fl from_str s t a (handled fl from_str s t a)

      by_state :
          (st : InboundState)
          → (handled fl from_str s t a).state ≡ st
          → (Kept t (next a) → After (λ u. Unit) (Final t) (close_loop fl from_str s (next a) rest))
          → After
              (λ u. Unit)
              (Final t)
              (on_late fl from_str s st (next a) (λ u. close_loop fl from_str s u rest))
      by_state open_session e more = more (
          received-Keeps fl from_str s expected t a
            (subst (Runs fl from_str s expected) (sym e) tt))
      by_state closed_session e more = (
        next a,
        received-Keeps fl from_str s expected t a (subst (Runs fl from_str s expected) (sym e) tt),
        refl,
      )
      by_state session_error e more = tt
  close_loop-After t (grace_over ∷ rest) fits = tt
  close_loop-After t (elsewhere f ∷ rest) fits =
      After-map (λ u. Unit) (Final t) (λ u. Unit) (Final (record t { world = f t.world }))
        (close_loop fl from_str s (record t { world = f t.world }) rest) (λ v l. tt)
        (λ v (x, l, e). (
          x,
          Keeps-trans fl from_str s expected
              (aside-Keeps t (f t.world) t.counters t.sender (fits.0 t.world)) l,
          e,
        ))
        (close_loop-After (record t { world = f t.world }) rest fits.1)
