-- ===== src/Gateway/Round/Ends.antt =====
-- services/rust-sync/src/main.rs: the loop over the due timers ends.
use websocket_stt_bench.Common.{
  ℕ, zero, suc, ◌+◌, ◌≤◌, ◌<◌, ◌≡◌, refl, sym, ap, subst, arith, true, false, Option, none, some,
  List, [], ◌∷◌, ltb, leb, ltb→lt, ◌==◌, ==_iff, if◌then◌else◌, if_cases, Bool-cases, inl, inr,
}
use websocket_stt_bench.Common.Float.{Float64}
use websocket_stt_bench.Gateway.Config.{Config}
use websocket_stt_bench.Gateway.Protocol.{Json}
use websocket_stt_bench.Gateway.Session.{Conn, Outcome, keep, close, Flush, deadline}
use websocket_stt_bench.Gateway.Session.Cases.{clock}
use websocket_stt_bench.Gateway.Inference.{Cmd}
use websocket_stt_bench.Gateway.Tick.{tick_conn}
use websocket_stt_bench.Gateway.Round.{
  Turn, pop_min, find, put, advance, fire, take_timer, run_timers, owed, owed_by, work,
}
use websocket_stt_bench.Gateway.Round.Clocks.{Calms, deadline-clock, tick_conn-Calms}
use websocket_stt_bench.Gateway.Round.Heap.{
  Picked, here, there, AllFrom, AllFrom-le, Least, pop_min-Least, find-put, find-put_self,
}

module _ {F T : Type 0} where
  work_mono :
      (cs ds : List (ℕ × Conn F T)) (ts : List (ℕ × ℕ)) (now : ℕ)
      → ((i : ℕ) → owed_by (find i ds) now ≤ owed_by (find i cs) now)
      → work ds ts now ≤ work cs ts now
  unfolding work
  work_mono cs ds [] now h = omega arith
  work_mono cs ds ((t, i) ∷ ts) now h =
      elim (leb t now)
        as (λ b.
          (if b then suc (owed_by (find i ds) now) else 0) + work ds ts now
          ≤ (if b then suc (owed_by (find i cs) now) else 0) + work cs ts now) [
            | true ↦ omega (arith, h i, work_mono cs ds ts now h)
            | false ↦ omega (arith, work_mono cs ds ts now h)
          ]

  work-Picked :
      (cs : List (ℕ × Conn F T)) {e : ℕ × ℕ} {ys zs : List (ℕ × ℕ)} (now : ℕ)
      → Picked e ys zs
      → e.0 ≤ now
      → work cs ys now ≡ suc (owed_by (find e.1 cs) now) + work cs zs now
  unfolding work
  work-Picked cs {e = e} now here h = ground (arith, h)
  work-Picked cs now (there {x = x} p) h = omega (arith, work-Picked cs now p h)

  put-owed :
      (id : ℕ) (c d : Conn F T) (cs : List (ℕ × Conn F T)) (now : ℕ)
      → find id cs ≡ some d
      → owed c now ≤ owed d now
      → (i : ℕ) → owed_by (find i (put id c cs)) now ≤ owed_by (find i cs) now
  put-owed id c d cs now e h i = rw (find-put i id c d cs e) (
      if_cases (λ o. owed_by o now ≤ owed_by (find i cs) now) (id == i)
        (λ on. subst (λ k. owed c now ≤ owed_by (find k cs) now) ((==_iff id i).0 on) (rw e h))
        (λ off. omega arith))

  advance-work :
      (o : Outcome) (t : Turn F T) (id : ℕ) (c d : Conn F T) (cmds : List Cmd) (now : ℕ)
      → find id t.loop.conns ≡ some d
      → Calms now (clock d) (clock c)
      → let l = (advance o t id c cmds).loop in
        work l.conns l.timers now ≤ owed d now + work t.loop.conns t.loop.timers now
  unfolding work
  advance-work keep t id c d cmds now e calm =
      let rest =
        work_mono t.loop.conns (put id c t.loop.conns) t.loop.timers now
          (put-owed id c d t.loop.conns now e calm.0) in
      if_cases
        (λ (n : ℕ).
          n + work (put id c t.loop.conns) t.loop.timers now
          ≤ owed d now + work t.loop.conns t.loop.timers now)
        (leb (deadline c) now)
        (λ on.
          rw (find-put_self id c d t.loop.conns e)
            (omega (arith, rest, calm.1 (rw (sym (deadline-clock c)) (ground (arith, on))))))
        (λ off. omega (arith, rest))
  advance-work close t id c d cmds now e calm = omega (
    arith,
    work_mono t.loop.conns (put id c t.loop.conns) t.loop.timers now
        (put-owed id c d t.loop.conns now e calm.0),
  )

module _ {F T : Type 0} (fl : Float64 F) (json : Json F T) (config : Config)
    (pos : 0 < config.flush_interval) where
  -- A timer that is due is taken from the heap, or leaves less to do.
  fire-work :
      (o : Option (Conn F T)) (t : Turn F T) (e : ℕ × ℕ) (others : List (ℕ × ℕ)) (now : ℕ)
      (flushes : ℕ → Flush)
      → find e.1 t.loop.conns ≡ o
      → Picked e t.loop.timers others
      → e.0 ≤ now
      → let l =
          (fire fl json config o
            (record t { loop = record t.loop { timers = others } })
            e.1
            now
            flushes).loop in
        work l.conns l.timers now < work t.loop.conns t.loop.timers now
  fire-work none t e others now flushes found p h = omega (arith, work-Picked t.loop.conns now p h)
  fire-work (some c) t e others now flushes found p h =
      let a = tick_conn fl json config c now (flushes e.1) in
      omega (
        arith,
        advance-work a.outcome (record t { loop = record t.loop { timers = others } }) e.1 a.conn c
            a.cmds now found (tick_conn-Calms fl json config c now (flushes e.1) pos),
        work-Picked t.loop.conns now p h,
        ap (λ o. owed_by o now) found,
      )

  -- The loop has ended: no timer is due any more, and `P` holds.
  abbrev pub Ended : (Turn F T → Type 0) → ℕ → Option (Turn F T) → Type 0
  Ended P now o = (t' : Turn F T) × (o ≡ some t') × P t' × AllFrom (now + 1) t'.loop.timers

  module _ (P : Turn F T → Type 0) (now : ℕ) (flushes : ℕ → Flush)
      (keeps : (t : Turn F T) (e : ℕ × ℕ) (others : List (ℕ × ℕ))
        → Picked e t.loop.timers others
        → P t
        → P (take_timer fl json config t e.1 others now flushes)) where
    turn_ends :
        (fuel : ℕ) (t : Turn F T) (o : Option ((ℕ × ℕ) × List (ℕ × ℕ)))
        → ((t' : Turn F T)
            → work t'.loop.conns t'.loop.timers now < fuel
            → P t'
            → Ended P now (run_timers fl json config fuel t' now flushes))
        → work t.loop.conns t.loop.timers now < suc fuel
        → P t
        → Least t.loop.timers o
        → Ended P now (elim o [
          | none ↦ some t
          | some (e, others) ↦ elim (ltb now e.0) [
            | true ↦ some t
            | false ↦
                run_timers fl json config fuel
                  (take_timer fl json config t e.1 others now flushes)
                  now
                  flushes
          ]
        ])
    turn_ends fuel t none again h v empty = (t, refl, v, subst (AllFrom (now + 1)) (sym empty) tt)
    turn_ends fuel t (some (e, others)) again h v (p, least) = elim (Bool-cases (ltb now e.0)) [
      | inl later ↦ rw later (
        t,
        refl,
        v,
        AllFrom-le (now + 1) e.0 t.loop.timers (omega (arith, ltb→lt now e.0 later)) least,
      )
      | inr due ↦
          let less =
            fire-work (find e.1 t.loop.conns) t e others now flushes refl p (ground (arith, due)) in
          rw due (
            again (take_timer fl json config t e.1 others now flushes) (omega (arith, h, less))
              (keeps t e others p v))
    ]

    -- With enough fuel the loop ends, and what each firing keeps holds.
    pub run_timers_rule :
        (fuel : ℕ) (t : Turn F T)
        → work t.loop.conns t.loop.timers now < fuel
        → P t
        → Ended P now (run_timers fl json config fuel t now flushes)
    unfolding run_timers
    run_timers_rule zero t h v = absurd (omega (arith, h))
    run_timers_rule (suc fuel) t h v =
        turn_ends fuel t (pop_min t.loop.timers) (λ t' b u. run_timers_rule fuel t' b u) h v
          (pop_min-Least t.loop.timers)
