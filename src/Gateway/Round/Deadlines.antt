-- ===== src/Gateway/Round/Deadlines.antt =====
-- services/rust-sync/src/main.rs: the rounds of the loop end, and the loop wakes for every deadline.
use websocket_stt_bench.Common.{
  ℕ, suc, ◌+◌, ◌-◌, ◌≤◌, ◌<◌, ◌≡◌, refl, sym, subst, arith, Option, none, some, List, [], ◌∷◌, ◌++◌,
  min,
}
use websocket_stt_bench.Common.Float.{Float64}
use websocket_stt_bench.Gateway.Config.{Config}
use websocket_stt_bench.Gateway.Protocol.{Json}
use websocket_stt_bench.Gateway.Inference.{Cmd}
use websocket_stt_bench.Gateway.Session.{Conn, Flush, Io, on_done, on_ready, deadline}
use websocket_stt_bench.Gateway.Tick.{tick_conn}
use websocket_stt_bench.Gateway.Loop.{Loop, new_loop}
use websocket_stt_bench.Gateway.Round.{
  idle_cap, poll_timeout, pop_min, Turn, Done, Wake, listening, results, socket, Round, find,
  close_conns, on_result, drain_results, on_socket, on_wake, on_wakes, fire, work, round, rounds,
}
use websocket_stt_bench.Gateway.Round.Clocks.{on_ready-deadline, on_done-deadline}
use websocket_stt_bench.Gateway.Round.Heap.{Picked, AllFrom, Least, pop_min-Least, times}
use websocket_stt_bench.Gateway.Round.Ends.{run_timers_rule}
use websocket_stt_bench.Gateway.Round.Timers.{
  HasTimer, IsTimed, new_loop-IsTimed, accept-IsTimed, settle-IsTimed, advance-IsTimed,
  forget-IsTimed, close_conns-IsTimed, close_conns-timers,
}

AllFrom-times : (m i t : ℕ) (ys : List (ℕ × ℕ)) → AllFrom m ys → times i ys ≡ t ∷ [] → m ≤ t
AllFrom-times m i t [] a h = cc
AllFrom-times m i t (y ∷ ys) a h = ground (arith, a, h, AllFrom-times m i t ys)

Least-times :
    (i t now : ℕ) (ys : List (ℕ × ℕ)) (o : Option ((ℕ × ℕ) × List (ℕ × ℕ)))
    → Least ys o
    → times i ys ≡ t ∷ []
    → elim o [ none ↦ idle_cap | some (e, rest) ↦ min (e.0 - now) idle_cap ] ≤ t - now
Least-times i t now ys none empty h = cc (subst (λ zs. times i zs ≡ t ∷ []) empty h)
Least-times i t now ys (some (e, rest)) (p, least) h =
    omega (arith, AllFrom-times e.0 i t ys least h)

-- The loop sleeps no longer than until the timer of any connection.
poll_timeout-times :
    (i t now : ℕ) (ys : List (ℕ × ℕ)) → times i ys ≡ t ∷ [] → poll_timeout ys now ≤ t - now
unfolding poll_timeout
poll_timeout-times i t now ys h = Least-times i t now ys (pop_min ys) (pop_min-Least ys) h

module _ {F T : Type 0} (fl : Float64 F) (json : Json F T) (config : Config) where
  on_result-IsTimed :
      (o : Option (Conn F T)) (t : Turn F T) (d : Done F)
      → find d.owner t.loop.conns ≡ o
      → IsTimed t.closing t.loop
      → IsTimed (on_result fl json config o t d).closing (on_result fl json config o t d).loop
  on_result-IsTimed none t d e v = v
  on_result-IsTimed (some c) t d e v =
      let r = on_done fl json c d.tag d.result d.now config d.flush in
      settle-IsTimed t d.owner c r.0 r.1 e
        (on_done-deadline fl json config c d.tag d.result d.now d.flush) v

  drain_results-IsTimed :
      (t : Turn F T) (ds : List (Done F))
      → IsTimed t.closing t.loop
      → IsTimed (drain_results fl json config t ds).closing (drain_results fl json config t ds).loop
  unfolding drain_results
  drain_results-IsTimed t [] v = v
  drain_results-IsTimed t (d ∷ rest) v =
      drain_results-IsTimed (on_result fl json config (find d.owner t.loop.conns) t d) rest
        (on_result-IsTimed (find d.owner t.loop.conns) t d refl v)

  on_socket-IsTimed :
      (o : Option (Conn F T)) (t : Turn F T) (id : ℕ) (can_read can_write : _) (io : Io)
      → find id t.loop.conns ≡ o
      → IsTimed t.closing t.loop
      → let t' = on_socket fl json config o t id can_read can_write io in IsTimed t'.closing t'.loop
  on_socket-IsTimed none t id can_read can_write io e v = v
  on_socket-IsTimed (some c) t id can_read can_write io e v =
      let r = on_ready json.is_start c can_read can_write io in
      settle-IsTimed t id c r.0 r.1 e
        (omega (arith, on_ready-deadline json.is_start c can_read can_write io)) v

  on_wake-IsTimed :
      (t : Turn F T) (w : Wake F)
      → IsTimed t.closing t.loop
      → IsTimed (on_wake fl json config t w).closing (on_wake fl json config t w).loop
  unfolding on_wake
  on_wake-IsTimed t (listening streams) v = accept-IsTimed t.closing t.loop streams config v
  on_wake-IsTimed t (results ds) v = drain_results-IsTimed t ds v
  on_wake-IsTimed t (socket id can_read can_write io) v =
      on_socket-IsTimed (find id t.loop.conns) t id can_read can_write io refl v

  on_wakes-IsTimed :
      (t : Turn F T) (ws : List (Wake F))
      → IsTimed t.closing t.loop
      → IsTimed (on_wakes fl json config t ws).closing (on_wakes fl json config t ws).loop
  unfolding on_wakes
  on_wakes-IsTimed t [] v = v
  on_wakes-IsTimed t (w ∷ rest) v =
      on_wakes-IsTimed (on_wake fl json config t w) rest (on_wake-IsTimed t w v)

  fire-IsTimed :
      (o : Option (Conn F T)) (t : Turn F T) (e : ℕ × ℕ) (others : List (ℕ × ℕ)) (now : ℕ)
      (flushes : ℕ → Flush)
      → find e.1 t.loop.conns ≡ o
      → Picked e t.loop.timers others
      → IsTimed t.closing t.loop
      → let t' =
          fire fl json config o
            (record t { loop = record t.loop { timers = others } })
            e.1
            now
            flushes in
        IsTimed t'.closing t'.loop
  fire-IsTimed none t e others now flushes found p v = forget-IsTimed t e others found p v
  fire-IsTimed (some c) t e others now flushes found p v =
      let a = tick_conn fl json config c now (flushes e.1) in
      advance-IsTimed a.outcome t e others c a.conn a.cmds found p v

  module _ (pos : 0 < config.flush_interval) where
    -- A round ends, keeps the timers, and leaves no deadline at or before its instant.
    round-IsTimed :
        (l : Loop F T) (r : Round F)
        → IsTimed [] l
        → (l' : Loop F T) × (cmds : List Cmd) × (round fl json config l r ≡ some (l', cmds))
          × IsTimed [] l'
          × AllFrom (r.now + 1) l'.timers
    unfolding round
    round-IsTimed l r v =
        let start =
          on_wakes fl json config (record { loop = l; closing = []; cmds = [] }) r.wakes in
        let (t, ends, kept, later) =
          run_timers_rule fl json config pos (λ t. IsTimed t.closing t.loop) r.now r.flushes
            (λ t e others p u.
              fire-IsTimed (find e.1 t.loop.conns) t e others r.now r.flushes refl p u)
            (suc (work start.loop.conns start.loop.timers r.now)) start (omega arith)
            (on_wakes-IsTimed (record { loop = l; closing = []; cmds = [] }) r.wakes v) in
        (
          (close_conns t.loop t.closing).0,
          t.cmds ++ (close_conns t.loop t.closing).1,
          rw ends refl,
          close_conns-IsTimed t.loop t.closing kept,
          subst (AllFrom (r.now + 1)) (sym (close_conns-timers t.loop t.closing)) later,
        )

    rounds-IsTimed :
        (l : Loop F T) (rs : List (Round F))
        → IsTimed [] l
        → (l' : Loop F T) × (rounds fl json config l rs ≡ some l') × IsTimed [] l'
    unfolding rounds
    rounds-IsTimed l [] v = (l, refl, v)
    rounds-IsTimed l (r ∷ rest) v =
        let (l', cmds, e, v', later) = round-IsTimed l r v in
        let (l'', e', v'') = rounds-IsTimed l' rest v' in (l'', rw e e', v'')

-- If the flush interval is not zero: after any rounds from the start of the loop, each of which ends,
-- every connection has one timer, not later than its deadline, and the next `poll` returns no later than
-- that deadline, whenever it is called.
pub rounds_wake_in_time :
    {F T : Type 0} (fl : Float64 F) (json : Json F T) (config : Config)
    → 0 < config.flush_interval
    → (rs : List (Round F))
    → (l : Loop F T) × (rounds fl json config new_loop rs ≡ some l)
      × ((i : ℕ) (c : Conn F T) (now : ℕ)
          → find i l.conns ≡ some c
          → HasTimer l i c × (poll_timeout l.timers now ≤ deadline c - now))
rounds_wake_in_time fl json config pos rs =
    let (l, e, v) = rounds-IsTimed fl json config pos new_loop rs new_loop-IsTimed in
    (
      l,
      e,
      λ i c now f.
          let (t, own, due) = v.timed i c f refl in
          ((t, own, due), omega (arith, due, poll_timeout-times i t now l.timers own)),
    )
