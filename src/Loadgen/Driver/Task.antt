-- ===== src/Loadgen/Driver/Task.antt =====
-- loadgen/rust/src/main.rs: `run_session`, the task of one session. Which arm of a `select!` is taken, and
-- what it meets, comes as a list; where a list ends, the deadline of the whole session cuts the task off.
-- Between its steps other sessions and the verifier change the shared state. `heard` is no variable of
-- the task: it lists the responses that were read, each with whether this was in the measured window. The texts of errors are left out.
pub mod Effects
mod Run
mod Loops
pub mod Covered
pub mod Counted
mod Tests
use websocket_stt_bench.Common.{
  ℕ, Bool, true, false, Option, none, some, List, [], ◌∷◌, ◌++◌, ltb, if◌then◌else◌, Result, ok,
  err,
}
use websocket_stt_bench.Common.Float.{Float64}
use websocket_stt_bench.Loadgen.Protocol.{ServerMessage}
use websocket_stt_bench.Loadgen.Driver.Outcomes.{
  TimeoutKind, connect_timeout, send_timeout, close_timeout, TimeoutCounters, increment, Failure,
  timed_out, other_error, SessionEnd, finished, failed, deadline_elapsed, Timed, timed,
}
use websocket_stt_bench.Loadgen.Driver.Receive.{
  World, SessionCheck, new_check, Inbound, text_message, Arrival, InboundState, open_session,
  closed_session, session_error, measured, Session, Handled, process_inbound, check_session_tail,
}
use websocket_stt_bench.Loadgen.Driver.Send.{Sender, new_sender, send_frame}

-- The shared state and counters, and the locals of the task.
pub record Task (F : Type 0) : Type 0 where
  pub world : World F
  pub counters : TimeoutCounters
  pub check : SessionCheck
  pub sender : Sender
  pub heard : List (Bool × ServerMessage F)

-- The arms of the send loop, and what other tasks do meanwhile.
pub data Arm (F T : Type 0) : Type 0 where
  tick : (woke sent_at : ℕ) → Option (Timed (Unit {0})) → Arm F T
  message : Arrival T → Arm F T
  meanwhile : (World F → World F) → Arm F T

-- The arms of the closing loop.
pub data ClosingArm (F T : Type 0) : Type 0 where
  late_message : Arrival T → ClosingArm F T
  grace_over : ClosingArm F T
  elsewhere : (World F → World F) → ClosingArm F T

-- What a session meets: the ends of its futures, the instant at which its send loop starts, and the turns
-- of its loops, those of the first with the instant at which the loop's test is made.
pub record Script (F T : Type 0) : Type 0 where
  pub connect : Option (Timed (Unit {0}))
  pub send_start : Option (Timed (Unit {0}))
  pub loop_start : ℕ
  pub turns : List (ℕ × Arm F T)
  pub send_close : Option (Timed (Unit {0}))
  pub closing : List (ClosingArm F T)

abbrev pub start_task : {F : Type 0} → World F → TimeoutCounters → ℕ → Task F
start_task w counters loop_start = record {
  world = w;
  counters = counters;
  check = new_check;
  sender = new_sender loop_start;
  heard = [];
}

abbrev pub ended_by : InboundState → Option SessionEnd
ended_by open_session = none
ended_by closed_session = some (failed (other_error "websocket closed before send loop finished"))
ended_by session_error = some (failed (other_error "read websocket message"))

module _ {F T : Type 0} (from_str : T → Option (ServerMessage F)) where
  abbrev pub heard_text :
      Option (ServerMessage F)
      → Bool
      → List (Bool × ServerMessage F)
      → List (Bool × ServerMessage F)
  heard_text none b ms = ms
  heard_text (some m) b ms = ms ++ (b, m) ∷ []

  abbrev pub hear : Inbound T → Bool → List (Bool × ServerMessage F) → List (Bool × ServerMessage F)
  hear (text_message t) b ms = heard_text (from_str t) b ms
  hear _ b ms = ms

-- `timed(..).await?`; without an end of its future the task is cut off here.
abbrev pub after_timed :
    {F : Type 0}
    → TimeoutCounters × Result (Unit {0}) Failure
    → Task F
    → (Task F → Task F × Option SessionEnd)
    → Task F × Option SessionEnd
after_timed (counters, ok u) t k = k (record t { counters = counters })
after_timed (counters, err f) t k = (record t { counters = counters }, some (failed f))

unfoldable pub await_timed :
    {F : Type 0}
    → TimeoutKind
    → Option (Timed (Unit {0}))
    → Task F
    → (Task F → Task F × Option SessionEnd)
    → Task F × Option SessionEnd
unfolding timed
await_timed kind none t k = (t, some deadline_elapsed)
await_timed kind (some future) t k = after_timed (timed t.counters kind future) t k

-- A loop that has left its body for good, or goes on.
abbrev pub and_then :
    {F : Type 0}
    → Task F × Option SessionEnd
    → (Task F → Task F × Option SessionEnd)
    → Task F × Option SessionEnd
and_then (t, none) k = k t
and_then (t, some e) k = (t, some e)

module _ {F T : Type 0} (fl : Float64 F) (from_str : T → Option (ServerMessage F))
    (s : Session) where
  unfoldable pub handled : Task F → Arrival T → Handled F
  unfolding process_inbound
  handled t a = process_inbound fl from_str s t.world t.check t.sender.sent_times a

  abbrev pub received : Task F → Arrival T → Handled F → Task F
  received t a h = record t {
    world = h.world;
    check = h.check;
    heard = hear from_str a.message (measured s a.now) t.heard;
  }

  -- One turn of the send loop.
  unfoldable pub on_arm : Task F → Arm F T → Task F × Option SessionEnd
  unfolding await_timed handled send_frame
  on_arm t (tick woke sent_at sent) =
      await_timed send_timeout sent t
        λ u. (record u { sender = send_frame s.id s.measure_start woke sent_at u.sender }, none)
  on_arm t (message a) = let h = handled t a in (received t a h, ended_by h.state)
  on_arm t (meanwhile f) = (record t { world = f t.world }, none)

  unfoldable pub send_loop : Task F → List (ℕ × Arm F T) → Task F × Option SessionEnd
  unfolding on_arm
  send_loop t [] = (t, some deadline_elapsed)
  send_loop t ((now, arm) ∷ rest) = elim (ltb now s.end_at) [
    | true ↦ and_then (on_arm t arm) (λ u. send_loop u rest)
    | false ↦ (t, none)
  ]

  abbrev pub checked : Task F → Task F
  checked t = record t {
    world = record t.world {
      correctness = check_session_tail s t.sender.sent_times t.check t.world.correctness;
    };
  }

  abbrev pub on_late :
      InboundState → Task F → (Task F → Task F × Option SessionEnd) → Task F × Option SessionEnd
  on_late open_session t k = k t
  on_late closed_session t k = (checked t, some finished)
  on_late session_error t k = (t, some (failed (other_error "read websocket message")))

  -- The loop that waits for the close, and the check of the tail behind it.
  unfoldable pub close_loop : Task F → List (ClosingArm F T) → Task F × Option SessionEnd
  unfolding handled increment check_session_tail
  close_loop t [] = (t, some deadline_elapsed)
  close_loop t (late_message a ∷ rest) =
      let h = handled t a in on_late h.state (received t a h) (λ u. close_loop u rest)
  close_loop t (grace_over ∷ rest) = (
    record t { counters = increment t.counters close_timeout },
    some (failed (timed_out close_timeout)),
  )
  close_loop t (elsewhere f ∷ rest) = close_loop (record t { world = f t.world }) rest

  unfoldable pub run_session : World F → TimeoutCounters → Script F T → Task F × Option SessionEnd
  unfolding await_timed send_loop close_loop
  run_session w counters sc =
      await_timed connect_timeout sc.connect (start_task w counters sc.loop_start) λ t.
        await_timed send_timeout sc.send_start t λ u.
          and_then (send_loop u sc.turns)
            λ v. await_timed send_timeout sc.send_close v (λ x. close_loop x sc.closing)
