-- ===== src/Gateway/Round.antt =====
-- services/rust-sync/src/main.rs: a whole round of the loop. The map of connections is an association
-- list and the timer heap a list, of which `pop_min` takes the least entry. What `poll` reports, what
-- accepting, reading and writing give, and how the flush after a local timeout ends, come with the round.
mod Clocks
mod Heap
mod Ends
mod Timers
pub mod Deadlines
mod Tests
use websocket_stt_bench.Common.{
  ℕ, zero, suc, ◌+◌, ◌-◌, min, Bool, true, false, ◌&&◌, ◌||◌, Option, none, some, List, [], ◌∷◌,
  ◌++◌, ltb, leb, ◌==◌, if◌then◌else◌, Result,
}
use websocket_stt_bench.Common.Float.{Float64}
use websocket_stt_bench.Gateway.Config.{Config, inference_timeout}
use websocket_stt_bench.Gateway.Protocol.{InferResponse, Json}
use websocket_stt_bench.Gateway.Inference.{Cmd, abort, InferError}
use websocket_stt_bench.Gateway.Session.{
  Pending, Conn, Outcome, keep, close, Flush, Io, deadline, has_pending, on_done, on_ready,
}
use websocket_stt_bench.Gateway.Tick.{Advanced, tick_conn}
use websocket_stt_bench.Gateway.Loop.{Loop, Accepted, accept, without}

-- `IDLE_CAP`
abbrev pub idle_cap : ℕ
idle_cap = 1000000000

-- What the inference thread has sent, with the instant and the flush of its delivery.
pub record Done (F : Type 0) : Type 0 where
  pub owner : ℕ
  pub tag : ℕ
  pub result : Result (InferResponse F) (InferError F)
  pub now : ℕ
  pub flush : Flush

-- An event of `poll`, by the source that its token decodes to.
pub data Wake (F : Type 0) : Type 0 where
  listening : List Accepted → Wake F
  results : List (Done F) → Wake F
  socket : (id : ℕ) (can_read can_write : Bool) → Io → Wake F

-- The locals of a round: the state of the loop, `closing`, and the commands to the inference thread.
pub record Turn (F T : Type 0) : Type 0 where
  pub loop : Loop F T
  pub closing : List ℕ
  pub cmds : List Cmd

pub record Round (F : Type 0) : Type 0 where
  pub wakes : List (Wake F)
  pub now : ℕ
  pub flushes : ℕ → Flush

abbrev earlier : ℕ × ℕ → ℕ × ℕ → Bool
earlier (t, i) (u, j) = ltb t u || (t == u && ltb i j)

abbrev pub pick_min :
    ℕ × ℕ → List (ℕ × ℕ) → Option ((ℕ × ℕ) × List (ℕ × ℕ)) → Option ((ℕ × ℕ) × List (ℕ × ℕ))
pick_min e r none = some (e, r)
pick_min e r (some (m, others)) = if earlier m e then some (m, e ∷ others) else some (e, r)

-- `BinaryHeap<Reverse<_>>`: `peek` shows the entry that `pop` takes.
unfoldable pub pop_min : List (ℕ × ℕ) → Option ((ℕ × ℕ) × List (ℕ × ℕ))
pop_min [] = none
pop_min (e ∷ r) = pick_min e r (pop_min r)

-- The timeout of `poll`.
unfoldable pub poll_timeout : List (ℕ × ℕ) → ℕ → ℕ
unfolding pop_min
poll_timeout timers now = elim (pop_min timers) [
  | none ↦ idle_cap
  | some (e, rest) ↦ min (e.0 - now) idle_cap
]

abbrev pub closing_with : Outcome → ℕ → List ℕ → List ℕ
closing_with keep id ids = ids
closing_with close id ids = ids ++ id ∷ []

module _ {F T : Type 0} where
  unfoldable pub find : ℕ → List (ℕ × Conn F T) → Option (Conn F T)
  find id [] = none
  find id ((i, c) ∷ rest) = let others = find id rest in if i == id then some c else others

  -- A write through `get_mut`.
  unfoldable pub put : ℕ → Conn F T → List (ℕ × Conn F T) → List (ℕ × Conn F T)
  put id c [] = []
  put id c ((i, d) ∷ rest) =
      let others = put id c rest in if i == id then (i, c) ∷ rest else (i, d) ∷ others

  unfoldable pub settle : Turn F T → ℕ → Conn F T × Outcome → Turn F T
  unfolding put
  settle t id (c, o) = record t {
    loop = record t.loop { conns = put id c t.loop.conns };
    closing = closing_with o id t.closing;
  }

  abbrev pub advance : Outcome → Turn F T → ℕ → Conn F T → List Cmd → Turn F T
  advance keep t id c cmds = record t {
    loop = record t.loop {
      conns = put id c t.loop.conns;
      timers = (deadline c, id) ∷ t.loop.timers;
    };
    cmds = t.cmds ++ cmds;
  }
  advance close t id c cmds = record {
    loop = record t.loop { conns = put id c t.loop.conns };
    closing = t.closing ++ id ∷ [];
    cmds = t.cmds ++ cmds;
  }

  -- The last loop of a round: a connection with a batch in flight is aborted and forgotten.
  abbrev pub drop_conn : Option (Conn F T) → ℕ → Loop F T → Loop F T × List Cmd
  drop_conn none id l = (l, [])
  drop_conn (some c) id l =
      (record l { conns = without id l.conns }, if has_pending c then abort id ∷ [] else [])

  unfoldable pub close_conns : Loop F T → List ℕ → Loop F T × List Cmd
  unfolding find without
  close_conns l [] = (l, [])
  close_conns l (id ∷ rest) =
      let (l', first) = drop_conn (find id l.conns) id l in
      let (l'', cmds) = close_conns l' rest in (l'', first ++ cmds)

module _ {F T : Type 0} (fl : Float64 F) (json : Json F T) (config : Config) where
  abbrev pub on_result : Option (Conn F T) → Turn F T → Done F → Turn F T
  on_result none t d = t
  on_result (some c) t d = settle t d.owner (on_done fl json c d.tag d.result d.now config d.flush)

  unfoldable pub drain_results : Turn F T → List (Done F) → Turn F T
  unfolding find settle
  drain_results t [] = t
  drain_results t (d ∷ rest) = drain_results (on_result (find d.owner t.loop.conns) t d) rest

  abbrev pub on_socket : Option (Conn F T) → Turn F T → ℕ → Bool → Bool → Io → Turn F T
  on_socket none t id can_read can_write io = t
  on_socket (some c) t id can_read can_write io =
      settle t id (on_ready json.is_start c can_read can_write io)

  unfoldable pub on_wake : Turn F T → Wake F → Turn F T
  unfolding drain_results find settle
  on_wake t (listening streams) = record t { loop = accept t.loop streams config }
  on_wake t (results ds) = drain_results t ds
  on_wake t (socket id can_read can_write io) =
      on_socket (find id t.loop.conns) t id can_read can_write io

  unfoldable pub on_wakes : Turn F T → List (Wake F) → Turn F T
  unfolding on_wake
  on_wakes t [] = t
  on_wakes t (w ∷ rest) = on_wakes (on_wake t w) rest

  -- A timer that is due, taken from the heap.
  abbrev pub fire : Option (Conn F T) → Turn F T → ℕ → ℕ → (ℕ → Flush) → Turn F T
  fire none t id now flushes = t
  fire (some c) t id now flushes =
      let a = tick_conn fl json config c now (flushes id) in advance a.outcome t id a.conn a.cmds

  abbrev pub take_timer : Turn F T → ℕ → List (ℕ × ℕ) → ℕ → (ℕ → Flush) → Turn F T
  take_timer t id others now flushes =
      fire (find id t.loop.conns) (record t { loop = record t.loop { timers = others } }) id now
        flushes

  -- The `while let` over the due timers; `none` means that the fuel ran out.
  unfoldable pub run_timers : ℕ → Turn F T → ℕ → (ℕ → Flush) → Option (Turn F T)
  unfolding pop_min find put tick_conn
  run_timers zero t now flushes = none
  run_timers (suc fuel) t now flushes = elim (pop_min t.loop.timers) [
    | none ↦ some t
    | some (e, others) ↦ elim (ltb now e.0) [
      | true ↦ some t
      | false ↦ run_timers fuel (take_timer t e.1 others now flushes) now flushes
    ]
  ]

-- The fuel: how often the timers of a connection can be due at one instant, over all entries.
abbrev pub overdue : {F : Type 0} → Option (Pending F) → ℕ → ℕ
overdue none now = 0
overdue (some p) now = if leb (p.started + inference_timeout) now then 1 else 0

abbrev pub owed : {F T : Type 0} → Conn F T → ℕ → ℕ
owed c now = (now + 1 - c.next_flush) + overdue c.pending now

abbrev pub owed_by : {F T : Type 0} → Option (Conn F T) → ℕ → ℕ
owed_by none now = 0
owed_by (some c) now = owed c now

unfoldable pub work : {F T : Type 0} → List (ℕ × Conn F T) → List (ℕ × ℕ) → ℕ → ℕ
unfolding find
work conns [] now = 0
work conns ((t, i) ∷ rest) now =
    (if leb t now then suc (owed_by (find i conns) now) else 0) + work conns rest now

module _ {F T : Type 0} (fl : Float64 F) (json : Json F T) (config : Config) where
  abbrev pub fire_timers : Turn F T → ℕ → (ℕ → Flush) → Option (Turn F T)
  fire_timers t now flushes =
      run_timers fl json config (suc (work t.loop.conns t.loop.timers now)) t now flushes

  abbrev pub close_round : Option (Turn F T) → Option (Loop F T × List Cmd)
  close_round none = none
  close_round (some t) = let (l, cmds) = close_conns t.loop t.closing in some (l, t.cmds ++ cmds)

  -- One round of the loop of `main`, after `poll`.
  unfoldable pub round : Loop F T → Round F → Option (Loop F T × List Cmd)
  unfolding on_wakes run_timers work close_conns
  round l r = close_round (
      fire_timers (on_wakes fl json config (record { loop = l; closing = []; cmds = [] }) r.wakes)
        r.now r.flushes)

  abbrev pub then_rounds :
      Option (Loop F T × List Cmd) → (Loop F T → Option (Loop F T)) → Option (Loop F T)
  then_rounds none k = none
  then_rounds (some (l, cmds)) k = k l

  unfoldable pub rounds : Loop F T → List (Round F) → Option (Loop F T)
  unfolding round
  rounds l [] = some l
  rounds l (r ∷ rest) = then_rounds (round l r) (λ l'. rounds l' rest)
