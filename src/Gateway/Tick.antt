-- ===== src/Gateway/Tick.antt =====
-- services/rust-sync/src/main.rs: what the loop does with one connection: the arms of its `match` on
-- `on_timer`, and every way in which it advances a connection, as one step.
pub mod Ledger
pub mod Accounting
pub mod Answers
pub mod Steps
pub mod Content
pub mod Sessions
mod Tests
use websocket_stt_bench.Common.{ℕ, Bool, List, [], ◌∷◌, ◌++◌, Result, err}
use websocket_stt_bench.Common.Float.{Float64}
use websocket_stt_bench.Gateway.Config.{Config}
use websocket_stt_bench.Gateway.Protocol.{InferResponse, Json}
use websocket_stt_bench.Gateway.Inference.{Cmd, submit, abort, InferError, timeout_error}
use websocket_stt_bench.Gateway.Session.{
  Conn, Outcome, keep, close, Tick, idle, flush, expired, Flush, Io, tag, on_timer, begin_pending,
  deliver, on_done, on_ready,
}

-- A connection, the commands sent to the inference thread, and whether the connection stays.
pub record Advanced (F T : Type 0) : Type 0 where
  pub conn : Conn F T
  pub cmds : List Cmd
  pub outcome : Outcome

pub data Event (F : Type 0) : Type 0 where
  ready : (can_read can_write : Bool) → Io → Event F
  done : (tag : ℕ) → Result (InferResponse F) (InferError F) → (now : ℕ) → Flush → Event F
  timer : (now : ℕ) → Flush → Event F

abbrev pub advanced : {F T : Type 0} → Conn F T × Outcome → Advanced F T
advanced (c, o) = record { conn = c; cmds = []; outcome = o }

module _ {F T : Type 0} (fl : Float64 F) (json : Json F T) (config : Config) where
  unfoldable pub act : Conn F T → Tick F → ℕ → Flush → Advanced F T
  act c idle now r = record { conn = c; cmds = []; outcome = keep }
  act c (flush b) now r = record {
    conn = begin_pending c b now;
    cmds = submit c.id (tag b) c.pcm config.cpu_passes ∷ [];
    outcome = keep;
  }
  act c (expired elapsed_ms) now r =
      let (c', o) = deliver fl json c (err (timeout_error elapsed_ms)) now config r in
      record { conn = c'; cmds = abort c.id ∷ []; outcome = o }

  unfoldable pub tick_conn : Conn F T → ℕ → Flush → Advanced F T
  unfolding act
  tick_conn c now r = let (c', t) = on_timer fl c now config in act c' t now r

  unfoldable pub step : Conn F T → Event F → Advanced F T
  unfolding tick_conn
  step c (ready can_read can_write io) = advanced (on_ready json.is_start c can_read can_write io)
  step c (done t result now r) = advanced (on_done fl json c t result now config r)
  step c (timer now r) = tick_conn c now r

  -- The events of a connection, up to the one that closes it.
  unfoldable pub run : Conn F T → List (Event F) → Conn F T × List Cmd
  unfolding step
  run c [] = (c, [])
  run c (e ∷ rest) =
      let a = step c e in
      let further = run a.conn rest in
      elim a.outcome [ keep ↦ (further.0, a.cmds ++ further.1) | close ↦ (a.conn, a.cmds) ]
