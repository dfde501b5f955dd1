-- ===== src/Gateway/Inference/Thread.antt =====
-- services/rust-sync/src/inference.rs: `run`, the loop of the inference thread. One round is given the
-- readiness events of its poll and the commands that it takes from the channel; it returns the results
-- that it sends. A panic ends the thread.
use websocket_stt_bench.Common.{ℕ, zero, suc, Bool, true, false, String, List, [], ◌∷◌, ◌++◌}
use websocket_stt_bench.Common.Float.{Float64}
use websocket_stt_bench.Gateway.Config.{Config}
use websocket_stt_bench.Gateway.Protocol.{Json}
use websocket_stt_bench.Gateway.Inference.{Done, Cmd, submit, abort}
use websocket_stt_bench.Gateway.Inference.Pool.{SlotIo}
use websocket_stt_bench.Gateway.Inference.Lending.{
  InferencePool, Reply, quiet, died, reply, new_pool, submit_to, on_event, abort_owner,
}
use websocket_stt_bench.Gateway.Inference.Lending.Invariant.{IsLent}
use websocket_stt_bench.Gateway.Inference.Lending.Safety.{
  new_pool-IsLent, submit_to-IsLent, on_event-IsLent, abort_owner-IsLent,
}

-- `B_WAKE` is token 0, and the socket of a slot has the token after its index.
pub record Readiness : Type 0 where
  pub token : ℕ
  pub is_writable : Bool
  pub io : SlotIo

-- A command, with the instant at which it is handled and whether a connect can be started.
pub record Command : Type 0 where
  pub cmd : Cmd
  pub now : ℕ
  pub can_dial : Bool

-- The pool, the results sent, and whether the thread still runs.
pub record Served (F : Type 0) : Type 0 where
  pub pool : InferencePool
  pub sent : List (Done F)
  pub alive : Bool

module _ {F : Type 0} where
  -- What happens behind a reply: it is sent, or the thread has died.
  abbrev pub and_then : InferencePool × Reply F → (InferencePool → Served F) → Served F
  and_then (p, quiet) further = further p
  and_then (p, died) further = record { pool = p; sent = []; alive = false }
  and_then (p, reply d) further = let s = further p in record s { sent = d ∷ s.sent }

module _ {F T : Type 0} (fl : Float64 F) (json : Json F T) (status_text : ℕ → String)
    (config : Config) where
  -- `pool_slot`
  abbrev handle_event : InferencePool → ℕ → Readiness → InferencePool × Reply F
  handle_event p zero e = (p, quiet)
  handle_event p (suc idx) e = on_event fl json status_text config p idx e.is_writable e.io

  abbrev handle_cmd : InferencePool → Cmd → Command → InferencePool × Reply F
  handle_cmd p (submit owner tag body cpu_passes) c =
      submit_to fl json status_text config p owner tag body cpu_passes c.now c.can_dial
  handle_cmd p (abort owner) c = (abort_owner p owner, quiet)

  unfoldable pub drain_commands : InferencePool → List Command → Served F
  drain_commands p [] = record { pool = p; sent = []; alive = true }
  drain_commands p (c ∷ rest) = and_then (handle_cmd p c.cmd c) (λ q. drain_commands q rest)

  -- One round of the loop: all events, then all commands.
  unfoldable pub serve_round : InferencePool → List Readiness → List Command → Served F
  unfolding drain_commands
  serve_round p [] cmds = drain_commands p cmds
  serve_round p (e ∷ rest) cmds = and_then (handle_event p e.token e) (λ q. serve_round q rest cmds)

  unfoldable pub serve : InferencePool → List (List Readiness × List Command) → Served F
  unfolding serve_round
  serve p [] = record { pool = p; sent = []; alive = true }
  serve p ((events, cmds) ∷ rest) =
      let s = serve_round p events cmds in
      let further = serve s.pool rest in
      elim s.alive [ true ↦ record further { sent = s.sent ++ further.sent } | false ↦ s ]

  and_then-IsLent :
      (r : InferencePool × Reply F) (further : InferencePool → Served F)
      → IsLent r.0
      → ((p : InferencePool) → IsLent p → IsLent (further p).pool)
      → IsLent (and_then r further).pool
  and_then-IsLent (p, quiet) further v k = k p v
  and_then-IsLent (p, died) further v k = v
  and_then-IsLent (p, reply d) further v k = k p v

  handle_event-IsLent :
      (p : InferencePool) (t : ℕ) (e : Readiness) → IsLent p → IsLent (handle_event p t e).0
  handle_event-IsLent p zero e v = v
  handle_event-IsLent p (suc idx) e v =
      on_event-IsLent fl json status_text config p idx e.is_writable e.io v

  handle_cmd-IsLent :
      (p : InferencePool) (m : Cmd) (c : Command) → IsLent p → IsLent (handle_cmd p m c).0
  handle_cmd-IsLent p (submit owner tag body cpu_passes) c v =
      submit_to-IsLent fl json status_text config p owner tag body cpu_passes c.now c.can_dial v
  handle_cmd-IsLent p (abort owner) c v = abort_owner-IsLent p owner v

  drain_commands-IsLent :
      (cmds : List Command) (p : InferencePool) → IsLent p → IsLent (drain_commands p cmds).pool
  unfolding drain_commands
  drain_commands-IsLent [] p v = v
  drain_commands-IsLent (c ∷ rest) p v =
      and_then-IsLent (handle_cmd p c.cmd c) (λ q. drain_commands q rest)
        (handle_cmd-IsLent p c.cmd c v) (drain_commands-IsLent rest)

  serve_round-IsLent :
      (events : List Readiness) (cmds : List Command) (p : InferencePool)
      → IsLent p
      → IsLent (serve_round p events cmds).pool
  unfolding serve_round
  serve_round-IsLent [] cmds p v = drain_commands-IsLent cmds p v
  serve_round-IsLent (e ∷ rest) cmds p v =
      and_then-IsLent (handle_event p e.token e) (λ q. serve_round q rest cmds)
        (handle_event-IsLent p e.token e v) (serve_round-IsLent rest cmds)

  serve-keeps_IsLent :
      (rounds : List (List Readiness × List Command)) (p : InferencePool)
      → IsLent p
      → IsLent (serve p rounds).pool
  unfolding serve
  serve-keeps_IsLent [] p v = v
  serve-keeps_IsLent ((events, cmds) ∷ rest) p v =
      elim (serve_round p events cmds).alive
        as (λ (b : Bool).
          let s = serve_round p events cmds in
          let further = serve s.pool rest in
          IsLent
            (elim b as (λ _. Served F) [
              | true ↦ record further { sent = s.sent ++ further.sent }
              | false ↦ s
            ]).pool) [
              | true ↦
                  serve-keeps_IsLent rest (serve_round p events cmds).pool
                    (serve_round-IsLent events cmds p v)
              | false ↦ serve_round-IsLent events cmds p v
            ]

  -- From a new pool of any size, whatever events and commands the rounds of the inference thread handle
  -- and whatever its sockets do, every slot is lent to one owner or in the free list once, and a free
  -- slot has no socket or an idle one.
  pub serve-IsLent :
      (size now : ℕ) (rounds : List (List Readiness × List Command))
      → IsLent (serve (new_pool size now) rounds).pool
  serve-IsLent size now rounds =
      serve-keeps_IsLent rounds (new_pool size now) (new_pool-IsLent size now)
