-- ===== src/Gateway/Loop.antt =====
-- services/rust-sync/src/main.rs: tokens, the map of connections, accepting and closing. The map is an
-- association list; the timer heap is a list, of which only pushing is modelled here.
mod Tests
use websocket_stt_bench.Common.{
  ℕ, zero, suc, ◌+◌, ◌≤◌, ◌<◌, ◌≡◌, refl, sym, arith, Bool, true, false, List, [], ◌∷◌, ◌==◌,
  if◌then◌else◌, if_cases, All,
}
use websocket_stt_bench.Gateway.Config.{Config}
use websocket_stt_bench.Gateway.Session.{Conn, new, deadline}

abbrev first_conn_id : ℕ
first_conn_id = 2

pub data Source : Type 0 where
  listener result : Source
  ws : ℕ → Source

-- `LISTENER` is token 0 and `RESULT` token 1.
abbrev pub decode : ℕ → Source
decode zero = listener
decode (suc zero) = result
decode (suc (suc n)) = ws (suc (suc n))

abbrev pub ws_token : ℕ → ℕ
ws_token id = id

pub record Loop (F T : Type 0) : Type 0 where
  pub conns : List (ℕ × Conn F T)
  pub timers : List (ℕ × ℕ)
  pub next_id : ℕ

-- What `listener.accept()` gives: a stream, with whether it can be registered, the instant and the random
-- phase that its connection gets; or an error.
pub data Accepted : Type 0 where
  stream : (registered : Bool) → (now phase : ℕ) → Accepted
  accept_interrupted accept_ended : Accepted

decode_ws : (i : ℕ) → 2 ≤ i → decode (ws_token i) ≡ ws i
decode_ws zero h = absurd (omega (arith, h))
decode_ws (suc zero) h = absurd (omega (arith, h))
decode_ws (suc (suc n)) h = refl

module _ {F T : Type 0} where
  unfoldable pub new_loop : Loop F T
  new_loop = record { conns = []; timers = []; next_id = first_conn_id }

  unfoldable pub insert : Loop F T → ℕ → ℕ → Config → Loop F T
  insert l now phase config =
      let c = new l.next_id now phase config in
      record {
        conns = (l.next_id, c) ∷ l.conns;
        timers = (deadline c, l.next_id) ∷ l.timers;
        next_id = l.next_id + 1;
      }

  unfoldable pub accept : Loop F T → List Accepted → Config → Loop F T
  unfolding insert
  accept l [] config = l
  accept l (stream registered now phase ∷ rest) config =
      accept
        (if registered then insert l now phase config else record l { next_id = l.next_id + 1 })
        rest config
  accept l (accept_interrupted ∷ rest) config = accept l rest config
  accept l (accept_ended ∷ rest) config = l

  unfoldable pub without : ℕ → List (ℕ × Conn F T) → List (ℕ × Conn F T)
  without id [] = []
  without id ((i, c) ∷ rest) =
      let others = without id rest in if i == id then others else (i, c) ∷ others

  -- The connections that a round closes leave the map.
  unfoldable pub close_all : Loop F T → List ℕ → Loop F T
  unfolding without
  close_all l [] = l
  close_all l (id ∷ rest) = close_all (record l { conns = without id l.conns }) rest

  -- Every connection stands under its own id, which is not one of the two reserved tokens and will not be
  -- given out again.
  abbrev pub Keyed : ℕ → ℕ × Conn F T → Type 0
  Keyed next (i, c) = (c.id ≡ i) × (i < next) × (decode (ws_token i) ≡ ws i)

  abbrev pub IsKeyed : Loop F T → Type 0
  IsKeyed l = (first_conn_id ≤ l.next_id) × All (Keyed l.next_id) l.conns

  Keyed-later : (n : ℕ) (cs : List (ℕ × Conn F T)) → All (Keyed n) cs → All (Keyed (n + 1)) cs
  Keyed-later n [] v = tt
  Keyed-later n ((i, c) ∷ rest) v = ((v.0.0, omega (arith, v.0.1), v.0.2), Keyed-later n rest v.1)

  insert-IsKeyed :
      (l : Loop F T) (now phase : ℕ) (config : Config)
      → IsKeyed l
      → IsKeyed (insert l now phase config)
  unfolding insert new
  insert-IsKeyed l now phase config (h, v) = (
    omega (arith, h),
    ((refl, omega arith, decode_ws l.next_id h), Keyed-later l.next_id l.conns v),
  )

  accept-IsKeyed :
      (l : Loop F T) (streams : List Accepted) (config : Config)
      → IsKeyed l
      → IsKeyed (accept l streams config)
  unfolding accept
  accept-IsKeyed l [] config v = v
  accept-IsKeyed l (stream registered now phase ∷ rest) config v =
      accept-IsKeyed
        (if registered then insert l now phase config else record l { next_id = l.next_id + 1 })
        rest config
        (if_cases IsKeyed registered (λ h. insert-IsKeyed l now phase config v)
          (λ h. (omega (arith, v.0), Keyed-later l.next_id l.conns v.1)))
  accept-IsKeyed l (accept_interrupted ∷ rest) config v = accept-IsKeyed l rest config v
  accept-IsKeyed l (accept_ended ∷ rest) config v = v

  without-Keyed :
      (n id : ℕ) (cs : List (ℕ × Conn F T)) → All (Keyed n) cs → All (Keyed n) (without id cs)
  unfolding without
  without-Keyed n id [] v = tt
  without-Keyed n id ((i, c) ∷ rest) v =
      if_cases (All (Keyed n)) (i == id) (λ h. without-Keyed n id rest v.1)
        (λ h. (v.0, without-Keyed n id rest v.1))

  close_all-IsKeyed : (l : Loop F T) (ids : List ℕ) → IsKeyed l → IsKeyed (close_all l ids)
  unfolding close_all
  close_all-IsKeyed l [] v = v
  close_all-IsKeyed l (id ∷ rest) v =
      close_all-IsKeyed (record l { conns = without id l.conns }) rest
        (v.0, without-Keyed l.next_id id l.conns v.1)

  -- Rounds of the loop, as far as they accept and close.
  unfoldable pub churn : Loop F T → List (List Accepted × List ℕ) → Config → Loop F T
  unfolding close_all accept
  churn l [] config = l
  churn l ((streams, ids) ∷ rest) config =
      churn (close_all (accept l streams config) ids) rest config

  churn_keeps_IsKeyed :
      (l : Loop F T) (rounds : List (List Accepted × List ℕ)) (config : Config)
      → IsKeyed l
      → IsKeyed (churn l rounds config)
  unfolding churn
  churn_keeps_IsKeyed l [] config v = v
  churn_keeps_IsKeyed l ((streams, ids) ∷ rest) config v =
      churn_keeps_IsKeyed (close_all (accept l streams config) ids) rest config
        (close_all-IsKeyed (accept l streams config) ids (accept-IsKeyed l streams config v))

-- Through any rounds of accepting and closing from the start of the loop, each connection stands under
-- its own id, which is below the next id to be given out and whose token decodes to that connection,
-- never to the listener or the result waker.
pub churn-IsKeyed :
    (F T : Type 0) (rounds : List (List Accepted × List ℕ)) (config : Config)
    → IsKeyed (churn {F = F} {T = T} new_loop rounds config)
unfolding new_loop
churn-IsKeyed F T rounds config = churn_keeps_IsKeyed new_loop rounds config (omega arith, tt)
