-- ===== src/Gateway/Inference/Lending.antt =====
-- services/rust-sync/src/inference.rs: `InferencePool`, which lends its slots to owners, and the commands and
-- events of its thread. The free list is a stack with its top first. A connect that cannot even be
-- started is an argument.
pub mod Invariant
pub mod Safety
mod Tests
use websocket_stt_bench.Common.{
  ℕ, zero, suc, ◌+◌, ◌-◌, String, Bool, true, false, not, ◌&&◌, Option, none, some, List, [], ◌∷◌,
  ◌==◌, if◌then◌else◌, Result, ok, err, length, get_elem?, set,
}
use websocket_stt_bench.Common.Float.{Float64}
use websocket_stt_bench.Gateway.Config.{Config}
use websocket_stt_bench.Gateway.Protocol.{InferResponse, Json}
use websocket_stt_bench.Gateway.Inference.{InferError, Done, Cmd, submit, abort, reset_error}
use websocket_stt_bench.Gateway.Inference.Pool.{
  Slot, sending, disconnected, new_slot, ensure_registered, deregister, build, dial, SlotIo, Step,
  step_pending, redial, step_done, step_panicked, drive,
}

pub record InferencePool : Type 0 where
  pub slots : List Slot
  pub free : List ℕ

abbrev pub slots_from : ℕ → ℕ → List Slot
slots_from zero now = []
slots_from (suc n) now = new_slot now ∷ slots_from n now

abbrev pub free_from : ℕ → ℕ → List ℕ
free_from zero i = []
free_from (suc n) i = i ∷ free_from n (i + 1)

-- `InferencePool::new`
unfoldable pub new_pool : ℕ → ℕ → InferencePool
unfolding new_slot
new_pool size now = record { slots = slots_from size now; free = free_from size 0 }

unfoldable pub has_inflight : InferencePool → Bool
has_inflight p = not (length p.free == length p.slots)

-- Milliseconds.
abbrev pub compute_poll_timeout : Bool → ℕ
compute_poll_timeout inflight = if inflight then 10 else 1000

-- What the thread sends back, if anything; `died` is a panic.
pub data Reply (F : Type 0) : Type 0 where
  quiet died : Reply F
  reply : Done F → Reply F

-- `recycle`, of the slot as it then is.
unfoldable pub recycle : InferencePool → ℕ → Slot → InferencePool
unfolding ensure_registered deregister
recycle p idx s =
    let s' = record s { owner = none } in
    record {
      slots = set p.slots idx (if s'.sock then ensure_registered s' else deregister s');
      free = idx ∷ p.free;
    }

module _ {F T : Type 0} (fl : Float64 F) (json : Json F T) (status_text : ℕ → String)
    (config : Config) where
  abbrev pub start_request :
      InferencePool → ℕ → List ℕ → Slot → ℕ → ℕ → Bool → InferencePool × Reply F
  start_request p idx rest s owner tag can_dial =
      if s.sock
      then (
        record {
          slots = set p.slots idx (ensure_registered (record s { state = sending 0 }));
          free = rest;
        },
        quiet,
      )
      else if can_dial
      then (record { slots = set p.slots idx (ensure_registered (dial s)); free = rest }, quiet)
      else (
        record { slots = set p.slots idx (record s { owner = none }); free = idx ∷ rest },
        reply (record { owner = owner; tag = tag; result = err (reset_error fl) }),
      )

  abbrev pub submit_slot :
      InferencePool
      → ℕ
      → List ℕ
      → Option Slot
      → ℕ
      → ℕ
      → List ℕ
      → ℕ
      → ℕ
      → Bool
      → InferencePool × Reply F
  submit_slot p idx rest none owner tag body cpu_passes now can_dial = (p, died)
  submit_slot p idx rest (some s) owner tag body cpu_passes now can_dial =
      start_request p idx rest
        (build (record s { owner = some owner; tag = tag }) config body cpu_passes now) owner tag
        can_dial

  abbrev pub submit_free :
      List ℕ → InferencePool → ℕ → ℕ → List ℕ → ℕ → ℕ → Bool → InferencePool × Reply F
  submit_free [] p owner tag body cpu_passes now can_dial =
      (p, reply (record { owner = owner; tag = tag; result = err (reset_error fl) }))
  submit_free (idx ∷ rest) p owner tag body cpu_passes now can_dial =
      submit_slot p idx rest (get_elem? p.slots idx) owner tag body cpu_passes now can_dial

  unfoldable pub submit_to : InferencePool → ℕ → ℕ → List ℕ → ℕ → ℕ → Bool → InferencePool × Reply F
  unfolding build ensure_registered dial
  submit_to p owner tag body cpu_passes now can_dial =
      submit_free p.free p owner tag body cpu_passes now can_dial

  -- `owner.map(|o| (o, tag, result))`
  abbrev pub to_owner : Option ℕ → ℕ → Result (InferResponse F) (InferError F) → Reply F
  to_owner none tag result = quiet
  to_owner (some o) tag result = reply (record { owner = o; tag = tag; result = result })

  abbrev pub after_drive : InferencePool → ℕ → Slot × Step F → SlotIo → InferencePool × Reply F
  after_drive p idx (s, step_panicked) io = (p, died)
  after_drive p idx (s, step_pending) io =
      (record p { slots = set p.slots idx (ensure_registered s) }, quiet)
  after_drive p idx (s, redial) io =
      if io.redial
      then (record p { slots = set p.slots idx (ensure_registered (dial s)) }, quiet)
      else (recycle p idx s, to_owner s.owner s.tag (err (reset_error fl)))
  after_drive p idx (s, step_done result) io = (recycle p idx s, to_owner s.owner s.tag result)

  abbrev pub event_slot : Option Slot → InferencePool → ℕ → Bool → SlotIo → InferencePool × Reply F
  event_slot none p idx writable io = (p, died)
  event_slot (some s) p idx writable io =
      after_drive p idx (drive fl json status_text s writable io) io

  unfoldable pub on_event : InferencePool → ℕ → Bool → SlotIo → InferencePool × Reply F
  unfolding recycle ensure_registered dial
  on_event p idx writable io = event_slot (get_elem? p.slots idx) p idx writable io

-- `s.owner == Some(owner)`
abbrev pub is_owner : ℕ → Option ℕ → Bool
is_owner owner none = false
is_owner owner (some o) = o == owner

-- `position`, with the slot there.
unfoldable pub owned_slot : ℕ → List Slot → ℕ → Option (ℕ × Slot)
owned_slot owner [] i = none
owned_slot owner (s ∷ rest) i =
    let further = owned_slot owner rest (i + 1) in
    if is_owner owner s.owner then some (i, s) else further

abbrev pub drop_slot : InferencePool → Option (ℕ × Slot) → InferencePool
drop_slot p none = p
drop_slot p (some (idx, s)) =
    recycle p idx (record s { owner = none; sock = false; state = disconnected })

unfoldable pub abort_owner : InferencePool → ℕ → InferencePool
unfolding owned_slot recycle
abort_owner p owner = drop_slot p (owned_slot owner p.slots 0)
