-- ===== src/Gateway/Inference/Lending/Safety.antt =====
-- services/rust-sync/src/inference.rs: every operation of the pool keeps its slots lent to one owner each.
use mathlib.Core.Bool.{true≢false}
use websocket_stt_bench.Common.{
  ℕ, zero, suc, ◌+◌, ◌<◌, ◌≡◌, ◌≢◌, refl, sym, ap, ◌∙◌, arith, String, Bool, true, false, Option,
  none, some, List, [], ◌∷◌, ◌==◌, if◌then◌else◌, get_elem?, subst, if_cases,
}
use websocket_stt_bench.Common.Float.{Float64}
use websocket_stt_bench.Gateway.Config.{Config}
use websocket_stt_bench.Gateway.Protocol.{Json}
use websocket_stt_bench.Gateway.Inference.Pool.{
  sending, disconnected, Slot, SlotIo, Step, step_pending, redial, step_done, step_panicked, drive,
  build, dial, ensure_registered, deregister, new_slot,
}
use websocket_stt_bench.Gateway.Inference.Lending.{
  InferencePool, Reply, recycle, start_request, submit_slot, submit_free, submit_to, after_drive,
  event_slot, on_event, is_owner, owned_slot, drop_slot, abort_owner, slots_from, free_from,
  new_pool,
}
use websocket_stt_bench.Gateway.Inference.Lending.Invariant.{
  count, is_owned, is_quiet, Entry, IsLent, update-IsLent, Driven, drive-Driven,
}

Entry-at :
    (p : InferencePool) (idx : ℕ) (y : Slot)
    → IsLent p
    → get_elem? p.slots idx ≡ some y
    → Entry (some y) (count idx p.free)
Entry-at p idx y v e = subst (λ o. Entry o (count idx p.free)) e (v idx)

-- Pushing or popping one slot leaves the other counts alone.
count-other : (idx j : ℕ) (free : List ℕ) → idx ≢ j → count j (idx ∷ free) ≡ count j free
count-other idx j free ne = ground arith

freed_slot : Slot → Slot
freed_slot s =
    if s.sock
    then ensure_registered (record s { owner = none })
    else deregister (record s { owner = none })

freed_slot-Entry :
    (idx n : ℕ) (s : Slot)
    → n ≡ 0
    → is_quiet s ≡ true
    → Entry (some (freed_slot s)) ((if idx == idx then 1 else 0) + n)
unfolding freed_slot ensure_registered deregister
freed_slot-Entry idx n s z q =
    elim s.sock
      as (λ b.
        Entry
          (some (
            if b
            then ensure_registered (record s { owner = none })
            else deregister (record s { owner = none })))
          ((if idx == idx then 1 else 0) + n)) [
            | true ↦ (ground arith, λ h. q)
            | false ↦ (ground arith, λ h. q)
          ]

-- `recycle` of a slot that has an owner, left quiet.
recycle-IsLent :
    (p : InferencePool) (idx : ℕ) (y s : Slot)
    → IsLent p
    → get_elem? p.slots idx ≡ some y
    → is_owned y.owner ≡ true
    → is_quiet s ≡ true
    → IsLent (recycle p idx s)
unfolding recycle freed_slot
recycle-IsLent p idx y s v e owned q =
    update-IsLent p idx (freed_slot s) y (idx ∷ p.free) v e
      (freed_slot-Entry idx (count idx p.free) s (ground (arith, owned, (Entry-at p idx y v e).0))
        q)
      (λ j ne. count-other idx j p.free ne)

module _ {F T : Type 0} (fl : Float64 F) (json : Json F T) (status_text : ℕ → String)
    (config : Config) where
  start_request-IsLent :
      (p : InferencePool) (idx : ℕ) (rest : List ℕ) (y s : Slot) (owner tag : ℕ) (can_dial : Bool)
      → IsLent p
      → p.free ≡ idx ∷ rest
      → get_elem? p.slots idx ≡ some y
      → s.owner ≡ some owner
      → IsLent (start_request fl json status_text config p idx rest s owner tag can_dial).0
  unfolding ensure_registered dial
  start_request-IsLent p idx rest y s owner tag can_dial v ef e o =
      if_cases (λ (r : InferencePool × Reply F). IsLent r.0) s.sock
        (λ h.
          update-IsLent p idx (ensure_registered (record s { state = sending 0 })) y rest v e
            (lent (ensure_registered (record s { state = sending 0 })) o) elsewhere)
        (λ h.
          if_cases (λ (r : InferencePool × Reply F). IsLent r.0) can_dial
            (λ k.
              update-IsLent p idx (ensure_registered (dial s)) y rest v e
                (lent (ensure_registered (dial s)) o) elsewhere)
            (λ k.
              update-IsLent p idx (record s { owner = none }) y (idx ∷ rest) v e
                (ground (arith, none_left), λ q. rw h refl) (λ j ne. sym (ap (count j) ef))))
    where
      none_left : count idx rest ≡ 0
      none_left = ground (arith, (Entry-at p idx y v e).0, ap (count idx) ef)

      lent : (s' : Slot) → s'.owner ≡ some owner → Entry (some s') (count idx rest)
      lent s' o' = (ground (arith, none_left, o'), λ q. ground (arith, o'))

      elsewhere : (j : ℕ) → idx ≢ j → count j rest ≡ count j p.free
      elsewhere j ne = sym (count-other idx j rest ne) ∙ sym (ap (count j) ef)

  submit_slot-IsLent :
      (p : InferencePool) (idx : ℕ) (rest : List ℕ) (o : Option Slot) (owner tag : ℕ)
      (body : List ℕ) (cpu_passes now : ℕ) (can_dial : Bool)
      → IsLent p
      → p.free ≡ idx ∷ rest
      → get_elem? p.slots idx ≡ o
      → IsLent
          (submit_slot fl json status_text config p idx rest o owner tag body cpu_passes now
            can_dial).0
  unfolding build
  submit_slot-IsLent p idx rest none owner tag body cpu_passes now can_dial v ef e = v
  submit_slot-IsLent p idx rest (some y) owner tag body cpu_passes now can_dial v ef e =
      start_request-IsLent p idx rest y
        (build (record y { owner = some owner; tag = tag }) config body cpu_passes now) owner tag
        can_dial v ef e refl

  submit_free-IsLent :
      (free : List ℕ) (p : InferencePool) (owner tag : ℕ) (body : List ℕ) (cpu_passes now : ℕ)
      (can_dial : Bool)
      → IsLent p
      → p.free ≡ free
      → IsLent
          (submit_free fl json status_text config free p owner tag body cpu_passes now can_dial).0
  submit_free-IsLent [] p owner tag body cpu_passes now can_dial v ef = v
  submit_free-IsLent (idx ∷ rest) p owner tag body cpu_passes now can_dial v ef =
      submit_slot-IsLent p idx rest (get_elem? p.slots idx) owner tag body cpu_passes now can_dial v
        ef refl

  after_drive-IsLent :
      (p : InferencePool) (idx : ℕ) (y : Slot) (r : Slot × Step F) (io : SlotIo)
      → IsLent p
      → get_elem? p.slots idx ≡ some y
      → Driven y r
      → IsLent (after_drive fl json status_text config p idx r io).0
  unfolding ensure_registered dial
  after_drive-IsLent p idx y (s, step_panicked) io v e d = v
  after_drive-IsLent p idx y (s, step_pending) io v e (o, t, q) =
      update-IsLent p idx (ensure_registered s) y p.free v e
        (
          ground (arith, o, (Entry-at p idx y v e).0),
          λ h. q ((Entry-at p idx y v e).1 (ap is_owned (sym o) ∙ h)),
        )
        (λ j ne. refl)
  after_drive-IsLent p idx y (s, redial) io v e (d, q) =
      if_cases (λ (r : InferencePool × Reply F). IsLent r.0) io.redial
        (λ k.
          update-IsLent p idx (ensure_registered (dial s)) y p.free v e
            (
              ground (arith, d.0, (Entry-at p idx y v e).0),
              λ h. absurd (true≢false (sym owned ∙ ap is_owned (sym d.0) ∙ h)),
            )
            (λ j ne. refl))
        (λ k. recycle-IsLent p idx y s v e owned q)
    where
      owned : is_owned y.owner ≡ true
      owned = ground (arith, (Entry-at p idx y v e).1, d.2)
  after_drive-IsLent p idx y (s, step_done result) io v e (d, q) =
      recycle-IsLent p idx y s v e (ground (arith, (Entry-at p idx y v e).1, d.2)) q

  event_slot-IsLent :
      (o : Option Slot) (p : InferencePool) (idx : ℕ) (writable : Bool) (io : SlotIo)
      → IsLent p
      → get_elem? p.slots idx ≡ o
      → IsLent (event_slot fl json status_text config o p idx writable io).0
  event_slot-IsLent none p idx writable io v e = v
  event_slot-IsLent (some y) p idx writable io v e =
      after_drive-IsLent p idx y (drive fl json status_text y writable io) io v e
        (drive-Driven fl json status_text y writable io)

  -- A pool whose slots are lent to one owner each: a slot without an owner is in the free list once and
  -- has no socket or an idle one, a slot with an owner is not in the free list, and nothing else is.
  -- `submit` keeps such a pool such, whether a slot is free or not and whether it can be dialled or not.
  pub submit_to-IsLent :
      (p : InferencePool) (owner tag : ℕ) (body : List ℕ) (cpu_passes now : ℕ) (can_dial : Bool)
      → IsLent p
      → IsLent (submit_to fl json status_text config p owner tag body cpu_passes now can_dial).0
  unfolding submit_to
  submit_to-IsLent p owner tag body cpu_passes now can_dial v =
      submit_free-IsLent p.free p owner tag body cpu_passes now can_dial v refl

  -- An event on a socket of a pool whose slots are lent to one owner each keeps it such, whatever the
  -- socket does: no slot is returned to the free list twice, and none that is in use.
  pub on_event-IsLent :
      (p : InferencePool) (idx : ℕ) (writable : Bool) (io : SlotIo)
      → IsLent p
      → IsLent (on_event fl json status_text config p idx writable io).0
  unfolding on_event
  on_event-IsLent p idx writable io v =
      event_slot-IsLent (get_elem? p.slots idx) p idx writable io v refl

-- What `position` finds: a slot of the list that has an owner.
abbrev Found : List Slot → ℕ → Option (ℕ × Slot) → Type 0
Found slots i none = Unit
Found slots i (some (idx, s)) =
    (k : ℕ) × (idx ≡ i + k) × (get_elem? slots k ≡ some s) × (is_owned s.owner ≡ true)

Found-cons :
    (x : Slot) (slots : List Slot) (i : ℕ) (o : Option (ℕ × Slot))
    → Found slots (i + 1) o
    → Found (x ∷ slots) i o
Found-cons x slots i none f = tt
Found-cons x slots i (some (idx, s)) (k, e, g, w) = (suc k, omega (arith, e), g, w)

is_owner-owned : (owner : ℕ) (o : Option ℕ) → is_owner owner o ≡ true → is_owned o ≡ true
is_owner-owned owner none e = e
is_owner-owned owner (some o) e = refl

owned_slot-Found :
    (owner : ℕ) (slots : List Slot) (i : ℕ) → Found slots i (owned_slot owner slots i)
unfolding owned_slot
owned_slot-Found owner [] i = tt
owned_slot-Found owner (x ∷ slots) i =
    if_cases (Found (x ∷ slots) i) (is_owner owner x.owner)
      (λ h. (0, omega arith, refl, is_owner-owned owner x.owner h))
      (λ h.
        Found-cons x slots i (owned_slot owner slots (i + 1))
          (owned_slot-Found owner slots (i + 1)))

drop_slot-IsLent :
    (p : InferencePool) (o : Option (ℕ × Slot))
    → IsLent p
    → Found p.slots 0 o
    → IsLent (drop_slot p o)
drop_slot-IsLent p none v f = v
drop_slot-IsLent p (some (idx, s)) v (k, e, g, w) =
    recycle-IsLent p idx s (record s { owner = none; sock = false; state = disconnected }) v
      (ap (get_elem? p.slots) (omega (arith, e)) ∙ g) w refl

-- Aborting an owner keeps a pool whose slots are lent to one owner each such, whether the owner has a
-- slot or not.
pub abort_owner-IsLent : (p : InferencePool) (owner : ℕ) → IsLent p → IsLent (abort_owner p owner)
unfolding abort_owner
abort_owner-IsLent p owner v =
    drop_slot-IsLent p (owned_slot owner p.slots 0) v (owned_slot-Found owner p.slots 0)

count-before : (n i k : ℕ) → k < i → count k (free_from n i) ≡ 0
count-before zero i k h = refl
count-before (suc n) i k h = ground (arith, count-before n (i + 1) k (omega (arith, h)))

count-skip :
    (n i j : ℕ) → count (i + 1 + j) (free_from n (i + 1)) ≡ count (i + suc j) (free_from (suc n) i)
count-skip n i j =
    ap (λ k. count k (free_from n (i + 1))) (omega arith)
    ∙ sym (count-other i (i + suc j) (free_from n (i + 1)) (λ e. omega (arith, e)))

slots_from-Entry :
    (n i j now : ℕ) → Entry (get_elem? (slots_from n now) j) (count (i + j) (free_from n i))
unfolding new_slot
slots_from-Entry zero i j now = refl
slots_from-Entry (suc n) i zero now =
    (ground (arith, count-before n (i + 1) i (omega arith)), λ h. refl)
slots_from-Entry (suc n) i (suc j) now =
    subst (Entry (get_elem? (slots_from n now) j)) (count-skip n i j)
      (slots_from-Entry n (i + 1) j now)

-- A new pool, of any size, has all its slots free once and none in use.
pub new_pool-IsLent : (size now : ℕ) → IsLent (new_pool size now)
unfolding new_pool
new_pool-IsLent size now i =
    subst (λ k. Entry (get_elem? (slots_from size now) i) (count k (free_from size 0)))
      (omega arith) (slots_from-Entry size 0 i now)
