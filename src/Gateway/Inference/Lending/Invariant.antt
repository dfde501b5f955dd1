-- ===== src/Gateway/Inference/Lending/Invariant.antt =====
-- services/rust-sync/src/inference.rs: which slots are free.
use mathlib.Core.Bool.{true≢false}
use websocket_stt_bench.Gateway.Inference.{transport_error}
use websocket_stt_bench.Gateway.Inference.Reply.{
  Parsed, incomplete, overflows, complete, parse_response,
}
use websocket_stt_bench.Common.{
  subst, ==_iff, ◌-◌, ℕ, zero, suc, ◌+◌, ◌≡◌, ◌≢◌, inl, inr, refl, sym, ◌∙◌, arith, String, Bool,
  true, false, not, ◌&&◌, ◌||◌, Option, none, some, List, [], ◌∷◌, ◌==◌, if◌then◌else◌, ok, err,
  length, get_elem?, set, Bool-cases,
}
use websocket_stt_bench.Common.Float.{Float64, millis_f64}
use websocket_stt_bench.Gateway.Protocol.{connection_reset, Json}
use websocket_stt_bench.Gateway.Inference.Pool.{
  State, idle, connecting, sending, disconnected, receiving, Slot, SlotIo, Connect, connected,
  in_progress, connect_failed, Written, all_written, stopped_at, broke, write_all, read_all, Ran,
  pending, finished, io_error, panicked, Step, step_pending, redial, step_done, step_panicked,
  finish_reply, after_read, run_receiving, after_write, run_sending, run_connecting, run_state,
  retry_or_fail, settle, drive,
}
use websocket_stt_bench.Gateway.Inference.Lending.{InferencePool}

-- How often a slot stands in the free list.
abbrev pub count : ℕ → List ℕ → ℕ
count i [] = 0
count i (j ∷ js) = (if j == i then 1 else 0) + count i js

abbrev pub is_owned : Option ℕ → Bool
is_owned none = false
is_owned (some o) = true

abbrev pub is_idle : State → Bool
is_idle idle = true
is_idle _ = false

-- A slot that an event on its socket leaves alone.
abbrev pub is_quiet : Slot → Bool
is_quiet s = not s.sock || is_idle s.state

-- A slot without an owner is in the free list once and is quiet, one with an owner is not in it, and
-- nothing else is.
abbrev pub Entry : Option Slot → ℕ → Type 0
Entry none n = n ≡ 0
Entry (some s) n =
    (n ≡ (if is_owned s.owner then 0 else 1)) × ((is_owned s.owner ≡ false) → is_quiet s ≡ true)

abbrev pub IsLent : InferencePool → Type 0
IsLent p = (i : ℕ) → Entry (get_elem? p.slots i) (count i p.free)

get-set-same :
    {A : Type 0} (xs : List A) (i : ℕ) (x y : A)
    → get_elem? xs i ≡ some y
    → get_elem? (set xs i x) i ≡ some x
get-set-same [] i x y e = cc
get-set-same (z ∷ xs) zero x y e = refl
get-set-same (z ∷ xs) (suc i) x y e = get-set-same xs i x y e

get-set-other :
    {A : Type 0} (xs : List A) (i j : ℕ) (x : A) → i ≢ j → get_elem? (set xs i x) j ≡ get_elem? xs j
get-set-other [] i j x ne = refl
get-set-other (z ∷ xs) zero zero x ne = absurd (ne refl)
get-set-other (z ∷ xs) zero (suc j) x ne = refl
get-set-other (z ∷ xs) (suc i) zero x ne = refl
get-set-other (z ∷ xs) (suc i) (suc j) x ne = get-set-other xs i j x (λ e. ne (omega (arith, e)))

-- Replacing one slot, with a free list that differs in that slot at most.
pub update-IsLent :
    (p : InferencePool) (idx : ℕ) (s y : Slot) (free : List ℕ)
    → IsLent p
    → get_elem? p.slots idx ≡ some y
    → Entry (some s) (count idx free)
    → ((j : ℕ) → idx ≢ j → count j free ≡ count j p.free)
    → IsLent (record { slots = set p.slots idx s; free = free })
update-IsLent p idx s y free v e here elsewhere i = elim (Bool-cases (idx == i)) [
  | inl same ↦
      let eq = (==_iff idx i).0 same in
      subst (λ k. Entry (get_elem? (set p.slots idx s) k) (count k free)) eq
        (rw (get-set-same p.slots idx s y e) here)
  | inr other ↦
      let ne = λ (eq : idx ≡ i). true≢false (sym ((==_iff idx i).1 eq) ∙ other) in
      rw (get-set-other p.slots idx i s ne) (rw (elsewhere i ne) (v i))
]

-- What an event does to a slot: it keeps its owner and tag, a quiet slot stays quiet, and only a slot
-- that was not quiet ends a request or redials, and is quiet then.
abbrev pub Ended : Slot → Slot → Type 0
Ended s s' = (s'.owner ≡ s.owner) × (s'.tag ≡ s.tag) × (is_quiet s ≡ false)

module _ {F : Type 0} where
  abbrev RanFrom : Slot → Slot × Ran F → Type 0
  RanFrom s (s', pending) =
      (s'.owner ≡ s.owner) × (s'.tag ≡ s.tag) × (is_quiet s ≡ true → is_quiet s' ≡ true)
  RanFrom s (s', finished r) = Ended s s' × (is_quiet s' ≡ true)
  RanFrom s (s', io_error e) = Ended s s'
  RanFrom s (s', panicked) = Unit

  abbrev pub Driven : Slot → Slot × Step F → Type 0
  Driven s (s', step_pending) =
      (s'.owner ≡ s.owner) × (s'.tag ≡ s.tag) × (is_quiet s ≡ true → is_quiet s' ≡ true)
  Driven s (s', redial) = Ended s s' × (is_quiet s' ≡ true)
  Driven s (s', step_done r) = Ended s s' × (is_quiet s' ≡ true)
  Driven s (s', step_panicked) = Unit

module _ {F T : Type 0} (fl : Float64 F) (json : Json F T) (status_text : ℕ → String) where
  finish_reply-RanFrom :
      (s0 s : Slot) (r : Parsed F) (elapsed_ms : F)
      → Ended s0 s
      → RanFrom s0 (finish_reply fl json status_text s r elapsed_ms)
  finish_reply-RanFrom s0 s incomplete elapsed_ms (o, t, q) =
      (o, t, λ h. absurd (true≢false (sym h ∙ q)))
  finish_reply-RanFrom s0 s overflows elapsed_ms e = tt
  finish_reply-RanFrom s0 s (complete (ok infer)) elapsed_ms e = (e, ground arith)
  finish_reply-RanFrom s0 s (complete (err x)) elapsed_ms e = (e, ground arith)

  after_read-RanFrom :
      (s0 s : Slot) (r : List ℕ × Option String) (now : ℕ)
      → Ended s0 s
      → RanFrom s0 (after_read fl json status_text s r now)
  after_read-RanFrom s0 s (resp, some e) now h = h
  after_read-RanFrom s0 s (resp, none) now h =
      finish_reply-RanFrom s0 (record s { resp = resp }) (parse_response json resp)
        (millis_f64 fl (now - s.started)) h

  after_write-RanFrom :
      (s0 s : Slot) (w : Written) (io : SlotIo)
      → Ended s0 s
      → RanFrom s0 (after_write fl json status_text s w io)
  unfolding run_receiving
  after_write-RanFrom s0 s all_written io h =
      after_read-RanFrom s0 (record s { state = receiving })
        (read_all s.resp io.unexpected_eof io.reads) io.now h
  after_write-RanFrom s0 s (stopped_at off) io (o, t, q) =
      (o, t, λ h. absurd (true≢false (sym h ∙ q)))
  after_write-RanFrom s0 s (broke e) io h = h

  run_state-RanFrom :
      (s : Slot) (st : State) (has writable : Bool) (io : SlotIo)
      → s.state ≡ st
      → s.sock ≡ has
      → RanFrom s (run_state fl json status_text s st has writable io)
  unfolding run_state run_connecting run_sending run_receiving
  run_state-RanFrom s disconnected has writable io e h = (refl, refl, λ q. q)
  run_state-RanFrom s idle true false io e h =
      elim io.closed
        as (λ b.
          RanFrom {F = F} s
            (if b then record s { sock = false; state = disconnected } else s, pending)) [
              | true ↦ (refl, refl, λ q. refl)
              | false ↦ (refl, refl, λ q. q)
            ]
  run_state-RanFrom s idle true true io e h = (refl, refl, λ q. q)
  run_state-RanFrom s idle false true io e h = (refl, refl, λ q. q)
  run_state-RanFrom s idle false false io e h = tt
  run_state-RanFrom s connecting true writable io e h = by_connect io.connect
    where
      busy : Ended s s
      busy = (refl, refl, rw h (rw e refl))

      by_connect : (c : Connect) → RanFrom s (run_connecting fl json status_text s c io)
      by_connect connected =
          after_write-RanFrom s (record s { state = sending 0 })
            (write_all (length s.req) io.write_zero 0 io.writes) io busy
      by_connect in_progress = (refl, refl, λ q. q)
      by_connect (connect_failed m) = busy
  run_state-RanFrom s connecting false writable io e h = tt
  run_state-RanFrom s (sending off) true writable io e h =
      after_write-RanFrom s s (write_all (length s.req) io.write_zero off io.writes) io
        (refl, refl, rw h (rw e refl))
  run_state-RanFrom s (sending off) false writable io e h = tt
  run_state-RanFrom s receiving true writable io e h =
      after_read-RanFrom s s (read_all s.resp io.unexpected_eof io.reads) io.now
        (refl, refl, rw h (rw e refl))
  run_state-RanFrom s receiving false writable io e h = tt

  settle-Driven :
      (s : Slot) (r : Slot × Ran F) (now : ℕ)
      → RanFrom s r
      → Driven s (settle fl json status_text r now)
  unfolding retry_or_fail
  settle-Driven s (s', pending) now h = h
  settle-Driven s (s', finished r) now h = h
  settle-Driven s (s', io_error e) now h =
      elim (not s'.retried && s'.sock)
        as (λ b. Driven s (
          if b
          then (record s' { retried = true; resp = []; state = sending 0; sock = false }, redial)
          else (
            record s' { sock = false; state = disconnected },
            step_done (err (transport_error connection_reset e (millis_f64 fl (now - s'.started)))),
          ))) [ true ↦ (h, refl) | false ↦ (h, refl) ]
  settle-Driven s (s', panicked) now h = tt

  pub drive-Driven :
      (s : Slot) (writable : Bool) (io : SlotIo)
      → Driven s (drive fl json status_text s writable io)
  unfolding drive
  drive-Driven s writable io =
      settle-Driven s (run_state fl json status_text s s.state s.sock writable io) io.now
        (run_state-RanFrom s s.state s.sock writable io refl refl)
