-- ===== src/Gateway/Tick/Ledger.antt =====
-- services/rust-sync/src/session.rs: the ledger of a connection. Every accepted frame is in exactly one
-- place: reported by a response, in the batch in flight, or in the buffer, in this order.
use mathlib.Core.List
use mathlib.Core.List.{map-append}
use websocket_stt_bench.Common.{
  ℕ, ◌+◌, ◌*◌, ◌≤◌, ◌≡◌, refl, sym, ap, ◌∙◌, Option, none, some, List, [], ◌∷◌, ◌++◌, arith, length,
  last_or, append_assoc,
}
use websocket_stt_bench.Gateway.Config.{frame_bytes}
use websocket_stt_bench.Gateway.Session.{FrameMeta, Pending, Sent, Conn}
use websocket_stt_bench.Gateway.Wire.{response, responses, range_of, ranges}
use websocket_stt_bench.Loadgen.Protocol.{ServerMessage}
use websocket_stt_bench.Loadgen.Verify.Coverage.{Tiles, end_of}

-- Frames numbered on from `n`.
abbrev pub Consecutive : ℕ → List FrameMeta → Type 0
Consecutive n [] = Unit
Consecutive n (m ∷ ms) = (m.seq ≡ n + 1) × Consecutive (n + 1) ms

pub Consecutive-snoc :
    (n : ℕ) (ms : List FrameMeta) (m : FrameMeta)
    → Consecutive n ms
    → m.seq ≡ n + length ms + 1
    → Consecutive n (ms ++ m ∷ [])
Consecutive-snoc n [] m h e = (omega arith, tt)
Consecutive-snoc n (x ∷ ms) m h e = (h.0, Consecutive-snoc (n + 1) ms m h.1 (omega arith))

pub Consecutive-last :
    (n : ℕ) (first : FrameMeta) (ms : List FrameMeta)
    → Consecutive n (first ∷ ms)
    → (last_or first ms).seq ≡ n + length (first ∷ ms)
Consecutive-last n first [] h = omega arith
Consecutive-last n first (m ∷ ms) h = omega (arith, Consecutive-last (n + 1) m ms h.1)

module _ {F : Type 0} where
  -- The batch in flight begins behind the last reported frame, and its counts are those of its range.
  abbrev pub InFlight : ℕ → Option (Pending F) → Type 0
  InFlight last none = Unit
  InFlight last (some p) =
      (p.batch.oldest_seq ≡ last + 1)
      × (p.batch.oldest_seq ≤ p.batch.newest_seq)
      × (p.batch.frames + p.batch.oldest_seq ≡ p.batch.newest_seq + 1)
      × (p.batch.audio_bytes ≡ p.batch.frames * frame_bytes)

  -- The last frame that is not in the buffer.
  abbrev pub taken : ℕ → Option (Pending F) → ℕ
  taken last none = last
  taken last (some p) = p.batch.newest_seq

  abbrev pub in_flight : Option (Pending F) → ℕ
  in_flight none = 0
  in_flight (some p) = 1

-- The fields of a connection that the ledger is about.
pub record Books (F T : Type 0) : Type 0 where
  pub ws : Option (List (Sent T))
  pub pending : Option (Pending F)
  pub pcm : List ℕ
  pub meta : List FrameMeta
  pub seq : ℕ

abbrev pub books : {F T : Type 0} → Conn F T → Books F T
books c = record { ws = c.ws; pending = c.pending; pcm = c.pcm; meta = c.meta; seq = c.seq }

module _ {F T : Type 0} where
  pub record IsAccounted (rs : List (ℕ × ℕ)) (c : Books F T) : Type 0 where
    pub tiles : Tiles 0 rs
    pub flight : InFlight (end_of 0 rs) c.pending
    pub buffered : Consecutive (taken (end_of 0 rs) c.pending) c.meta
    pub counted : c.seq ≡ taken (end_of 0 rs) c.pending + length c.meta
    pub sized : length c.pcm ≡ length c.meta * frame_bytes
    pub unopened : c.ws ≡ none → (c.pending ≡ none) × (c.meta ≡ [])

  module _ (from_str : T → Option (ServerMessage F)) where
    responses-append :
        (xs ys : List (Sent T))
        → responses from_str (xs ++ ys) ≡ responses from_str xs ++ responses from_str ys
    responses-append [] ys = refl
    responses-append (x ∷ xs) ys =
        ap (◌++◌ (response from_str x)) (responses-append xs ys)
        ∙ sym (append_assoc (response from_str x) (responses from_str xs) (responses from_str ys))

    -- What the client has been told.
    abbrev pub reported : Option (List (Sent T)) → List (ℕ × ℕ)
    reported none = []
    reported (some out) = ranges from_str out

    pub record Ledger (rs : List (ℕ × ℕ)) (c : Books F T) : Type 0 where
      pub reports : reported c.ws ≡ rs
      pub accounts : IsAccounted rs c

    pub ranges-append :
        (xs ys : List (Sent T))
        → ranges from_str (xs ++ ys) ≡ ranges from_str xs ++ ranges from_str ys
    ranges-append xs ys =
        ap (List.map range_of) (responses-append xs ys)
        ∙ map-append range_of (responses from_str xs) (responses from_str ys)
