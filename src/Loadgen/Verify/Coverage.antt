-- ===== src/Loadgen/Verify/Coverage.antt =====
-- loadgen/rust/src/verify.rs: what a session without a continuity mismatch covers.
use websocket_stt_bench.Common.{
  ℕ, ◌+◌, ◌≤◌, ◌<◌, ◌≡◌, ◌↔◌, ◌⊎◌, sym, ap, ◌∙◌, refl, ◌&&◌, Option, none, some, List, [], ◌∷◌,
  ◌++◌, arith, ltb, leb, if◌then◌else◌,
}
use websocket_stt_bench.Loadgen.Verify.{
  MismatchKind, Continuity, continuity_start, observe, check_tail, tail_tolerance_frames,
}

-- Every response of a session, in order of arrival: the tracker and all mismatches.
abbrev pub to_list : Option MismatchKind → List MismatchKind
to_list none = []
to_list (some k) = k ∷ []

unfoldable pub observe_all : Continuity → List (ℕ × ℕ) → Continuity × List MismatchKind
observe_all c [] = (c, [])
observe_all c ((oldest, newest) ∷ rest) =
    let (c', m) = observe c oldest newest in
    let (c'', ms) = observe_all c' rest in (c'', to_list m ++ ms)

-- The ranges continue one another without gap or overlap, from the frame after `last`.
abbrev pub Tiles : ℕ → List (ℕ × ℕ) → Type 0
Tiles last [] = Unit
Tiles last ((oldest, newest) ∷ rest) = (oldest ≡ last + 1) × (oldest ≤ newest) × Tiles newest rest

abbrev pub end_of : ℕ → List (ℕ × ℕ) → ℕ
end_of last [] = last
end_of last ((oldest, newest) ∷ rest) = end_of newest rest

-- The number of ranges that hold frame `k`.
abbrev pub covers : ℕ → List (ℕ × ℕ) → ℕ
covers k [] = 0
covers k ((oldest, newest) ∷ rest) = (if leb oldest k && leb k newest then 1 else 0) + covers k rest

-- One observation reports nothing exactly when the range is well formed and continues the last one.
pub observe-none_iff :
    (c : Continuity) (oldest newest : ℕ)
    → ((observe c oldest newest).1 ≡ none) ↔ ((oldest ≡ c.last_newest + 1) × (oldest ≤ newest))
unfolding observe
observe-none_iff c oldest newest = ground arith

pub observe-next :
    (c : Continuity) (oldest newest : ℕ)
    → oldest ≡ c.last_newest + 1
    → oldest ≤ newest
    → observe c oldest newest ≡ (record { last_newest = newest }, none)
unfolding observe
observe-next c oldest newest p q = ground arith

observe_all-cons :
    (c : Continuity) (oldest newest : ℕ) (rest : List (ℕ × ℕ))
    → oldest ≡ c.last_newest + 1
    → oldest ≤ newest
    → observe_all c ((oldest, newest) ∷ rest) ≡ observe_all (record { last_newest = newest }) rest
unfolding observe_all
observe_all-cons c oldest newest rest p q = rw (observe-next c oldest newest p q)

Tiles-observe_all :
    (c : Continuity) (rs : List (ℕ × ℕ))
    → Tiles c.last_newest rs
    → observe_all c rs ≡ (record { last_newest = end_of c.last_newest rs }, [])
Tiles-observe_all c [] t = unfold observe_all in refl
Tiles-observe_all c ((oldest, newest) ∷ rest) t =
    observe_all-cons c oldest newest rest t.0 t.1
    ∙ Tiles-observe_all (record { last_newest = newest }) rest t.2

append_none :
    (m : Option MismatchKind) (ms : List MismatchKind)
    → to_list m ++ ms ≡ []
    → (m ≡ none) × (ms ≡ [])
append_none none ms e = (refl, e)
append_none (some k) ms e = cc

observe_all-split :
    (c : Continuity) (oldest newest : ℕ) (rest : List (ℕ × ℕ))
    → (observe_all c ((oldest, newest) ∷ rest)).1 ≡ []
    → (oldest ≡ c.last_newest + 1) × (oldest ≤ newest)
unfolding observe_all
observe_all-split c oldest newest rest e =
    (observe-none_iff c oldest newest).0 (append_none (observe c oldest newest).1 _ e).0

observe_all-Tiles :
    (c : Continuity) (rs : List (ℕ × ℕ)) → (observe_all c rs).1 ≡ [] → Tiles c.last_newest rs
observe_all-Tiles c [] e = tt
observe_all-Tiles c ((oldest, newest) ∷ rest) e =
    let (next, ordered) = observe_all-split c oldest newest rest e in
    (
      next,
      ordered,
      observe_all-Tiles (record { last_newest = newest }) rest
          (sym (
              ap (λ (r : Continuity × List MismatchKind). r.1)
                (observe_all-cons c oldest newest rest next ordered))
            ∙ e),
    )

-- A session's tracker reports nothing exactly when the responses tile the frame sequence from the
-- frame after the last one reported, and then it ends at the last frame of the last response.
pub observe_all-nil_iff :
    (c : Continuity) (rs : List (ℕ × ℕ))
    → (((observe_all c rs).1 ≡ []) ↔ Tiles c.last_newest rs)
      × (Tiles c.last_newest rs → (observe_all c rs).0.last_newest ≡ end_of c.last_newest rs)
observe_all-nil_iff c rs = (
  (
    observe_all-Tiles c rs,
    λ t. ap (λ (r : Continuity × List MismatchKind). r.1) (Tiles-observe_all c rs t),
  ),
  λ t. ap (λ (r : Continuity × List MismatchKind). r.0.last_newest) (Tiles-observe_all c rs t),
)

-- A range at the end.
pub Tiles-snoc :
    (last : ℕ) (rs : List (ℕ × ℕ)) (o w : ℕ)
    → Tiles last rs
    → o ≡ end_of last rs + 1
    → o ≤ w
    → Tiles last (rs ++ (o, w) ∷ [])
Tiles-snoc last [] o w t p q = (p, q, tt)
Tiles-snoc last ((a, b) ∷ rs) o w t p q = (t.0, t.1, Tiles-snoc b rs o w t.2 p q)

pub end_of-snoc : (last : ℕ) (rs : List (ℕ × ℕ)) (o w : ℕ) → end_of last (rs ++ (o, w) ∷ []) ≡ w
end_of-snoc last [] o w = refl
end_of-snoc last ((a, b) ∷ rs) o w = end_of-snoc b rs o w

Tiles-le : (last : ℕ) (rs : List (ℕ × ℕ)) → Tiles last rs → last ≤ end_of last rs
Tiles-le last [] t = omega arith
Tiles-le last ((oldest, newest) ∷ rest) t = omega (arith, Tiles-le newest rest t.2)

Tiles-covers :
    (k last : ℕ) (rs : List (ℕ × ℕ))
    → Tiles last rs
    → covers k rs ≡ (if ltb last k && leb k (end_of last rs) then 1 else 0)
Tiles-covers k last [] t = ground arith
Tiles-covers k last ((oldest, newest) ∷ rest) t =
    ground (arith, Tiles-covers k newest rest t.2, Tiles-le newest rest t.2)

-- If neither continuity nor the tail check reports anything for a session that sent `sent` frames,
-- then every frame but the last `tail_tolerance_frames` was reported by exactly one response.
pub accepted_session_covers :
    (rs : List (ℕ × ℕ)) (sent k : ℕ)
    → (observe_all continuity_start rs).1 ≡ []
    → check_tail sent (observe_all continuity_start rs).0.last_newest ≡ none
    → 0 < k
    → k + tail_tolerance_frames ≤ sent
    → covers k rs ≡ 1
unfolding check_tail
accepted_session_covers rs sent k e tail pos_k early =
    Tiles-covers k 0 rs tiled ∙ ground (arith, last_eq)
  where
    tiled : Tiles 0 rs
    tiled = observe_all-Tiles continuity_start rs e

    last_eq : (observe_all continuity_start rs).0.last_newest ≡ end_of 0 rs
    last_eq = (observe_all-nil_iff continuity_start rs).1 tiled

-- Whatever arrives, the tracker never goes back, and it ends at a malformed range where it was: one
-- bad response is reported once, and a response that continues the highest frame so far is accepted.
pub observe_recovers :
    (c : Continuity) (oldest newest further : ℕ)
    → let c' = (observe c oldest newest).0 in
      (c.last_newest ≤ c'.last_newest)
      × ((newest < oldest) ⊎ (oldest ≡ 0) → c' ≡ c)
      × (c'.last_newest < further → (observe c' (c'.last_newest + 1) further).1 ≡ none)
unfolding observe
observe_recovers c oldest newest further = (ground arith, (λ h. ground arith), (λ h. ground arith))
