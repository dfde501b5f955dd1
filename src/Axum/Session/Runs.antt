-- ===== src/Axum/Session/Runs.antt =====
-- services/rust-axum/src/session.rs: consecutive frames, and ranges that continue one another.
use websocket_stt_bench.Common.{ℕ, ◌+◌, ◌≤◌, ◌≡◌, refl, arith, List, [], ◌∷◌, ◌++◌, length, last_or}
use websocket_stt_bench.Loadgen.Verify.Coverage.{Tiles, end_of}
use websocket_stt_bench.Axum.Protocol.{Frame}

-- The frames are numbered one after the other, behind `last` and up to `n`.
abbrev pub Run : ℕ → List Frame → ℕ → Type 0
Run last [] n = last ≡ n
Run last (f ∷ fs) n = (f.seq ≡ last + 1) × Run f.seq fs n

pub Run-snoc :
    (last n : ℕ) (fs : List Frame) (g : Frame)
    → Run last fs n
    → g.seq ≡ n + 1
    → Run last (fs ++ g ∷ []) (n + 1)
Run-snoc last n [] g h e = (omega (arith, h, e), e)
Run-snoc last n (f ∷ fs) g h e = (h.0, Run-snoc f.seq n fs g h.1 e)

-- The frames behind a batch.
pub Run-behind :
    (f : Frame) (fs gs : List Frame) (n : ℕ)
    → Run f.seq (fs ++ gs) n
    → (f.seq ≤ (last_or f fs).seq) × Run (last_or f fs).seq gs n
Run-behind f [] gs n h = (omega arith, h)
Run-behind f (g ∷ fs) gs n h =
    let (ordered, rest) = Run-behind g fs gs n h.1 in (omega (arith, h.0, ordered), rest)

pub Run-length : (last n : ℕ) (fs : List Frame) → Run last fs n → n ≡ last + length fs
Run-length last n [] h = omega (arith, h)
Run-length last n (f ∷ fs) h = omega (arith, h.0, Run-length f.seq n fs h.1)

-- The length of a batch of consecutive frames.
pub Run-range :
    (f : Frame) (fs : List Frame) (n : ℕ)
    → Run f.seq fs n
    → ((last_or f fs).seq ≡ n) × (n + 1 ≡ f.seq + length (f ∷ fs))
Run-range f [] n h = (h, omega (arith, h))
Run-range f (g ∷ fs) n h = let (e, l) = Run-range g fs n h.1 in (e, omega (arith, l, h.0))

pub Tiles-snoc :
    (a oldest newest : ℕ) (rs : List (ℕ × ℕ))
    → Tiles a rs
    → oldest ≡ end_of a rs + 1
    → oldest ≤ newest
    → Tiles a (rs ++ (oldest, newest) ∷ []) × (end_of a (rs ++ (oldest, newest) ∷ []) ≡ newest)
Tiles-snoc a oldest newest [] t e o = ((e, o, tt), refl)
Tiles-snoc a oldest newest ((x, y) ∷ rs) t e o =
    let (further, end) = Tiles-snoc y oldest newest rs t.2 e o in ((t.0, t.1, further), end)

pub Tiles-prefix : (a : ℕ) (rs qs : List (ℕ × ℕ)) → Tiles a (rs ++ qs) → Tiles a rs
Tiles-prefix a [] qs t = tt
Tiles-prefix a ((x, y) ∷ rs) qs t = (t.0, t.1, Tiles-prefix y rs qs t.2)

-- The batch itself.
pub Run-front :
    (f : Frame) (fs gs : List Frame) (n : ℕ)
    → Run f.seq (fs ++ gs) n
    → Run f.seq fs (last_or f fs).seq
Run-front f [] gs n h = refl
Run-front f (g ∷ fs) gs n h = (h.0, Run-front g fs gs n h.1)

Tiles-le : (a : ℕ) (rs : List (ℕ × ℕ)) → Tiles a rs → a ≤ end_of a rs
Tiles-le a [] t = omega arith
Tiles-le a ((x, y) ∷ rs) t = omega (arith, Tiles-le y rs t.2)

-- A range in the middle starts where the ones before it end.
pub Tiles-middle :
    (a : ℕ) (rs : List (ℕ × ℕ)) (x y : ℕ) (qs : List (ℕ × ℕ))
    → Tiles a (rs ++ (x, y) ∷ qs)
    → (x ≡ end_of a rs + 1) × (x ≤ y) × (y ≤ end_of a (rs ++ (x, y) ∷ qs))
Tiles-middle a [] x y qs t = (t.0, t.1, Tiles-le y qs t.2)
Tiles-middle a ((u, v) ∷ rs) x y qs t = Tiles-middle v rs x y qs t.2
