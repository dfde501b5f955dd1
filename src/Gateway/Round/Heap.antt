-- ===== src/Gateway/Round/Heap.antt =====
-- services/rust-sync/src/main.rs: what `pop_min` takes from the timers, and reads and writes of the map of
-- connections.
use websocket_stt_bench.Common.{
  ℕ, ◌≤◌, ◌≡◌, ◌≢◌, refl, sym, arith, ◌&&◌, ◌||◌, Option, none, some, List, [], ◌∷◌, ltb, ◌==◌,
  if◌then◌else◌, All, subst, if_cases,
}
use websocket_stt_bench.Gateway.Session.{Conn}
use websocket_stt_bench.Gateway.Loop.{without}
use websocket_stt_bench.Gateway.Round.{pick_min, pop_min, find, put}

-- `zs` is `ys` without one entry `e`.
pub data Picked (e : ℕ × ℕ) : List (ℕ × ℕ) → List (ℕ × ℕ) → Type 0 where
  here : {ys : List (ℕ × ℕ)} → Picked e (e ∷ ys) ys
  there : {x : ℕ × ℕ} {ys zs : List (ℕ × ℕ)} → Picked e ys zs → Picked e (x ∷ ys) (x ∷ zs)

-- No entry is due before `t`.
abbrev pub AllFrom : ℕ → List (ℕ × ℕ) → Type 0
AllFrom t ys = All (λ (y : ℕ × ℕ). t ≤ y.0) ys

pub AllFrom-le : (t u : ℕ) (ys : List (ℕ × ℕ)) → t ≤ u → AllFrom u ys → AllFrom t ys
AllFrom-le t u [] h a = tt
AllFrom-le t u (y ∷ ys) h a = (omega (arith, h, a.0), AllFrom-le t u ys h a.1)

abbrev pub Least : List (ℕ × ℕ) → Option ((ℕ × ℕ) × List (ℕ × ℕ)) → Type 0
Least ys none = ys ≡ []
Least ys (some (e, zs)) = Picked e ys zs × AllFrom e.0 ys

pick_min-Least :
    (y : ℕ × ℕ) (ys : List (ℕ × ℕ)) (o : Option ((ℕ × ℕ) × List (ℕ × ℕ)))
    → Least ys o
    → Least (y ∷ ys) (pick_min y ys o)
pick_min-Least y ys none l = (here, (omega arith, subst (AllFrom y.0) (sym l) tt))
pick_min-Least y ys (some (m, others)) l =
    if_cases (Least (y ∷ ys)) (ltb m.0 y.0 || (m.0 == y.0 && ltb m.1 y.1))
      (λ on. (there l.0, (ground (arith, on), l.1)))
      (λ off. (here, (omega arith, AllFrom-le y.0 m.0 ys (ground (arith, off)) l.1)))

-- What `pop_min` takes is in the heap, and nothing in it is due earlier.
pub pop_min-Least : (ys : List (ℕ × ℕ)) → Least ys (pop_min ys)
unfolding pop_min
pop_min-Least [] = refl
pop_min-Least (y ∷ ys) = pick_min-Least y ys (pop_min ys) (pop_min-Least ys)

-- The instants of the timers of one connection.
abbrev pub times : ℕ → List (ℕ × ℕ) → List ℕ
times i [] = []
times i ((t, j) ∷ rest) = if j == i then t ∷ times i rest else times i rest

pub times-Picked_other :
    {e : ℕ × ℕ} {ys zs : List (ℕ × ℕ)} (i : ℕ) → Picked e ys zs → i ≢ e.1 → times i zs ≡ times i ys
times-Picked_other i here h = ground (arith, h)
times-Picked_other i (there {x = x} p) h = ground (arith, times-Picked_other i p h)

pub times-Picked_nil :
    {e : ℕ × ℕ} {ys zs : List (ℕ × ℕ)} (i : ℕ)
    → Picked e ys zs
    → times i ys ≡ []
    → (times i zs ≡ []) × (i ≢ e.1)
times-Picked_nil i here h = ground (arith, h)
times-Picked_nil i (there {x = x} p) h = ground (arith, h, times-Picked_nil i p)

pub times-Picked_own :
    {e : ℕ × ℕ} {ys zs : List (ℕ × ℕ)} (u : ℕ)
    → Picked e ys zs
    → times e.1 ys ≡ u ∷ []
    → times e.1 zs ≡ []
times-Picked_own u here h = ground (arith, h)
times-Picked_own {e = e} u (there {x = x} p) h =
    ground (arith, h, times-Picked_own u p, times-Picked_nil e.1 p)

-- Reads after writes.
module _ {F T : Type 0} where
  pub find-put :
      (i id : ℕ) (c d : Conn F T) (cs : List (ℕ × Conn F T))
      → find id cs ≡ some d
      → find i (put id c cs) ≡ (if id == i then some c else find i cs)
  unfolding find put
  find-put i id c d [] h = cc
  find-put i id c d ((j, e) ∷ rest) h = ground (arith, h, find-put i id c d rest)

  pub find-put_self :
      (id : ℕ) (c d : Conn F T) (cs : List (ℕ × Conn F T))
      → find id cs ≡ some d
      → find id (put id c cs) ≡ some c
  find-put_self id c d cs h = rw (find-put id id c d cs h) (ground arith)

  pub find-without :
      (i id : ℕ) (cs : List (ℕ × Conn F T))
      → find i (without id cs) ≡ (if id == i then none else find i cs)
  unfolding find without
  find-without i id [] = ground arith
  find-without i id ((j, e) ∷ rest) = ground (arith, find-without i id rest)
