-- ===== src/Common/Counts.antt =====
-- A `BTreeMap` of counters: an association list in the order of its keys. The order of the keys is an
-- instance argument.
use Prim.Native.Nat.{ℕ, ◌+◌, Ordering}
use Prim.Native.Nat.Ordering.{lt, eq, gt}
use mathlib.Core.Path.{◌≡◌, refl, ap}
use mathlib.Core.List.{List, [], ◌∷◌}
use native.Mathlib.Omega.{arith}

pub record Key {ℓ} (K : Type ℓ) : Type ℓ where
  pub cmp : K → K → Ordering
  pub eq_of_cmp : (a b : K) → cmp a b ≡ eq → a ≡ b

module _ {ℓ} {K : Type ℓ} ⦃o : Key K⦄ where
  -- `*counts.entry(k).or_default() += 1`
  unfoldable pub bump : K → List (K × ℕ) → List (K × ℕ)
  bump k [] = (k, 1) ∷ []
  bump k ((j, n) ∷ rest) = elim (o.cmp k j) [
    | lt ↦ (k, 1) ∷ (j, n) ∷ rest
    | eq ↦ (j, n + 1) ∷ rest
    | gt ↦ (j, n) ∷ bump k rest
  ]

  abbrev pub hit : K → K → ℕ
  hit k j = elim (o.cmp k j) [ eq ↦ 1 | _ ↦ 0 ]

  abbrev part : K → K → ℕ → ℕ
  part k j n = elim (o.cmp k j) [ eq ↦ n | _ ↦ 0 ]

  -- What a key counts, and all that is counted.
  unfoldable pub count_of : K → List (K × ℕ) → ℕ
  count_of k [] = 0
  count_of k ((j, n) ∷ rest) = part k j n + count_of k rest

  unfoldable pub total : List (K × ℕ) → ℕ
  total [] = 0
  total ((j, n) ∷ rest) = n + total rest

  pub total-bump : (k : K) (m : List (K × ℕ)) → total (bump k m) ≡ total m + 1
  unfolding bump total
  total-bump k [] = omega arith
  total-bump k ((j, n) ∷ rest) = by_order (o.cmp k j) (total-bump k rest)
    where
      by_order :
          (c : Ordering)
          → total (bump k rest) ≡ total rest + 1
          → total (elim c [
            | lt ↦ (k, 1) ∷ (j, n) ∷ rest
            | eq ↦ (j, n + 1) ∷ rest
            | gt ↦ (j, n) ∷ bump k rest
          ])
            ≡ n + total rest + 1
      by_order lt ih = omega arith
      by_order eq ih = omega arith
      by_order gt ih = omega (arith, ih)

  part-suc : (k j : K) (n : ℕ) → part k j (n + 1) ≡ part k j n + hit k j
  part-suc k j n = ground arith

  part_one : (k j : K) → part k j 1 ≡ hit k j
  part_one k j = ground arith

  pub count_of-bump : (k j : K) (m : List (K × ℕ)) → count_of k (bump j m) ≡ count_of k m + hit k j
  unfolding bump count_of
  count_of-bump k j [] = omega (arith, part_one k j)
  count_of-bump k j ((i, n) ∷ rest) = by_order (o.cmp j i) refl (count_of-bump k j rest)
    where
      by_order :
          (c : Ordering)
          → o.cmp j i ≡ c
          → count_of k (bump j rest) ≡ count_of k rest + hit k j
          → count_of k (elim c [
            | lt ↦ (j, 1) ∷ (i, n) ∷ rest
            | eq ↦ (i, n + 1) ∷ rest
            | gt ↦ (i, n) ∷ bump j rest
          ])
            ≡ part k i n + count_of k rest + hit k j
      by_order lt e ih = omega (arith, part_one k j)
      by_order eq e ih = omega (arith, part-suc k i n, ap (hit k) (o.eq_of_cmp j i e))
      by_order gt e ih = omega (arith, ih)
