-- ===== src/Stub/Detect.antt =====
-- crates/stt-stub/src/lib.rs: what a checksum tells apart.
use websocket_stt_bench.Common.{
  ℕ, ◌+◌, ◌*◌, ◌%◌, ◌^◌, ◌<◌, ◌≡◌, refl, sym, ap, ◌∙◌, List, [], ◌∷◌, ◌++◌, arith, length,
}
use websocket_stt_bench.Common.Bits.{xor_cancel, xor_comm, xor_lt}
use websocket_stt_bench.Common.Int.{ℤ, as_i16}
use websocket_stt_bench.Common.Float.{Float64}
use websocket_stt_bench.Stub.{
  Scan, scan_start, le_samples, fnv_step, adjusted, scan_sample, scan_pass, compute_stub, fnv_prime,
}
use websocket_stt_bench.Stub.Bounds.{IsByte, fnv_step-lt}

-- 899433627 is the inverse of the FNV prime modulo 2^32.
fnv_mul_cancel :
    (x y : ℕ) → x < 2 ^ 32 → y < 2 ^ 32 → x * fnv_prime % 2 ^ 32 ≡ y * fnv_prime % 2 ^ 32 → x ≡ y
fnv_mul_cancel x y hx hy e = omega (arith, back x hx, back y hy, again)
  where
    back : (z : ℕ) → z < 2 ^ 32 → (z * fnv_prime % 2 ^ 32) * 899433627 % 2 ^ 32 ≡ z
    back z h = omega arith

    again :
        (x * fnv_prime % 2 ^ 32) * 899433627 % 2 ^ 32
        ≡ (y * fnv_prime % 2 ^ 32) * 899433627 % 2 ^ 32
    again = rw e

-- A step is injective in the running checksum and in the sample.
fnv_step_inj_left :
    (g h a : ℕ) → g < 2 ^ 32 → h < 2 ^ 32 → a < 2 ^ 16 → fnv_step g a ≡ fnv_step h a → g ≡ h
unfolding fnv_step
fnv_step_inj_left g h a hg hh ha e =
    xor_cancel g a h
      (fnv_mul_cancel _ _ (xor_lt 32 g a hg (omega arith)) (xor_lt 32 h a hh (omega arith)) e)

fnv_step_inj_right :
    (h a b : ℕ) → h < 2 ^ 32 → a < 2 ^ 16 → b < 2 ^ 16 → fnv_step h a ≡ fnv_step h b → a ≡ b
unfolding fnv_step
fnv_step_inj_right h a b hh ha hb e = xor_cancel a h b (
    rw (xor_comm a h, xor_comm b h)
      (fnv_mul_cancel _ _ (xor_lt 32 h a hh (omega arith)) (xor_lt 32 h b hh (omega arith)) e))

adjusted-lt : (p : ℕ) (x : ℤ) → adjusted p x < 2 ^ 16
unfolding adjusted
adjusted-lt p x = omega arith

-- Two samples that are different as bit patterns stay different.
adjusted_inj :
    (u v : ℕ) → u < 2 ^ 16 → v < 2 ^ 16 → adjusted 0 (as_i16 u) ≡ adjusted 0 (as_i16 v) → u ≡ v
unfolding adjusted
adjusted_inj u v hu hv e = ground arith

-- Scanning the same samples keeps two different checksums apart.
scan_pass_separates :
    (p : ℕ) (s t : Scan) (xs : List ℤ)
    → s.checksum < 2 ^ 32
    → t.checksum < 2 ^ 32
    → (scan_pass p s xs).checksum ≡ (scan_pass p t xs).checksum
    → s.checksum ≡ t.checksum
unfolding scan_pass
scan_pass_separates p s t [] hs ht e = e
scan_pass_separates p s t (x ∷ xs) hs ht e =
    fnv_step_inj_left s.checksum t.checksum (adjusted p x) hs ht (adjusted-lt p x) (
      scan_pass_separates p (scan_sample p s x) (scan_sample p t x) xs
        (fnv_step-lt s.checksum (adjusted p x)) (fnv_step-lt t.checksum (adjusted p x)) e)

scan_pass-checksum-lt :
    (p : ℕ) (s : Scan) (xs : List ℤ) → s.checksum < 2 ^ 32 → (scan_pass p s xs).checksum < 2 ^ 32
unfolding scan_pass
scan_pass-checksum-lt p s [] h = h
scan_pass-checksum-lt p s (x ∷ xs) h =
    scan_pass-checksum-lt p (scan_sample p s x) xs (fnv_step-lt s.checksum (adjusted p x))

scan_pass-append :
    (p : ℕ) (s : Scan) (xs ys : List ℤ)
    → scan_pass p s (xs ++ ys) ≡ scan_pass p (scan_pass p s xs) ys
unfolding scan_pass
scan_pass-append p s [] ys = refl
scan_pass-append p s (x ∷ xs) ys = scan_pass-append p (scan_sample p s x) xs ys

le_samples-append :
    (pre rest : List ℕ)
    → length pre % 2 ≡ 0
    → le_samples (pre ++ rest) ≡ le_samples pre ++ le_samples rest
unfolding le_samples
le_samples-append [] rest h = refl
le_samples-append (b ∷ []) rest h = absurd (omega arith)
le_samples-append (lo ∷ hi ∷ pre) rest h =
    ap (◌∷◌ (as_i16 (lo + hi * 256))) (le_samples-append pre rest (omega arith))

-- The sample after a common prefix is determined by the checksum after a common suffix.
scan_pass_inj :
    (s : Scan) (u v : ℕ) (xs : List ℤ)
    → s.checksum < 2 ^ 32
    → u < 2 ^ 16
    → v < 2 ^ 16
    → (scan_pass 0 s (as_i16 u ∷ xs)).checksum ≡ (scan_pass 0 s (as_i16 v ∷ xs)).checksum
    → u ≡ v
unfolding scan_pass
scan_pass_inj s u v xs hs hu hv e = adjusted_inj u v hu hv (
    fnv_step_inj_right s.checksum a b hs (adjusted-lt 0 (as_i16 u)) (adjusted-lt 0 (as_i16 v)) (
      scan_pass_separates 0 (scan_sample 0 s (as_i16 u)) (scan_sample 0 s (as_i16 v)) xs
        (fnv_step-lt s.checksum a) (fnv_step-lt s.checksum b) e))
  where
    a : ℕ
    a = adjusted 0 (as_i16 u)

    b : ℕ
    b = adjusted 0 (as_i16 v)

module _ {F : Type 0} (fl : Float64 F) (pre post : List ℕ) (lo hi lo' hi' : ℕ) where
  -- In one pass the checksum tells any two payloads apart that differ in a single sample: if it is
  -- the same after bytes `lo hi` as after `lo' hi'`, with the same even number of bytes before and
  -- the same bytes behind, then the two samples are the same.
  pub one_sample_detected :
      length pre % 2 ≡ 0
      → IsByte lo
      → IsByte hi
      → IsByte lo'
      → IsByte hi'
      → (compute_stub fl (pre ++ lo ∷ hi ∷ post) 1).checksum
        ≡ (compute_stub fl (pre ++ lo' ∷ hi' ∷ post) 1).checksum
      → (lo ≡ lo') × (hi ≡ hi')
  unfolding compute_stub
  one_sample_detected even blo bhi blo' bhi' e = (omega (arith, same), omega (arith, same))
    where
      tails : (u v : ℕ) → Scan
      tails u v = scan_pass 0 (scan_pass 0 scan_start (le_samples pre)) (le_samples (u ∷ v ∷ post))

      split : (u v : ℕ) → scan_pass 0 scan_start (le_samples (pre ++ u ∷ v ∷ post)) ≡ tails u v
      split u v =
          rw (le_samples-append pre (u ∷ v ∷ post) even)
            (scan_pass-append 0 scan_start (le_samples pre) (le_samples (u ∷ v ∷ post)))

      same : lo + hi * 256 ≡ lo' + hi' * 256
      same =
          scan_pass_inj (scan_pass 0 scan_start (le_samples pre)) (lo + hi * 256) (lo' + hi' * 256)
            (le_samples post) (scan_pass-checksum-lt 0 scan_start (le_samples pre) (omega arith))
            (omega arith) (omega arith)
            (sym (ap (λ (s : Scan). s.checksum) (split lo hi))
              ∙ e
              ∙ ap (λ (s : Scan). s.checksum) (split lo' hi'))
