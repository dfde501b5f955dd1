-- ===== src/Stub/Bounds.antt =====
-- crates/stt-stub/src/lib.rs: the ranges of the stub's counters, which show that none of them can
-- wrap at its machine width for payloads that fit in memory.
use websocket_stt_bench.Common.{
  ℕ, zero, suc, ◌+◌, ◌*◌, ◌-◌, ◌/◌, ◌%◌, ◌^◌, ◌≤◌, ◌<◌, ◌≡◌, refl, ap, List, [], ◌∷◌, arith, String,
  false, str_eq, length, get_or, All,
}
use websocket_stt_bench.Common.Int.{ℤ, pos_part, neg_part, square}
use websocket_stt_bench.Common.Float.{Float64}
use websocket_stt_bench.Stub.{
  Scan, scan_start, le_samples, fnv_step, adjusted, scan_sample, scan_pass, scan_passes,
  transcript_pool, compute_stub,
}

abbrev pub IsByte : ℕ → Type 0
IsByte b = b < 256

-- The magnitude of an `i16`.
abbrev pub IsSample : ℤ → Type 0
IsSample x = pos_part x + neg_part x ≤ 2 ^ 15

pub record InRange (s : Scan) : Type 0 where
  pub checksum_fits : s.checksum < 2 ^ 32
  pub crossings_le : s.zero_crossings ≤ s.sample_count - 1
  pub squares_le : s.sum_squares ≤ s.sample_count * 2 ^ 30

pub fnv_step-lt : (h a : ℕ) → fnv_step h a < 2 ^ 32
unfolding fnv_step
fnv_step-lt h a = omega arith

square-le : (x : ℤ) → IsSample x → square x ≤ 2 ^ 30
square-le x h = grind arith

scan_sample-InRange :
    (p : ℕ) (s : Scan) (x : ℤ) → IsSample x → InRange s → InRange (scan_sample p s x)
unfolding scan_sample
scan_sample-InRange p s x h v = record {
  checksum_fits = fnv_step-lt s.checksum (adjusted p x);
  crossings_le = ground (arith, v.crossings_le);
  squares_le = omega (arith, square-le x h, v.squares_le);
}

scan_pass-InRange :
    (p : ℕ) (s : Scan) (xs : List ℤ) → All IsSample xs → InRange s → InRange (scan_pass p s xs)
unfolding scan_pass
scan_pass-InRange p s [] h v = v
scan_pass-InRange p s (x ∷ xs) h v =
    scan_pass-InRange p (scan_sample p s x) xs h.1 (scan_sample-InRange p s x h.0 v)

pub scan_passes-InRange :
    (n p : ℕ) (s : Scan) (xs : List ℤ)
    → All IsSample xs
    → InRange s
    → InRange (scan_passes n p s xs)
unfolding scan_passes
scan_passes-InRange zero p s xs h v = v
scan_passes-InRange (suc n) p s xs h v =
    scan_passes-InRange n (p + 1) (scan_pass p s xs) xs h (scan_pass-InRange p s xs h v)

scan_pass-count :
    (p : ℕ) (s : Scan) (xs : List ℤ) → (scan_pass p s xs).sample_count ≡ s.sample_count + length xs
unfolding scan_pass
scan_pass-count p s [] = omega arith
scan_pass-count p s (x ∷ xs) = omega (arith, scan_pass-count p (scan_sample p s x) xs, count_one)
  where
    count_one : (scan_sample p s x).sample_count ≡ s.sample_count + 1
    count_one = refl

pub scan_passes-count :
    (n p : ℕ) (s : Scan) (xs : List ℤ)
    → (scan_passes n p s xs).sample_count ≡ s.sample_count + n * length xs
unfolding scan_passes
scan_passes-count zero p s xs = omega arith
scan_passes-count (suc n) p s xs =
    omega (arith, scan_pass-count p s xs, scan_passes-count n (p + 1) (scan_pass p s xs) xs)

pub length-le_samples : (bs : List ℕ) → length (le_samples bs) ≡ length bs / 2
unfolding le_samples
length-le_samples [] = refl
length-le_samples (b ∷ []) = omega arith
length-le_samples (lo ∷ hi ∷ rest) = omega (arith, length-le_samples rest)

pub le_samples-IsSample : (bs : List ℕ) → All IsByte bs → All IsSample (le_samples bs)
unfolding le_samples
le_samples-IsSample [] h = tt
le_samples-IsSample (b ∷ []) h = tt
le_samples-IsSample (lo ∷ hi ∷ rest) h =
    (ground (arith, h.0, h.1.0), le_samples-IsSample rest h.1.1)

InRange-start : InRange scan_start
InRange-start = omega arith

nonempty_get_or :
    (ts : List String) (i : ℕ)
    → All (λ t. str_eq t "" ≡ false) ts
    → i < length ts
    → str_eq (get_or ts i "") "" ≡ false
nonempty_get_or [] i h lt = elim lt [ ]
nonempty_get_or (t ∷ ts) zero h lt = h.0
nonempty_get_or (t ∷ ts) (suc i) h lt = nonempty_get_or ts i h.1 (omega arith)

pool_nonempty : All (λ t. str_eq t "" ≡ false) transcript_pool
pool_nonempty = ground arith

module _ {F : Type 0} (fl : Float64 F) (payload : List ℕ) (passes : ℕ) where
  -- The stub counts one sample for each two payload bytes and pass, so an odd trailing byte is not
  -- counted, while `audio_bytes` is the whole length.
  pub compute_stub-counts :
      ((compute_stub fl payload passes).samples ≡ passes * (length payload / 2))
      × ((compute_stub fl payload passes).audio_bytes ≡ length payload)
  unfolding compute_stub
  compute_stub-counts = (
    omega (
      arith,
      scan_passes-count passes 0 scan_start (le_samples payload),
      ap (λ (k : ℕ). passes * k) (length-le_samples payload),
    ),
    refl,
  )

  -- For any payload of bytes: the checksum is a `u32`, there are fewer zero crossings than samples
  -- (none if there is no sample), the sum of squares stays within 2^30 for each sample, and the
  -- transcript is never empty.
  pub compute_stub_ranges :
      All IsByte payload
      → let r = compute_stub fl payload passes in
        (r.checksum < 2 ^ 32)
        × (r.zero_crossings ≤ r.samples - 1)
        × ((scan_passes passes 0 scan_start (le_samples payload)).sum_squares ≤ r.samples * 2 ^ 30)
        × (str_eq r.transcript "" ≡ false)
  unfolding compute_stub
  compute_stub_ranges bytes = (
    end.checksum_fits,
    end.crossings_le,
    end.squares_le,
    nonempty_get_or transcript_pool (last.checksum % length transcript_pool) pool_nonempty
        (omega arith),
  )
    where
      last : Scan
      last = scan_passes passes 0 scan_start (le_samples payload)

      end : InRange (scan_passes passes 0 scan_start (le_samples payload))
      end =
          scan_passes-InRange passes 0 scan_start (le_samples payload)
            (le_samples-IsSample payload bytes) InRange-start
