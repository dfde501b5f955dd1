-- ===== src/Loadgen/Protocol/Mix.antt =====
-- loadgen/rust/src/protocol.rs: `mix64` is a bijection of the 64-bit numbers.
use native.Mathlib.Nat.{div-div-eq-div-mul, div-le_self, pow-suc, mul_comm}
use websocket_stt_bench.Common.{
  ℕ, zero, suc, ◌+◌, ◌*◌, ◌/◌, ◌%◌, ◌^◌, ◌≤◌, ◌<◌, ◌≡◌, refl, ap, sym, ◌∙◌, arith, bit_xor,
}
use websocket_stt_bench.Common.Bits.{bit_xor_step, xor_cancel, xor_comm, xor_lt}
use websocket_stt_bench.Loadgen.Protocol.{
  xorshift, mix_mul_first, mix_mul_second, mix64, payload_seed,
}

div_one : (x : ℕ) → x / 2 ^ 0 ≡ x
div_one x = omega arith

half-div-pow : (x k : ℕ) → x / 2 / 2 ^ k ≡ x / 2 ^ suc k
half-div-pow x k =
    div-div-eq-div-mul x 2 (2 ^ k) ∙ ap (λ (d : ℕ). x / d) (mul_comm 2 (2 ^ k) ∙ sym (pow-suc 2 k))

xor-half : (a b : ℕ) → bit_xor a b / 2 ≡ bit_xor (a / 2) (b / 2)
xor-half a b = omega (arith, bit_xor_step a b)

-- A right shift distributes over exclusive or.
xor-div-pow : (k a b : ℕ) → bit_xor a b / 2 ^ k ≡ bit_xor (a / 2 ^ k) (b / 2 ^ k)
xor-div-pow zero a b = simp div_one
xor-div-pow (suc k) a b =
    sym (half-div-pow (bit_xor a b) k)
    ∙ ap (λ (d : ℕ). d / 2 ^ k) (xor-half a b)
    ∙ xor-div-pow k (a / 2) (b / 2)
    ∙ rw (half-div-pow a k, half-div-pow b k)

xorshift-div : (k x : ℕ) → xorshift k x / 2 ^ k ≡ xorshift k (x / 2 ^ k)
unfolding xorshift
xorshift-div k x = xor-div-pow k x (x / 2 ^ k)

div-pow-lt : (k n x : ℕ) → x ≤ suc n → x / 2 ^ suc k ≤ n
div-pow-lt k n x h = omega (arith, half-div-pow x k, div-le_self (x / 2) (2 ^ k))

xorshift_inj_fuel : (n k x y : ℕ) → x ≤ n → y ≤ n → xorshift (suc k) x ≡ xorshift (suc k) y → x ≡ y
unfolding xorshift
xorshift_inj_fuel zero k x y p q e = omega arith
xorshift_inj_fuel (suc n) k x y p q e = same_high (
    xorshift_inj_fuel n k (x / 2 ^ suc k) (y / 2 ^ suc k) (div-pow-lt k n x p) (div-pow-lt k n y q)
      high)
  where
    same_high : x / 2 ^ suc k ≡ y / 2 ^ suc k → x ≡ y
    same_high d = xor_cancel x (x / 2 ^ suc k) y (e ∙ ap (bit_xor y) (sym d))

    high : xorshift (suc k) (x / 2 ^ suc k) ≡ xorshift (suc k) (y / 2 ^ suc k)
    high = sym (xorshift-div (suc k) x) ∙ ap (λ (d : ℕ). d / 2 ^ suc k) e ∙ xorshift-div (suc k) y

-- Exclusive or with a number's own right shift by at least one place loses nothing.
xorshift_inj : (k x y : ℕ) → xorshift (suc k) x ≡ xorshift (suc k) y → x ≡ y
xorshift_inj k x y e = xorshift_inj_fuel (x + y) k x y (omega arith) (omega arith) e

xorshift-lt : (k x : ℕ) → x < 2 ^ 64 → xorshift k x < 2 ^ 64
unfolding xorshift
xorshift-lt k x h = xor_lt 64 x (x / 2 ^ k) h (omega (arith, div-le_self x (2 ^ k)))

-- The two multipliers are odd, so they have inverses modulo 2^64.
mul_first_cancel :
    (x y : ℕ)
    → x < 2 ^ 64
    → y < 2 ^ 64
    → x * mix_mul_first % 2 ^ 64 ≡ y * mix_mul_first % 2 ^ 64
    → x ≡ y
mul_first_cancel x y hx hy e =
    sym (back x hx) ∙ ap (λ (t : ℕ). t * 10871156337175269513 % 2 ^ 64) e ∙ back y hy
  where
    back : (z : ℕ) → z < 2 ^ 64 → (z * mix_mul_first % 2 ^ 64) * 10871156337175269513 % 2 ^ 64 ≡ z
    back z h = omega arith

mul_second_cancel :
    (x y : ℕ)
    → x < 2 ^ 64
    → y < 2 ^ 64
    → x * mix_mul_second % 2 ^ 64 ≡ y * mix_mul_second % 2 ^ 64
    → x ≡ y
mul_second_cancel x y hx hy e =
    sym (back x hx) ∙ ap (λ (t : ℕ). t * 3573116690164977347 % 2 ^ 64) e ∙ back y hy
  where
    back : (z : ℕ) → z < 2 ^ 64 → (z * mix_mul_second % 2 ^ 64) * 3573116690164977347 % 2 ^ 64 ≡ z
    back z h = omega arith

abbrev first_round : ℕ → ℕ
first_round z = xorshift 30 z * mix_mul_first % 2 ^ 64

abbrev second_round : ℕ → ℕ
second_round z = xorshift 27 z * mix_mul_second % 2 ^ 64

first_round_inj : (x y : ℕ) → x < 2 ^ 64 → y < 2 ^ 64 → first_round x ≡ first_round y → x ≡ y
first_round_inj x y hx hy e =
    xorshift_inj 29 x y (
      mul_first_cancel (xorshift 30 x) (xorshift 30 y) (xorshift-lt 30 x hx) (xorshift-lt 30 y hy)
        e)

second_round_inj : (x y : ℕ) → x < 2 ^ 64 → y < 2 ^ 64 → second_round x ≡ second_round y → x ≡ y
second_round_inj x y hx hy e = xorshift_inj 26 x y (
    mul_second_cancel (xorshift 27 x) (xorshift 27 y) (xorshift-lt 27 x hx) (xorshift-lt 27 y hy) e)

mix64_rounds : (z : ℕ) → mix64 z ≡ xorshift 31 (second_round (first_round z))
unfolding mix64
mix64_rounds z = refl

pub mix64-lt : (z : ℕ) → mix64 z < 2 ^ 64
mix64-lt z = rw mix64_rounds (xorshift-lt 31 (second_round (first_round z)) (omega arith))

-- `mix64` maps the 64-bit numbers to 64-bit numbers, and different ones to different ones, so it
-- permutes them.
pub mix64_bijective :
    (x y : ℕ) → x < 2 ^ 64 → y < 2 ^ 64 → (mix64 x < 2 ^ 64) × (mix64 x ≡ mix64 y → x ≡ y)
mix64_bijective x y hx hy = (
  mix64-lt x,
  λ e. first_round_inj x y hx hy (
      second_round_inj (first_round x) (first_round y) (omega arith) (omega arith) (
        xorshift_inj 30 (second_round (first_round x)) (second_round (first_round y))
          (sym (mix64_rounds x) ∙ e ∙ mix64_rounds y))),
)

-- Within one session, different frame numbers give different seeds.
pub payload_seed_inj :
    (session_id p q : ℕ)
    → p < 2 ^ 64
    → q < 2 ^ 64
    → payload_seed session_id p ≡ payload_seed session_id q
    → p ≡ q
unfolding payload_seed
payload_seed_inj session_id p q hp hq e = xor_cancel p (mix64 session_id) q (
    xor_comm p (mix64 session_id)
    ∙ (mix64_bijective (bit_xor (mix64 session_id) p) (bit_xor (mix64 session_id) q)
          (xor_lt 64 (mix64 session_id) p (mix64-lt session_id) hp)
          (xor_lt 64 (mix64 session_id) q (mix64-lt session_id) hq)).1
        e
    ∙ xor_comm (mix64 session_id) q)
