-- ===== src/Common/Bits.antt =====
-- Laws of exclusive or on the native numbers, by recursion on their binary digits.
use Prim.Native.Nat.{
  ℕ, zero, suc, ◌+◌, ◌*◌, ◌/◌, ◌%◌, ◌^◌, ◌≤◌, ◌<◌, bit_xor, digits, bit_xor-bitwise, differ,
}
use mathlib.Core.Path.{◌≡◌, refl, ap}
use native.Mathlib.Nat.{pow-suc}
use native.Mathlib.Omega.{arith}

abbrev same : ℕ → ℕ
same b = b

-- A greater fuel changes nothing once it is at least the first number.
greater_fuel :
    (big fuel y x : ℕ)
    → fuel ≤ big
    → x ≤ fuel
    → digits same differ big x y ≡ digits same differ fuel x y
greater_fuel big zero y (suc x) k enough = absurd (omega (arith, enough))
greater_fuel zero (suc fuel) y x k enough = absurd (omega (arith, k))
greater_fuel (suc big) (suc fuel) y (suc x) k enough =
    ap (λ high. high * 2 + differ (suc x % 2) (y % 2))
      (greater_fuel big fuel (y / 2) (suc x / 2) (omega arith) (omega arith))
greater_fuel (suc big) (suc fuel) y zero k enough = refl
greater_fuel (suc big) zero y zero k enough = refl
greater_fuel zero zero y zero k enough = refl

-- On single digits `differ` is addition modulo 2.
differ-add : (x y : ℕ) → x < 2 → y < 2 → differ x y ≡ (x + y) % 2
differ-add zero zero p q = refl
differ-add zero (suc zero) p q = refl
differ-add (suc zero) zero p q = refl
differ-add (suc zero) (suc zero) p q = refl
differ-add (suc (suc x)) y p q = absurd (omega arith)
differ-add zero (suc (suc y)) p q = absurd (omega arith)
differ-add (suc zero) (suc (suc y)) p q = absurd (omega arith)

xor_zero_left : (b : ℕ) → bit_xor zero b ≡ b
xor_zero_left b = bit_xor-bitwise zero b

xor_suc_step :
    (a b : ℕ) → bit_xor (suc a) b ≡ bit_xor (suc a / 2) (b / 2) * 2 + differ (suc a % 2) (b % 2)
xor_suc_step a b = omega (
  arith,
  bit_xor-bitwise (suc a) b,
  bit_xor-bitwise (suc a / 2) (b / 2),
  greater_fuel a (suc a / 2) (b / 2) (suc a / 2) (omega arith) (omega arith),
)

-- One equation for the lowest digit.
pub bit_xor_step : (a b : ℕ) → bit_xor a b ≡ bit_xor (a / 2) (b / 2) * 2 + (a + b) % 2
bit_xor_step zero b = omega (arith, xor_zero_left b, xor_zero_left (b / 2))
bit_xor_step (suc a) b =
    omega (arith, xor_suc_step a b, differ-add (suc a % 2) (b % 2) (omega arith) (omega arith))

xor_cancel_fuel : (n a b c : ℕ) → a ≤ n → c ≤ n → bit_xor a b ≡ bit_xor c b → a ≡ c
xor_cancel_fuel zero a b c p q e = omega arith
xor_cancel_fuel (suc n) zero b zero p q e = refl
xor_cancel_fuel (suc n) a b c p q e = omega (
  arith,
  bit_xor_step a b,
  bit_xor_step c b,
  xor_cancel_fuel n (a / 2) (b / 2) (c / 2) (omega arith) (omega arith)
      (omega (arith, bit_xor_step a b, bit_xor_step c b)),
)

-- Exclusive or with a fixed number is injective.
pub xor_cancel : (a b c : ℕ) → bit_xor a b ≡ bit_xor c b → a ≡ c
xor_cancel a b c e = xor_cancel_fuel (a + c) a b c (omega arith) (omega arith) e

xor_comm_fuel : (n a b : ℕ) → a ≤ n → b ≤ n → bit_xor a b ≡ bit_xor b a
xor_comm_fuel zero zero zero p q = refl
xor_comm_fuel zero (suc a) b p q = absurd (omega arith)
xor_comm_fuel zero zero (suc b) p q = absurd (omega arith)
xor_comm_fuel (suc n) zero zero p q = refl
xor_comm_fuel (suc n) a b p q = omega (
  arith,
  bit_xor_step a b,
  bit_xor_step b a,
  xor_comm_fuel n (a / 2) (b / 2) (omega arith) (omega arith),
)

pub xor_comm : (a b : ℕ) → bit_xor a b ≡ bit_xor b a
xor_comm a b = xor_comm_fuel (a + b) a b (omega arith) (omega arith)

pub xor_lt : (k a b : ℕ) → a < 2 ^ k → b < 2 ^ k → bit_xor a b < 2 ^ k
xor_lt zero zero zero p q = omega arith
xor_lt zero (suc a) b p q = absurd (omega arith)
xor_lt zero zero (suc b) p q = absurd (omega arith)
xor_lt (suc k) a b p q = omega (
  arith,
  pow-suc 2 k,
  bit_xor_step a b,
  xor_lt k (a / 2) (b / 2) (omega (arith, pow-suc 2 k)) (omega (arith, pow-suc 2 k)),
)
