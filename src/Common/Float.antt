-- ===== src/Common/Float.antt =====
-- The operations on `f64` that the programs use. Floats are a parameter of the model: a carrier
-- with these operations, of which nothing more is assumed than a theorem names.
use Prim.Native.Nat.{ℕ}
use mathlib.Core.Bool.{Bool, true}

pub record Float64 (F : Type 0) : Type 0 where
  pub of_nat : ℕ → F  -- `x as f64`, and literals with an integral value
  pub tolerance : F  -- the literal 1e-6
  pub as_secs_f64 : ℕ → F  -- `Duration::as_secs_f64` of a number of nanoseconds
  pub add : F → F → F
  pub sub : F → F → F
  pub mul : F → F → F
  pub div : F → F → F
  pub sqrt : F → F
  pub abs : F → F
  pub max : F → F → F
  pub leb : F → F → Bool  -- `a <= b`
  pub is_finite : F → Bool
  pub round_u64 : F → ℕ  -- `x.round() as u64`

module _ {F : Type 0} (fl : Float64 F) where
  -- `now.saturating_duration_since(earlier).as_secs_f64() * 1000.0`, given the nanoseconds.
  abbrev pub millis_f64 : ℕ → F
  millis_f64 nanos = fl.mul (fl.as_secs_f64 nanos) (fl.of_nat 1000)

-- Floats without information, for the tests.
abbrev pub unit_floats : Float64 Unit
unit_floats = record {
  of_nat = λ n. tt;
  tolerance = tt;
  as_secs_f64 = λ n. tt;
  add = λ x y. tt;
  sub = λ x y. tt;
  mul = λ x y. tt;
  div = λ x y. tt;
  sqrt = λ x. tt;
  abs = λ x. tt;
  max = λ x y. tt;
  leb = λ x y. true;
  is_finite = λ x. true;
  round_u64 = λ x. 0;
}
