-- ===== src/Loadgen/Driver/Schedule.antt =====
-- loadgen/rust/src/main.rs: when a session starts. Durations are numbers of nanoseconds, below 2 ^ 94.
use native.Mathlib.Nat.{
  add-mul, div-lt_iff_lt-mul, mul-le-mul_left, le-div_iff_mul-le, div-mul-le_self,
}
use websocket_stt_bench.Common.{
  ℕ, zero, suc, ◌+◌, ◌-◌, ◌*◌, ◌/◌, ◌^◌, ◌≤◌, ◌<◌, min, arith, ◌||◌, ◌==◌, if◌then◌else◌,
}

unfoldable pub scale_duration : (duration numerator denominator : ℕ) → ℕ
scale_duration duration numerator denominator =
    if (duration == 0) || (numerator == 0) || (denominator == 0)
    then 0
    else min (min (duration * numerator) (2 ^ 128 - 1) / denominator) (2 ^ 64 - 1)

unfoldable pub session_start_delay : (session_id sessions ramp_up session_start_spread : ℕ) → ℕ
unfolding scale_duration
session_start_delay session_id sessions ramp_up session_start_spread =
    if sessions == 0
    then 0
    else scale_duration ramp_up session_id sessions
      + scale_duration session_start_spread session_id sessions

abbrev pub measure_start_delay : (warmup ramp_up session_start_spread : ℕ) → ℕ
measure_start_delay warmup ramp_up session_start_spread = ramp_up + session_start_spread + warmup

div_mono : (x y k : ℕ) → 0 < k → x ≤ y → x / k ≤ y / k
div_mono x y k pos h = (le-div_iff_mul-le pos).1 (omega (arith, div-mul-le_self x k, h))

-- A product that is at most `d` times the divisor.
div_bound : (x d k : ℕ) → 0 < k → x ≤ d * k → x / k ≤ d
div_bound x d k pos h =
    omega
      (arith, (div-lt_iff_lt-mul {x = x} {y = d + 1} pos).1 (omega (arith, h, add-mul d 1 k, pos)))

-- The scaled duration is a part of the duration, and grows with the numerator.
scale_duration-le : (d n k : ℕ) → n ≤ k → scale_duration d n k ≤ d
unfolding scale_duration
scale_duration-le d n zero h = ground arith
scale_duration-le d n (suc k) h = ground (
  arith,
  div_bound (min (d * n) (2 ^ 128 - 1)) d (suc k) (omega arith)
      (omega (arith, mul-le-mul_left d h)),
)

scale_duration_mono : (d m n k : ℕ) → m ≤ n → scale_duration d m k ≤ scale_duration d n k
unfolding scale_duration
scale_duration_mono d m n zero h = ground arith
scale_duration_mono d m n (suc k) h = ground (
  arith,
  h,
  div_mono (min (d * m) (2 ^ 128 - 1)) (min (d * n) (2 ^ 128 - 1)) (suc k) (omega arith)
      (omega (arith, mul-le-mul_left d h)),
)

-- The sessions of a run start in the order of their numbers, and each starts at least the warm-up before the
-- measured window does.
pub session_start_delay_order :
    (i j sessions ramp_up session_start_spread warmup : ℕ)
    → i ≤ j
    → j < sessions
    → (session_start_delay i sessions ramp_up session_start_spread
        ≤ session_start_delay j sessions ramp_up session_start_spread)
      × (session_start_delay j sessions ramp_up session_start_spread + warmup
          ≤ measure_start_delay warmup ramp_up session_start_spread)
unfolding session_start_delay
session_start_delay_order i j sessions ramp_up spread warmup h b = (
  ground (
    arith,
    scale_duration_mono ramp_up i j sessions h,
    scale_duration_mono spread i j sessions h,
  ),
  ground (
    arith,
    scale_duration-le ramp_up j sessions (omega (arith, b)),
    scale_duration-le spread j sessions (omega (arith, b)),
  ),
)
