-- ===== src/InferenceServer/Latency.antt =====
-- services/inference-server/src/main.rs: `sample_latency`. The draws of the random generator are arguments,
-- as functions of what the code asks for; what it uses of `f64` beyond Common.Float is the record `Reals`.
use websocket_stt_bench.Common.{ℕ, Bool, ◌&&◌, if◌then◌else◌}
use websocket_stt_bench.Common.Float.{Float64}

pub record Reals (F : Type 0) : Type 0 where
  pub gtb : F → F → Bool  -- `a > b`
  pub ln : F → F
  pub clamp : F → F → F → F  -- `x.clamp(low, high)`
  pub from_secs_f64 : F → ℕ  -- `Duration::from_secs_f64`, in nanoseconds

-- `random_range(0.0..high)`, a log-normal sample of a location and a scale, and `random_bool`.
pub record Draws (F : Type 0) : Type 0 where
  pub uniform : (high : F) → F
  pub log_normal : (location scale : F) → F
  pub chance : (probability : F) → Bool

pub record LatencyConfig (F : Type 0) : Type 0 where
  pub model_delay_ms : F
  pub jitter_sigma : F
  pub longtail_prob : F
  pub longtail_mult : F
  pub batch_wait_max_ms : F

module _ {F : Type 0} (fl : Float64 F) (re : Reals F) (draws : Draws F) where
  unfoldable pub sample_latency : LatencyConfig F → ℕ
  sample_latency state =
      let zero_ms = fl.of_nat 0 in
      let batch_wait =
        if re.gtb state.batch_wait_max_ms zero_ms
        then draws.uniform state.batch_wait_max_ms
        else zero_ms in
      let drawn =
        if re.gtb state.jitter_sigma zero_ms
        then draws.log_normal (re.ln state.model_delay_ms) state.jitter_sigma
        else state.model_delay_ms in
      let compute =
        if re.gtb state.longtail_prob zero_ms
          && draws.chance (re.clamp state.longtail_prob zero_ms (fl.of_nat 1))
        then fl.mul drawn state.longtail_mult
        else drawn in
      re.from_secs_f64 (fl.div (fl.max (fl.add batch_wait compute) zero_ms) (fl.of_nat 1000))
