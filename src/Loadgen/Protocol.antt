-- ===== src/Loadgen/Protocol.antt =====
-- loadgen/rust/src/protocol.rs: the messages and the deterministic PCM of a session. Durations are
-- in milliseconds; `usize` and `u64` are native numbers, with the wrap of `mix64` written out.
pub mod Payload
pub mod Mix
mod Tests
use websocket_stt_bench.Common.{
  ℕ, zero, suc, ◌+◌, ◌-◌, ◌*◌, ◌/◌, ◌%◌, ◌^◌, bit_xor, String, Bool, not, Option, List, [], ◌∷◌,
  ◌++◌, ltb, leb, str_eq, if◌then◌else◌,
}
use websocket_stt_bench.Common.Int.{ℤ, pos, ◌+ℤ◌, ◌-ℤ◌, as_u16}
use websocket_stt_bench.Common.Float.{Float64}

abbrev pub frame_interval : ℕ
frame_interval = 20

abbrev pub frame_bytes : ℕ
frame_bytes = 640

abbrev pub flush_interval : ℕ
flush_interval = 1000

pub record PartialMessage (F : Type 0) : Type 0 where
  pub oldest_frame_seq : ℕ
  pub newest_frame_seq : ℕ
  pub frames : ℕ
  pub rms : F
  pub zero_crossings : ℕ
  pub checksum : ℕ
  pub samples : ℕ
  pub transcript : String
  pub audio_bytes : ℕ
  pub cpu_passes : ℕ
  pub model_delay_ms : ℕ
  pub flush_lateness_ms : F
  pub inflight_model_jobs : ℕ

pub record ErrorMessage (F : Type 0) : Type 0 where
  pub stage : String
  pub kind : String
  pub message : String
  pub oldest_frame_seq : ℕ
  pub newest_frame_seq : ℕ
  pub frames : ℕ
  pub audio_bytes : ℕ
  pub oldest_age_ms : F
  pub newest_age_ms : F
  pub flush_lateness_ms : F
  pub inference_elapsed_ms : Option F
  pub inflight_gateway_batches : ℕ
  pub gateway_buffer_frames : ℕ
  pub inference_status : Option ℕ
  pub retryable : Bool

pub data ServerMessage (F : Type 0) : Type 0 where
  partial : PartialMessage F → ServerMessage F
  error : ErrorMessage F → ServerMessage F

-- The first check of `PartialMessage::validate` that fails.
pub data Invalid : Type 0 where
  oldest_not_positive newest_before_oldest no_frames no_samples no_transcript no_audio : Invalid
  rms_not_finite bad_lateness : Invalid

pub data Validation : Type 0 where
  valid : Validation
  invalid : Invalid → Validation

-- `anyhow::ensure!(test, ...)`, then the checks behind it.
abbrev pub ensure : Bool → Invalid → Validation → Validation
ensure test e rest = if test then rest else invalid e

module _ {F : Type 0} (fl : Float64 F) where
  unfoldable pub validate : PartialMessage F → Validation
  validate p = ensure (ltb 0 p.oldest_frame_seq) oldest_not_positive (
      ensure (leb p.oldest_frame_seq p.newest_frame_seq) newest_before_oldest (
        ensure (ltb 0 p.frames) no_frames (
          ensure (ltb 0 p.samples) no_samples (
            ensure (not (str_eq p.transcript "")) no_transcript (
              ensure (ltb 0 p.audio_bytes) no_audio (
                ensure (fl.is_finite p.rms) rms_not_finite (
                  ensure (fl.is_finite p.flush_lateness_ms) bad_lateness
                    (ensure (fl.leb (fl.of_nat 0) p.flush_lateness_ms) bad_lateness valid))))))))

-- `(z ^ (z >> k)).wrapping_mul(c)` at 64 bits.
unfoldable pub xorshift : ℕ → ℕ → ℕ
xorshift k z = bit_xor z (z / 2 ^ k)

abbrev pub mix_mul_first : ℕ
mix_mul_first = 0xBF58476D1CE4E5B9

abbrev pub mix_mul_second : ℕ
mix_mul_second = 0x94D049BB133111EB

unfoldable pub mix64 : ℕ → ℕ
unfolding xorshift
mix64 z =
    xorshift 31 (xorshift 27 (xorshift 30 z * mix_mul_first % 2 ^ 64) * mix_mul_second % 2 ^ 64)

abbrev pub splitmix_gamma : ℕ
splitmix_gamma = 0x9E3779B97F4A7C15

abbrev pub saw_period : ℕ
saw_period = 20000

abbrev pub saw_step : ℕ
saw_step = 17

abbrev pub noise_half : ℕ
noise_half = 256

-- `carrier += SAW_STEP` and its wrap at the period.
abbrev pub next_carrier : ℕ → ℕ
next_carrier c = if leb saw_period (c + saw_step) then c + saw_step - saw_period else c + saw_step

-- The value of one sample: the centred carrier and 9 bits of noise.
unfoldable pub sample_value : ℕ → ℕ → ℕ → ℤ
sample_value noise lane carrier =
    pos carrier -ℤ pos (saw_period / 2) +ℤ (pos (noise / 2 ^ (16 * lane) % 512) -ℤ pos noise_half)

-- `(value as i16).to_le_bytes()`
abbrev pub le_bytes : ℤ → List ℕ → List ℕ
le_bytes v rest = as_u16 v % 256 ∷ as_u16 v / 256 ∷ rest

-- The chunks of 8 bytes that are left; each draws a word of noise for its four lanes.
unfoldable pub payload_chunks : ℕ → ℕ → ℕ → List ℕ
unfolding sample_value mix64
payload_chunks zero state carrier = []
payload_chunks (suc left) state carrier =
    let state' = (state + splitmix_gamma) % 2 ^ 64 in
    let noise = mix64 state' in
    let c1 = next_carrier carrier in
    let c2 = next_carrier c1 in
    let c3 = next_carrier c2 in
    le_bytes (sample_value noise 0 carrier) (
      le_bytes (sample_value noise 1 c1) (
        le_bytes (sample_value noise 2 c2)
          (le_bytes (sample_value noise 3 c3) (payload_chunks left state' (next_carrier c3)))))

unfoldable pub payload_seed : ℕ → ℕ → ℕ
unfolding mix64
payload_seed session_id seq = mix64 (bit_xor (mix64 session_id) seq)

unfoldable pub frame_payload : ℕ → ℕ → List ℕ
unfolding payload_chunks payload_seed
frame_payload session_id seq =
    payload_chunks (frame_bytes / 8) (payload_seed session_id seq)
      (payload_seed session_id seq % saw_period)

-- The float of `GoldenStub` stands by itself.
pub record GoldenStub : Type 0 where
  pub frames : ℕ
  pub samples : ℕ
  pub checksum : ℕ
  pub zero_crossings : ℕ
  pub transcript : String
  pub audio_bytes : ℕ

abbrev pub golden_one_frame : GoldenStub
golden_one_frame = record {
  frames = 1;
  samples = 1280;
  checksum = 763539697;
  zero_crossings = 7;
  transcript = "quick";
  audio_bytes = frame_bytes;
}

-- `GOLDEN_ONE_FRAME.rms`, the literal 8323.765219801373: both numbers are floats, and the quotient is
-- rounded as the literal is.
abbrev pub golden_rms : {F : Type 0} → Float64 F → F
golden_rms fl = fl.div (fl.of_nat 8323765219801373) (fl.of_nat (10 ^ 12))
