-- ===== src/Stub.antt =====
-- crates/stt-stub/src/lib.rs: the deterministic STT stub that the inference server runs and that the
-- load generator recomputes. Counters are unbounded numbers (`Stub.Bounds` has their ranges); the
-- checksum wraps at 32 bits as in the source.
pub mod Bounds
pub mod Detect
mod Tests
use websocket_stt_bench.Common.{
  ℕ, zero, suc, ◌+◌, ◌*◌, ◌-◌, ◌%◌, ◌^◌, bit_xor, String, Bool, not, ◌&&◌, ◌||◌, List, [], ◌∷◌, ltb,
  ◌==◌, if◌then◌else◌, length, get_or,
}
use websocket_stt_bench.Common.Int.{ℤ, pos, ◌+ℤ◌, is_neg, square, as_u32, as_i16, as_i32}
use websocket_stt_bench.Common.Float.{Float64}

abbrev pub fnv_offset : ℕ
fnv_offset = 2166136261

abbrev pub fnv_prime : ℕ
fnv_prime = 16777619

abbrev pub transcript_pool : List String
transcript_pool =
    "the" ∷ "quick" ∷ "brown" ∷ "fox" ∷ "jumps" ∷ "over" ∷ "lazy" ∷ "dog" ∷ "hello" ∷ "world"
    ∷ "yes" ∷ "no" ∷ "okay" ∷ "right" ∷ "left" ∷ "stop" ∷ "go" ∷ "wait" ∷ "ready" ∷ "done" ∷ "again"
    ∷ "now" ∷ "later" ∷ "never" ∷ []

pub record StubResult (F : Type 0) : Type 0 where
  pub rms : F
  pub zero_crossings : ℕ
  pub checksum : ℕ
  pub samples : ℕ
  pub transcript : String
  pub audio_bytes : ℕ

-- The mutable locals of `compute_stub`.
pub record Scan : Type 0 where
  pub checksum : ℕ
  pub zero_crossings : ℕ
  pub sum_squares : ℕ
  pub sample_count : ℕ
  pub previous : ℤ

abbrev pub scan_start : Scan
scan_start = record {
  checksum = fnv_offset;
  zero_crossings = 0;
  sum_squares = 0;
  sample_count = 0;
  previous = pos 0;
}

-- `payload.chunks_exact(2)` through `i16::from_le_bytes`: an odd trailing byte is left out.
unfoldable pub le_samples : List ℕ → List ℤ
le_samples (lo ∷ hi ∷ rest) = as_i16 (lo + hi * 256) ∷ le_samples rest
le_samples _ = []

-- `(sample as i32 + 32_768 + pass_index as i32) as u32 & 0xFFFF`
unfoldable pub adjusted : ℕ → ℤ → ℕ
adjusted pass_index sample = as_u32 (sample +ℤ pos 32768 +ℤ as_i32 pass_index) % 2 ^ 16

-- `checksum ^= a; checksum = checksum.wrapping_mul(FNV_PRIME)`
unfoldable pub fnv_step : ℕ → ℕ → ℕ
fnv_step checksum a = bit_xor checksum a * fnv_prime % 2 ^ 32

abbrev pub crosses : ℤ → ℤ → Bool
crosses sample previous =
    (is_neg sample && not (is_neg previous)) || (is_neg previous && not (is_neg sample))

-- The body of the inner loop.
unfoldable pub scan_sample : ℕ → Scan → ℤ → Scan
scan_sample pass_index s sample = record {
  checksum = fnv_step s.checksum (adjusted pass_index sample);
  zero_crossings =
      if ltb 0 s.sample_count && crosses sample s.previous
      then s.zero_crossings + 1
      else s.zero_crossings;
  sum_squares = s.sum_squares + square sample;
  sample_count = s.sample_count + 1;
  previous = sample;
}

-- One round of the outer loop.
unfoldable pub scan_pass : ℕ → Scan → List ℤ → Scan
unfolding scan_sample fnv_step adjusted
scan_pass pass_index s [] = s
scan_pass pass_index s (x ∷ xs) = scan_pass pass_index (scan_sample pass_index s x) xs

-- `for pass_index in 0..passes`, with the rounds that are left.
unfoldable pub scan_passes : ℕ → ℕ → Scan → List ℤ → Scan
unfolding scan_pass
scan_passes zero pass_index s xs = s
scan_passes (suc left) pass_index s xs =
    scan_passes left (pass_index + 1) (scan_pass pass_index s xs) xs

module _ {F : Type 0} (fl : Float64 F) where
  unfoldable pub rms_of : Scan → F
  rms_of s =
      if s.sample_count == 0
      then fl.of_nat 0
      else fl.sqrt (fl.div (fl.of_nat s.sum_squares) (fl.of_nat s.sample_count))

  unfoldable pub compute_stub : List ℕ → ℕ → StubResult F
  unfolding scan_passes le_samples rms_of
  compute_stub payload passes =
      let s = scan_passes passes 0 scan_start (le_samples payload) in
      record {
        rms = rms_of s;
        zero_crossings = s.zero_crossings;
        checksum = s.checksum;
        samples = s.sample_count;
        transcript = get_or transcript_pool (s.checksum % length transcript_pool) "";
        audio_bytes = length payload;
      }
