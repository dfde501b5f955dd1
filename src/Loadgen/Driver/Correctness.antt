-- ===== src/Loadgen/Driver/Correctness.antt =====
-- loadgen/rust/src/main.rs: `Correctness`, the accounting of wrong responses of the whole run. The text of a
-- sample's detail is left out, and its log line.
pub mod Counting
use Prim.Native.Nat.{compare}
use native.Mathlib.Omega.{compare-eq}
use websocket_stt_bench.Common.{
  ℕ, ◌+◌, ◌≤◌, ◌≡◌, refl, ap, ◌∙◌, sym, arith, String, Bool, Option, none, some, List, [], ◌∷◌,
  ◌++◌, ltb, if◌then◌else◌, length, get_or,
}
use websocket_stt_bench.Common.Counts.{Key, bump}
use websocket_stt_bench.Loadgen.Verify.{
  ExpectedConfig, MismatchKind, continuity_gap, continuity_overlap, invalid_range, unsent_frame,
  range_too_large, missing_tail, malformed_message, invalid_partial, frames, audio_bytes,
  cpu_passes, model_delay_ms, checksum, zero_crossings, samples, rms, transcript, as_str,
}

abbrev pub max_correctness_error_samples : ℕ
max_correctness_error_samples = 5

-- The derived `Ord`: the place in the declaration.
abbrev rank : MismatchKind → ℕ
rank continuity_gap = 0
rank continuity_overlap = 1
rank invalid_range = 2
rank unsent_frame = 3
rank range_too_large = 4
rank missing_tail = 5
rank malformed_message = 6
rank invalid_partial = 7
rank frames = 8
rank audio_bytes = 9
rank cpu_passes = 10
rank model_delay_ms = 11
rank checksum = 12
rank zero_crossings = 13
rank samples = 14
rank rms = 15
rank transcript = 16

all_kinds : List MismatchKind
all_kinds =
    continuity_gap ∷ continuity_overlap ∷ invalid_range ∷ unsent_frame ∷ range_too_large
    ∷ missing_tail ∷ malformed_message ∷ invalid_partial ∷ frames ∷ audio_bytes ∷ cpu_passes
    ∷ model_delay_ms ∷ checksum ∷ zero_crossings ∷ samples ∷ rms ∷ transcript ∷ []

at_rank : (k : MismatchKind) → get_or all_kinds (rank k) rms ≡ k
unfolding all_kinds
at_rank continuity_gap = refl
at_rank continuity_overlap = refl
at_rank invalid_range = refl
at_rank unsent_frame = refl
at_rank range_too_large = refl
at_rank missing_tail = refl
at_rank malformed_message = refl
at_rank invalid_partial = refl
at_rank frames = refl
at_rank audio_bytes = refl
at_rank cpu_passes = refl
at_rank model_delay_ms = refl
at_rank checksum = refl
at_rank zero_crossings = refl
at_rank samples = refl
at_rank rms = refl
at_rank transcript = refl

rank_inj : (a b : MismatchKind) → rank a ≡ rank b → a ≡ b
rank_inj a b e = sym (at_rank a) ∙ ap (λ i. get_or all_kinds i rms) e ∙ at_rank b

instance pub kind_keys : Key MismatchKind
kind_keys = record {
  cmp = λ a b. compare (rank a) (rank b);
  eq_of_cmp = λ a b e. rank_inj a b (compare-eq (rank a) (rank b) e);
}

pub record CorrectnessErrorSample : Type 0 where
  pub session_id : ℕ
  pub message_type : String
  pub oldest_frame_seq : ℕ
  pub newest_frame_seq : ℕ
  pub kind : String

pub record Correctness : Type 0 where
  pub expected : ExpectedConfig
  pub verify_every : ℕ
  pub errors : ℕ
  pub verified : ℕ
  pub verify_dropped : ℕ
  pub counts : List (MismatchKind × ℕ)
  pub error_samples : List CorrectnessErrorSample

unfoldable pub new_correctness : ExpectedConfig → ℕ → Correctness
new_correctness expected verify_every = record {
  expected = expected;
  verify_every = verify_every;
  errors = 0;
  verified = 0;
  verify_dropped = 0;
  counts = [];
  error_samples = [];
}

abbrev pub bump_all : List MismatchKind → List (MismatchKind × ℕ) → List (MismatchKind × ℕ)
bump_all [] m = m
bump_all (k ∷ ks) m = bump_all ks (bump k m)

-- `Correctness::record`
unfoldable pub record_mismatches :
    Correctness → ℕ → String → ℕ → ℕ → List MismatchKind → Correctness
record_mismatches c session_id message_type oldest newest [] = c
record_mismatches c session_id message_type oldest newest (first ∷ rest) = record c {
  errors = c.errors + 1;
  counts = bump_all (first ∷ rest) c.counts;
  error_samples =
      if ltb (length c.error_samples) max_correctness_error_samples
      then c.error_samples
        ++ record {
          session_id = session_id;
          message_type = message_type;
          oldest_frame_seq = oldest;
          newest_frame_seq = newest;
          kind = as_str first;
        }
          ∷ []
      else c.error_samples;
}

unfoldable pub record_malformed : Correctness → ℕ → Correctness
unfolding record_mismatches
record_malformed c session_id =
    record_mismatches c session_id "malformed" 0 0 (malformed_message ∷ [])

-- `Correctness::snapshot`, of the counts.
abbrev pub snapshot_counts : List (MismatchKind × ℕ) → List (String × ℕ)
snapshot_counts [] = []
snapshot_counts ((k, n) ∷ rest) = (as_str k, n) ∷ snapshot_counts rest
