-- ===== src/Loadgen/Verify/Tests.antt =====
-- loadgen/rust/src/verify.rs: its checks on concrete responses.
use websocket_stt_bench.Common.{ℕ, ◌≡◌, ◌≤◌, ◌<◌, ◌+◌, ◌↔◌, ◌⊎◌, refl, arith, none, List, [], ◌∷◌}
use websocket_stt_bench.Common.Float.{unit_floats}
use websocket_stt_bench.Loadgen.Protocol.{PartialMessage}
use websocket_stt_bench.Loadgen.Verify.{
  default_config, verify_partial, continuity_start, observe, check_tail,
}
use websocket_stt_bench.Loadgen.Verify.Coverage.{
  observe_all, Tiles, end_of, covers, observe_all-nil_iff, accepted_session_covers,
  observe_recovers,
}
use websocket_stt_bench.Loadgen.Verify.Values.{IsCorrect, verify_partial-nil_iff}

abbrev ranges : List (ℕ × ℕ)
ranges = (1, 50) ∷ (51, 120) ∷ []

observe_all-nil_iff_example :
    (((observe_all continuity_start ranges).1 ≡ []) ↔ Tiles 0 ranges)
    × (Tiles 0 ranges → (observe_all continuity_start ranges).0.last_newest ≡ end_of 0 ranges)
observe_all-nil_iff_example = observe_all-nil_iff continuity_start ranges

accepted : (observe_all continuity_start ranges).1 ≡ []
unfolding observe_all observe
accepted = refl

tail_accepted : check_tail 400 (observe_all continuity_start ranges).0.last_newest ≡ none
unfolding observe_all observe check_tail
tail_accepted = refl

accepted_session_covers_example : covers 60 ranges ≡ 1
accepted_session_covers_example =
    accepted_session_covers ranges 400 60 accepted tail_accepted (omega arith) (omega arith)

observe_recovers_example :
    let c' = (observe continuity_start 60 50).0 in
    (0 ≤ c'.last_newest)
    × ((50 < 60) ⊎ (◌≡◌ {A = ℕ} 60 0) → c' ≡ continuity_start)
    × (c'.last_newest < 9 → (observe c' (c'.last_newest + 1) 9).1 ≡ none)
observe_recovers_example = observe_recovers continuity_start 60 50 9

abbrev response : PartialMessage Unit
response = record {
  oldest_frame_seq = 1;
  newest_frame_seq = 1;
  frames = 1;
  rms = tt;
  zero_crossings = 7;
  checksum = 763539697;
  samples = 1280;
  transcript = "quick";
  audio_bytes = 640;
  cpu_passes = 4;
  model_delay_ms = 75;
  flush_lateness_ms = tt;
  inflight_model_jobs = 0;
}

verify_partial-nil_iff_example :
    (verify_partial unit_floats 0 response default_config ≡ [])
    ↔ IsCorrect unit_floats 0 response default_config
verify_partial-nil_iff_example = verify_partial-nil_iff unit_floats 0 response default_config
