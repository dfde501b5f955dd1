-- ===== src/Stub/Tests.antt =====
-- crates/stt-stub/src/lib.rs: its tests.
use websocket_stt_bench.Common.{
  ℕ, ◌≡◌, refl, false, List, [], ◌∷◌, ◌<◌, ◌≤◌, ◌-◌, ◌*◌, ◌/◌, ◌^◌, arith, length, str_eq, All,
}
use websocket_stt_bench.Common.Float.{Float64, unit_floats}
use websocket_stt_bench.Stub.{compute_stub, fnv_offset, scan_passes, scan_start, le_samples}
use websocket_stt_bench.Stub.Bounds.{IsByte, compute_stub-counts, compute_stub_ranges}
use websocket_stt_bench.Stub.Detect.{one_sample_detected}

module _ {F : Type 0} (fl : Float64 F) where
  -- `empty_payload_is_zeroed`
  empty_payload_is_zeroed : (compute_stub fl [] 4).checksum ≡ fnv_offset
  unfolding compute_stub
  empty_payload_is_zeroed = refl

  odd_even_test :
      (compute_stub fl (1 ∷ 0 ∷ 2 ∷ 0 ∷ 9 ∷ []) 1).checksum
      ≡ (compute_stub fl (1 ∷ 0 ∷ 2 ∷ 0 ∷ []) 1).checksum
  unfolding compute_stub
  odd_even_test = refl

abbrev odd : List ℕ
odd = 1 ∷ 0 ∷ 2 ∷ 0 ∷ 9 ∷ []

compute_stub-counts_example :
    ((compute_stub unit_floats odd 4).samples ≡ 4 * (length odd / 2))
    × ((compute_stub unit_floats odd 4).audio_bytes ≡ length odd)
compute_stub-counts_example = compute_stub-counts unit_floats odd 4

odd_bytes : All IsByte odd
odd_bytes = ground arith

compute_stub_ranges_example :
    let r = compute_stub unit_floats odd 4 in
    (r.checksum < 2 ^ 32)
    × (r.zero_crossings ≤ r.samples - 1)
    × ((scan_passes 4 0 scan_start (le_samples odd)).sum_squares ≤ r.samples * 2 ^ 30)
    × (str_eq r.transcript "" ≡ false)
compute_stub_ranges_example = compute_stub_ranges unit_floats odd 4 odd_bytes

one_sample_detected_example : (◌≡◌ {A = ℕ} 1 1) × (◌≡◌ {A = ℕ} 200 200)
one_sample_detected_example =
    one_sample_detected unit_floats (5 ∷ 6 ∷ []) (7 ∷ 8 ∷ []) 1 200 1 200 refl (omega arith)
      (omega arith) (omega arith) (omega arith) refl
