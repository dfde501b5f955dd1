-- ===== src/Loadgen/Protocol/Tests.antt =====
-- loadgen/rust/src/protocol.rs: `GOLDEN_ONE_FRAME`, computed by the models of the generator and stub.
use websocket_stt_bench.Common.{ℕ, ◌≡◌, ◌<◌, ◌^◌, refl, arith, length, All}
use websocket_stt_bench.Common.Float.{Float64}
use websocket_stt_bench.Stub.{compute_stub}
use websocket_stt_bench.Stub.{le_samples}
use websocket_stt_bench.Stub.Bounds.{IsByte}
use websocket_stt_bench.Loadgen.Protocol.{golden_one_frame, frame_payload, frame_bytes, mix64}
use websocket_stt_bench.Loadgen.Protocol.Payload.{IsQuiet, frame_payload_range}
use websocket_stt_bench.Loadgen.Protocol.Mix.{mix64_bijective}

module _ {F : Type 0} (fl : Float64 F) where
  golden_checksum : (compute_stub fl (frame_payload 0 1) 4).checksum ≡ golden_one_frame.checksum
  unfolding compute_stub frame_payload
  golden_checksum = refl

  golden_crossings :
      (compute_stub fl (frame_payload 0 1) 4).zero_crossings ≡ golden_one_frame.zero_crossings
  unfolding compute_stub frame_payload
  golden_crossings = refl

  golden_transcript :
      (compute_stub fl (frame_payload 0 1) 4).transcript ≡ golden_one_frame.transcript
  unfolding compute_stub frame_payload
  golden_transcript = refl

frame_payload_range_example :
    (length (frame_payload 3 7) ≡ frame_bytes)
    × All IsByte (frame_payload 3 7)
    × All IsQuiet (le_samples (frame_payload 3 7))
frame_payload_range_example = frame_payload_range 3 7

mix64_bijective_example : (mix64 5 < 2 ^ 64) × (mix64 5 ≡ mix64 6 → ◌≡◌ {A = ℕ} 5 6)
mix64_bijective_example = mix64_bijective 5 6 (omega arith) (omega arith)
