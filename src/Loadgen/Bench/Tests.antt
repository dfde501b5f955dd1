-- ===== src/Loadgen/Bench/Tests.antt =====
-- loadgen/rust/src/inferbench.rs: the summary and the payload on concrete values.
use websocket_stt_bench.Common.{◌*◌, ◌≡◌, arith, length}
use websocket_stt_bench.Loadgen.Protocol.{frame_bytes}
use websocket_stt_bench.Loadgen.Verify.{concat_payload}
use websocket_stt_bench.Loadgen.Bench.{inference_payload}
use websocket_stt_bench.Loadgen.Bench.Summary.{inference_payload-concat_payload}

inference_payload-concat_payload_example :
    (inference_payload 50 ≡ concat_payload 0 1 50)
    × (length (inference_payload 50) ≡ 50 * frame_bytes)
inference_payload-concat_payload_example = inference_payload-concat_payload 50 (omega arith)
