-- ===== src/Gateway/Text/Tests.antt =====
-- services/rust-sync/src: numbers written and read back.
use websocket_stt_bench.Common.{◌^◌, ◌≡◌, arith, some}
use websocket_stt_bench.Gateway.Text.{parse_unsigned, decimal}
use websocket_stt_bench.Gateway.Text.Numbers.{parse_unsigned-decimal}

parse_unsigned-decimal_example : parse_unsigned (2 ^ 32) (decimal 4090) ≡ some 4090
parse_unsigned-decimal_example = parse_unsigned-decimal (2 ^ 32) 4090 (omega arith) (omega arith)
