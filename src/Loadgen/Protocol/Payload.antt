-- ===== src/Loadgen/Protocol/Payload.antt =====
-- loadgen/rust/src/protocol.rs: the shape and range of the generated PCM.
use websocket_stt_bench.Common.{
  ℕ, zero, suc, ◌+◌, ◌*◌, ◌/◌, ◌%◌, ◌^◌, ◌≤◌, ◌<◌, ◌≡◌, subst, List, arith, length, All,
}
use websocket_stt_bench.Common.Int.{ℤ, pos_part, neg_part, as_i16, as_u16}
use websocket_stt_bench.Stub.{le_samples}
use websocket_stt_bench.Stub.Bounds.{IsByte}
use websocket_stt_bench.Loadgen.Protocol.{
  frame_bytes, saw_period, next_carrier, le_bytes, sample_value, payload_chunks, payload_seed,
  frame_payload, splitmix_gamma, mix64,
}

-- "Samples stay within ±10 256": half the period of the carrier and half the width of the noise.
abbrev pub IsQuiet : ℤ → Type 0
IsQuiet v = pos_part v + neg_part v ≤ 10256

next_carrier-lt : (c : ℕ) → c < saw_period → next_carrier c < saw_period
next_carrier-lt c h = ground arith

sample_value-IsQuiet : (noise lane c : ℕ) → c < saw_period → IsQuiet (sample_value noise lane c)
unfolding sample_value
sample_value-IsQuiet noise lane c h = ground arith

-- Writing an `i16` as two bytes and reading it back gives it again.
le_bytes-round : (v : ℤ) → IsQuiet v → as_i16 (as_u16 v % 256 + as_u16 v / 256 * 256) ≡ v
le_bytes-round v h = ground arith

as_u16-lt : (v : ℤ) → as_u16 v < 2 ^ 16
as_u16-lt v = ground arith

-- What a list of bytes is when it encodes quiet samples, as many as stated.
record Encodes (n : ℕ) (bs : List ℕ) : Type 0 where
  size : length bs ≡ n
  bytes : All IsByte bs
  quiet : All IsQuiet (le_samples bs)

le_bytes-Encodes :
    (n : ℕ) (v : ℤ) (rest : List ℕ) → IsQuiet v → Encodes n rest → Encodes (n + 2) (le_bytes v rest)
unfolding le_samples
le_bytes-Encodes n v rest q e = record {
  size = omega (arith, e.size);
  bytes = (omega arith, (omega (arith, as_u16-lt v), e.bytes));
  quiet = (rw (le_bytes-round v q) q, e.quiet);
}

payload_chunks-Encodes :
    (left state c : ℕ) → c < saw_period → Encodes (left * 8) (payload_chunks left state c)
unfolding payload_chunks le_samples
payload_chunks-Encodes zero state c h = record { size = omega arith; bytes = tt; quiet = tt }
payload_chunks-Encodes (suc left) state c h =
    subst (λ n. Encodes n (payload_chunks (suc left) state c)) (omega arith)
      (eight (payload_chunks-Encodes left next (next_carrier c3) (next_carrier-lt c3 h3)))
  where
    next : ℕ
    next = (state + splitmix_gamma) % 2 ^ 64

    c1 : ℕ
    c1 = next_carrier c

    c2 : ℕ
    c2 = next_carrier c1

    c3 : ℕ
    c3 = next_carrier c2

    h1 : c1 < saw_period
    h1 = next_carrier-lt c h

    h2 : c2 < saw_period
    h2 = next_carrier-lt c1 h1

    h3 : c3 < saw_period
    h3 = next_carrier-lt c2 h2

    lane :
        (n i d : ℕ) (bs : List ℕ)
        → d < saw_period
        → Encodes n bs
        → Encodes (n + 2) (le_bytes (sample_value (mix64 next) i d) bs)
    lane n i d bs hd e =
        le_bytes-Encodes n (sample_value (mix64 next) i d) bs
          (sample_value-IsQuiet (mix64 next) i d hd) e

    eight :
        Encodes (left * 8) (payload_chunks left next (next_carrier c3))
        → Encodes (left * 8 + 2 + 2 + 2 + 2) (payload_chunks (suc left) state c)
    eight e = lane _ 0 c _ h (lane _ 1 c1 _ h1 (lane _ 2 c2 _ h2 (lane _ 3 c3 _ h3 e)))

-- For every session and frame number: the payload is one PCM frame of 640 bytes, each below 256, and
-- its samples stay within ±10256.
pub frame_payload_range :
    (session_id seq : ℕ)
    → (length (frame_payload session_id seq) ≡ frame_bytes)
      × All IsByte (frame_payload session_id seq)
      × All IsQuiet (le_samples (frame_payload session_id seq))
unfolding frame_payload
frame_payload_range session_id seq = (encoded.size, encoded.bytes, encoded.quiet)
  where
    encoded :
        Encodes 640 (
          payload_chunks 80
            (payload_seed session_id seq)
            (payload_seed session_id seq % saw_period))
    encoded =
        payload_chunks-Encodes 80 (payload_seed session_id seq)
          (payload_seed session_id seq % saw_period) (omega arith)
