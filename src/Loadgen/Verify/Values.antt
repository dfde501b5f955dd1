-- ===== src/Loadgen/Verify/Values.antt =====
-- loadgen/rust/src/verify.rs: which partials pass `verify_partial`.
use websocket_stt_bench.Common.{ℕ, ◌+◌, ◌*◌, ◌≤◌, ◌<◌, ◌≡◌, ◌↔◌, true, [], arith, eq_iff}
use websocket_stt_bench.Common.Float.{Float64}
use websocket_stt_bench.Stub.{StubResult}
use websocket_stt_bench.Loadgen.Protocol.{PartialMessage, frame_bytes}
use websocket_stt_bench.Loadgen.Verify.{
  ExpectedConfig, rms_matches, verify_values, verify_partial, expected_stub, max_verify_frames,
}

module _ {F : Type 0} (fl : Float64 F) where
  -- The recomputed values agree.
  pub record ValuesMatch (p : PartialMessage F) (want : StubResult F) : Type 0 where
    pub checksum : p.checksum ≡ want.checksum
    pub zero_crossings : p.zero_crossings ≡ want.zero_crossings
    pub samples : p.samples ≡ want.samples
    pub rms : rms_matches fl p.rms want.rms ≡ true
    pub transcript : p.transcript ≡ want.transcript

  -- What a correct gateway reports for frames `oldest..=newest` of a session.
  pub record IsCorrect (session_id : ℕ) (p : PartialMessage F) (expected : ExpectedConfig)
      : Type 0 where
    pub positive : 0 < p.oldest_frame_seq
    pub ordered : p.oldest_frame_seq ≤ p.newest_frame_seq
    pub frames : p.frames + p.oldest_frame_seq ≡ p.newest_frame_seq + 1
    pub audio_bytes : p.audio_bytes ≡ p.frames * frame_bytes
    pub cpu_passes : p.cpu_passes ≡ expected.cpu_passes
    pub model_delay_ms : p.model_delay_ms ≡ expected.model_delay_ms
    pub bounded : p.frames ≤ max_verify_frames
    pub values :
        ValuesMatch p
          (expected_stub fl session_id p.oldest_frame_seq p.newest_frame_seq expected.cpu_passes)

  verify_values_complete :
      (p : PartialMessage F) (want : StubResult F)
      → verify_values fl p want ≡ []
      → ValuesMatch p want
  unfolding verify_values
  verify_values_complete p want e = record {
    checksum = ground arith;
    zero_crossings = ground arith;
    samples = ground arith;
    rms = ground arith;
    transcript = (eq_iff p.transcript want.transcript).0 (ground arith);
  }

  verify_values_sound :
      (p : PartialMessage F) (want : StubResult F)
      → ValuesMatch p want
      → verify_values fl p want ≡ []
  unfolding verify_values
  verify_values_sound p want v = ground (
    arith,
    eq_iff p.transcript want.transcript,
    v.checksum,
    v.zero_crossings,
    v.samples,
    v.rms,
    v.transcript,
  )

  verify_partial_sound :
      (session_id : ℕ) (p : PartialMessage F) (expected : ExpectedConfig)
      → IsCorrect session_id p expected
      → verify_partial fl session_id p expected ≡ []
  unfolding verify_partial
  verify_partial_sound session_id p expected c = ground (
    arith,
    verify_values_sound p
        (expected_stub fl session_id p.oldest_frame_seq p.newest_frame_seq expected.cpu_passes)
        c.values,
  )

  -- The test of `verify_partial` on its header, with the value checks behind it.
  verify_partial_complete :
      (session_id : ℕ) (p : PartialMessage F) (expected : ExpectedConfig)
      → verify_partial fl session_id p expected ≡ []
      → IsCorrect session_id p expected
  unfolding verify_partial
  verify_partial_complete session_id p expected e = record {
    positive = ground arith;
    ordered = ground arith;
    frames = ground arith;
    audio_bytes = ground arith;
    cpu_passes = ground arith;
    model_delay_ms = ground arith;
    bounded = ground arith;
    values = verify_values_complete p want (ground arith);
  }
    where
      want : StubResult F
      want = expected_stub fl session_id p.oldest_frame_seq p.newest_frame_seq expected.cpu_passes

  -- `verify_partial` reports nothing exactly for a partial that is correct in every field: a well-formed
  -- range of at most `max_verify_frames` frames with the frame and byte counts of that range, the
  -- expected configuration, and the values of the stub over the PCM of those frames.
  pub verify_partial-nil_iff :
      (session_id : ℕ) (p : PartialMessage F) (expected : ExpectedConfig)
      → (verify_partial fl session_id p expected ≡ []) ↔ IsCorrect session_id p expected
  verify_partial-nil_iff session_id p expected =
      (verify_partial_complete session_id p expected, verify_partial_sound session_id p expected)
