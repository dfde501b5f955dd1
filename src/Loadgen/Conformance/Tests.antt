-- ===== src/Loadgen/Conformance/Tests.antt =====
-- loadgen/rust/src/bin/stt-conformance.rs: a burst that a correct gateway answers in one
-- partial, and a gateway that answers each of 13 frames by its own flush.
use websocket_stt_bench.Common.{
  ℕ, zero, suc, ◌+◌, ◌*◌, ◌≡◌, ◌≤◌, ◌<◌, refl, ap, arith, true, Option, none, some, err, List, [],
  ◌∷◌, ◌++◌, map, length, All, Result, ok,
}
use websocket_stt_bench.Common.Float.{unit_floats}
use websocket_stt_bench.Stub.{StubResult, compute_stub}
use websocket_stt_bench.Loadgen.Protocol.{
  PartialMessage, ServerMessage, partial, validate, frame_payload,
}
use websocket_stt_bench.Loadgen.Verify.{
  default_config, observe, verify_partial, verify_values, expected_stub, concat_payload,
  rms_matches,
}
use websocket_stt_bench.Loadgen.Verify.Coverage.{Tiles, end_of}
use websocket_stt_bench.Loadgen.Verify.Values.{IsCorrect}
use websocket_stt_bench.Loadgen.Conformance.{
  multi_frame_session, CaseError, check, multi_frame_golden, interval_above, not_a_close,
}
use websocket_stt_bench.Loadgen.Conformance.Cases.{
  millis, cadence_session, cadence_send_for, Paced, PacedArm, send_due, reply, deadline,
  start_paced, on_paced, paced_loop, stream_paced, check_intervals, times_of, flush_cadence,
}
use websocket_stt_bench.Loadgen.Conformance.Replies.{
  text, close, other, normal_close, expect_close_code,
}
use websocket_stt_bench.Loadgen.Conformance.Paced.{IsStreamed, first_frames}
use websocket_stt_bench.Loadgen.Conformance.Cadence.{
  noted_at, Consecutive, flush_cadence-Consecutive,
}
use websocket_stt_bench.Loadgen.Conformance.Golden.{range_of, multi_frame_golden-Tiles}

abbrev want : StubResult Unit
want = expected_stub unit_floats multi_frame_session 1 50 4

abbrev pub burst : PartialMessage Unit
burst = record {
  oldest_frame_seq = 1;
  newest_frame_seq = 50;
  frames = 50;
  rms = tt;
  zero_crossings = want.zero_crossings;
  checksum = want.checksum;
  samples = want.samples;
  transcript = want.transcript;
  audio_bytes = 32000;
  cpu_passes = 4;
  model_delay_ms = 75;
  flush_lateness_ms = tt;
  inflight_model_jobs = 0;
}

pub passes_case :
    ◌≡◌ {A = Result ℕ CaseError} (multi_frame_golden unit_floats default_config (burst ∷ [])) (ok 1)
unfolding multi_frame_golden validate observe verify_partial verify_values expected_stub
    compute_stub concat_payload frame_payload rms_matches
passes_case = refl

multi_frame_golden-Tiles_example :
    (taken : List (PartialMessage Unit)) × (left : List (PartialMessage Unit)) × (burst ∷ []
      ≡ taken ++ left)
    × (◌≡◌ {A = ℕ} 1 (length taken))
    × (◌≤◌ 1 2)
    × Tiles 0 (map range_of taken)
    × (end_of 0 (map range_of taken) ≡ 50)
    × All (λ p. IsCorrect unit_floats multi_frame_session p default_config) taken
multi_frame_golden-Tiles_example =
    multi_frame_golden-Tiles unit_floats default_config (burst ∷ []) 1 passes_case

abbrev pub single : ℕ → ℕ → PartialMessage Unit
single id k =
    let one = expected_stub unit_floats id k k 4 in
    record {
      oldest_frame_seq = k;
      newest_frame_seq = k;
      frames = 1;
      rms = tt;
      zero_crossings = one.zero_crossings;
      checksum = one.checksum;
      samples = one.samples;
      transcript = one.transcript;
      audio_bytes = 640;
      cpu_passes = 4;
      model_delay_ms = 75;
      flush_lateness_ms = tt;
      inflight_model_jobs = 0;
    }

abbrev pub decode : PartialMessage Unit → Option (ServerMessage Unit)
decode p = some (partial p)

-- A frame each second, read 80 ms after its flush.
abbrev pub turns_from : ℕ → ℕ → List (ℕ × PacedArm (PartialMessage Unit))
turns_from zero k = (millis 13300, deadline (millis 17250)) ∷ []
turns_from (suc n) k =
    (millis (1000 * k), send_due (millis (1000 * k)) true)
    ∷ (
      millis (1000 * k + 80),
      reply (some (text (single cadence_session k))) (millis (1000 * k + 80)),
    )
    ∷ turns_from n (k + 1)

abbrev steady : Result (Paced Unit) CaseError
steady =
    stream_paced unit_floats decode cadence_session default_config 13 0 cadence_send_for
      (cadence_send_for + millis 4000) (turns_from 13 1)

abbrev state_of : Result (Paced Unit) CaseError → Paced Unit
state_of (ok s) = s
state_of (err e) = start_paced cadence_session default_config 0

abbrev flushes_from : ℕ → ℕ → List (ℕ × ℕ)
flushes_from zero k = []
flushes_from (suc n) k = (k, millis 80) ∷ flushes_from n (k + 1)

flushes_from-early : (n k : ℕ) → All (λ (x : ℕ × ℕ). x.1 < millis 250) (flushes_from n k)
flushes_from-early zero k = tt
flushes_from-early (suc n) k = (omega arith, flushes_from-early n (k + 1))

abbrev steady_state : Paced Unit
steady_state = record {
  sent = 13;
  next_frame = millis 260;
  checker = record {
    session_id = cadence_session;
    expected = default_config;
    continuity = record { last_newest = 13 };
  };
  partial_times = map (noted_at 0) (flushes_from 13 1);
  written = first_frames cadence_session 13;
  sent_before = 1 ∷ 2 ∷ 3 ∷ 4 ∷ 5 ∷ 6 ∷ 7 ∷ 8 ∷ 9 ∷ 10 ∷ 11 ∷ 12 ∷ 13 ∷ [];
  heard = map (single cadence_session) (1 ∷ 2 ∷ 3 ∷ 4 ∷ 5 ∷ 6 ∷ 7 ∷ 8 ∷ 9 ∷ 10 ∷ 11 ∷ 12 ∷ 13 ∷ []);
}

steady_reads : ◌≡◌ {A = Result (Paced Unit) CaseError} steady (ok steady_state)
unfolding stream_paced paced_loop on_paced check validate observe verify_partial verify_values
    expected_stub compute_stub concat_payload frame_payload rms_matches
steady_reads = refl

pub steady_passes :
    ◌≡◌ {A = Result (Unit {0}) CaseError}
      (flush_cadence unit_floats decode default_config 0 (turns_from 13 1))
      (ok tt)
unfolding flush_cadence check_intervals
steady_passes = ap times_of steady_reads

-- A flush that is skipped shows.
skipped_flush :
    ◌≡◌ {A = Result (Unit {0}) CaseError}
      (check_intervals (millis 1080 ∷ millis 2080 ∷ millis 4080 ∷ []))
      (err interval_above)
unfolding check_intervals
skipped_flush = refl

-- A gateway that closes in place of an answer passes `normal_close`, and fails `expect_close_code`.
closes :
    (◌≡◌ {A = Result (Unit {0}) CaseError}
      (normal_close {T = Unit {0}} (other ∷ close none ∷ []))
      (ok tt))
    × (◌≡◌ {A = Result (Unit {0}) CaseError}
        (expect_close_code {T = Unit {0}} (other ∷ close (some 1003) ∷ []) 1003)
        (err not_a_close))
    × (◌≡◌ {A = Result (Unit {0}) CaseError}
        (expect_close_code {T = Unit {0}} (close (some 1003) ∷ []) 1003)
        (ok tt))
unfolding normal_close expect_close_code
closes = (refl, refl, refl)

flush_cadence-Consecutive_example :
    (◌≤◌ 13 (length steady_state.heard))
    × Consecutive (map (λ (x : ℕ × ℕ). x.0) (flushes_from 13 1))
    × IsStreamed unit_floats cadence_session default_config steady_state
flush_cadence-Consecutive_example =
    flush_cadence-Consecutive unit_floats decode default_config 0 0 (turns_from 13 1) steady_state
      (flushes_from 13 1) steady_reads refl (flushes_from-early 13 1) steady_passes
