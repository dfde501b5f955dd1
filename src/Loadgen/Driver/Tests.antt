-- ===== src/Loadgen/Driver/Tests.antt =====
-- loadgen/rust/src/main.rs: a run of one session with one response, and the parts of the driver on
-- concrete values.
use websocket_stt_bench.Common.{
  ℕ, ◌≤◌, ◌≡◌, min, refl, arith, true, none, some, List, [], ◌∷◌, ◌++◌, length,
}
use websocket_stt_bench.Common.Float.{unit_floats}
use websocket_stt_bench.Common.Counts.{count_of, total}
use websocket_stt_bench.Stub.{compute_stub}
use websocket_stt_bench.Gateway.Text.{bytes, decimal, split}
use websocket_stt_bench.Loadgen.Protocol.{
  PartialMessage, ServerMessage, partial, valid, validate, frame_payload,
}
use websocket_stt_bench.Loadgen.Verify.{
  default_config, checksum, rms, observe, verify_partial, verify_values, expected_stub,
  concat_payload, rms_matches,
}
use websocket_stt_bench.Loadgen.Verify.Values.{IsCorrect}
use websocket_stt_bench.Loadgen.Driver.Correctness.{kind_keys, new_correctness, record_mismatches}
use websocket_stt_bench.Loadgen.Driver.Correctness.Counting.{
  Recording, record_all, times_in, mismatches_in, wrong_in, record_all-counts,
}
use websocket_stt_bench.Loadgen.Driver.Receive.{
  Sample, Session, Arrival, text_message, new_check, open_session, process_inbound, drain_queue,
}
use websocket_stt_bench.Loadgen.Driver.Receive.Steps.{gap_of}
use websocket_stt_bench.Loadgen.Driver.System.{
  System, arrives, verifies, new_system, happen, happen_all,
}
use websocket_stt_bench.Loadgen.Driver.System.Verdict.{clean_run-IsCorrect}
use websocket_stt_bench.Loadgen.Driver.Samples.{
  read_millis, write_millis, columns, write_sample_csv_row, read_millis-write_millis,
  split-write_sample_csv_row,
}

abbrev response : PartialMessage Unit
response = record {
  oldest_frame_seq = 1;
  newest_frame_seq = 1;
  frames = 1;
  rms = tt;
  zero_crossings = 7;
  checksum = 763539697;
  samples = 1280;
  transcript = "quick";
  audio_bytes = 640;
  cpu_passes = 4;
  model_delay_ms = 75;
  flush_lateness_ms = tt;
  inflight_model_jobs = 0;
}

abbrev session : Session
session = record { id = 0; measure_start = 0; end_at = 1000000000000 }

abbrev arrival : Arrival (ServerMessage Unit)
arrival = record { message = text_message (partial response); now = 1100000000; can_sample = true }

abbrev after_run : System Unit
after_run =
    happen_all unit_floats some (new_system unit_floats some default_config 1)
      (arrives session (20000000 ∷ []) arrival ∷ verifies ∷ [])

clean : (drain_queue unit_floats after_run.world.correctness after_run.world.queue).errors ≡ 0
unfolding happen_all happen new_system process_inbound drain_queue validate record_mismatches
    observe verify_partial verify_values expected_stub compute_stub concat_payload frame_payload
    rms_matches
clean = refl

kept : after_run.world.correctness.verify_dropped ≡ 0
unfolding happen_all happen new_system process_inbound drain_queue validate record_mismatches
    observe verify_partial verify_values expected_stub compute_stub concat_payload frame_payload
    rms_matches
kept = refl

goes_on :
    (process_inbound unit_floats some session
      (new_system unit_floats some default_config 1).world
      new_check
      (20000000 ∷ [])
      arrival).state
    ≡ open_session
unfolding new_system process_inbound validate observe
goes_on = refl

clean_run-IsCorrect_example :
    (gap_of unit_floats new_check (partial response) ≡ none)
    × (response.newest_frame_seq ≤ 1)
    × (validate unit_floats response ≡ valid)
    × IsCorrect unit_floats session.id response default_config
unfolding happen_all new_system
clean_run-IsCorrect_example =
    clean_run-IsCorrect unit_floats some default_config [] (verifies ∷ []) session (20000000 ∷ [])
      arrival (partial response) response refl refl refl refl goes_on clean kept

abbrev recordings : List Recording
recordings =
    record {
      session_id = 3;
      message_type = "partial";
      oldest = 1;
      newest = 50;
      mismatches = checksum ∷ rms ∷ [];
    }
    ∷ record { session_id = 4; message_type = "partial"; oldest = 1; newest = 50; mismatches = [] }
    ∷ record {
      session_id = 3;
      message_type = "partial";
      oldest = 51;
      newest = 99;
      mismatches = checksum ∷ [];
    }
    ∷ []

record_all-counts_example :
    let d = record_all (new_correctness default_config 1) recordings in
    (count_of checksum d.counts ≡ times_in checksum recordings)
    × (total d.counts ≡ mismatches_in recordings)
    × (d.errors ≡ wrong_in recordings)
    × (length d.error_samples ≡ min d.errors 5)
record_all-counts_example = record_all-counts default_config 1 recordings checksum

abbrev turns : List (ℕ × ℕ)
turns = (1000000, 1500000) ∷ (90000000, 91000000) ∷ (90000000, 92000000) ∷ []

read_millis-write_millis_example : read_millis (write_millis 12345) ≡ some 12345
read_millis-write_millis_example = read_millis-write_millis 12345 (omega arith)

abbrev sample : Sample
sample = record {
  session_id = 7;
  oldest_frame_seq = 2;
  newest_frame_seq = 4;
  frames = 3;
  transcript = "now";
  audio_bytes = 1920;
  newest_us = 12345;
  oldest_us = 67890;
  flush_lateness_us = 1200;
  received_us = 250500;
}

split-write_sample_csv_row_example :
    split 44 (write_sample_csv_row 0 sample) ≡ (decimal 0, columns sample)
split-write_sample_csv_row_example = split-write_sample_csv_row 0 sample (refl, (refl, (refl, tt)))

-- The row of the source's own test.
row_text :
    write_sample_csv_row 0 sample
    ≡ bytes "0,7,2,4,3,now,1920,12.345,67.890,1.200,250.500" ++ 10 ∷ []
unfolding write_sample_csv_row decimal
row_text = refl
