-- ===== src/Loadgen/Driver/Task/Tests.antt =====
-- loadgen/rust/src/main.rs: sessions that end well, with one response, and one that a late gap escapes.
use websocket_stt_bench.Common.{
  ℕ, zero, suc, ◌+◌, ◌*◌, ◌≤◌, ◌≡◌, refl, sym, subst, arith, Bool, true, Option, some, List, [],
  ◌∷◌, map, All, length, ok,
}
use websocket_stt_bench.Common.Float.{unit_floats}
use websocket_stt_bench.Stub.{StubResult, compute_stub}
use websocket_stt_bench.Loadgen.Protocol.{
  PartialMessage, ServerMessage, partial, validate, frame_payload,
}
use websocket_stt_bench.Loadgen.Verify.{
  default_config, continuity_start, tail_tolerance_frames, observe, verify_partial, verify_values,
  expected_stub, concat_payload, rms_matches, check_tail,
}
use websocket_stt_bench.Loadgen.Verify.Coverage.{covers}
use websocket_stt_bench.Loadgen.Driver.Correctness.{record_mismatches}
use websocket_stt_bench.Loadgen.Driver.Outcomes.{
  SessionEnd, finished, Timed, in_time, no_timeouts, record_session_outcome,
}
use websocket_stt_bench.Loadgen.Driver.Outcomes.Sessions.{
  failures, timeouts_of, all_timeouts, no_failures,
}
use websocket_stt_bench.Loadgen.Driver.Receive.{
  World, Session, Arrival, text_message, close_message, process_inbound, drain_queue, last_measured,
}
use websocket_stt_bench.Loadgen.Driver.System.{new_system}
use websocket_stt_bench.Loadgen.Driver.System.Verdict.{Grows, Grows-refl}
use websocket_stt_bench.Loadgen.Driver.Task.{
  Task, Arm, tick, message, meanwhile, ClosingArm, late_message, grace_over, elsewhere, Script,
  run_session,
}
use websocket_stt_bench.Loadgen.Driver.Task.Effects.{range_of}
use websocket_stt_bench.Loadgen.Driver.Task.Run.{Correct, Linked, moved_all}
use websocket_stt_bench.Loadgen.Driver.Task.Loops.{ArmFits, Fits}
use websocket_stt_bench.Loadgen.Driver.Task.Covered.{
  finished_session_continues, finished_session_covers,
}
use websocket_stt_bench.Loadgen.Driver.Task.Counted.{run_session-counts}

abbrev session : Session
session = record { id = 0; measure_start = 0; end_at = 5000000000 }

abbrev sent_in_time : Timed (Unit {0})
sent_in_time = in_time (ok tt)

-- Frames until the loop has gone round so often.
abbrev ticks :
    ℕ → List (ℕ × Arm Unit (ServerMessage Unit)) → List (ℕ × Arm Unit (ServerMessage Unit))
ticks zero rest = rest
ticks (suc n) rest = (0, tick 0 0 (some sent_in_time)) ∷ ticks n rest

abbrev want : ℕ → StubResult Unit
want n = expected_stub unit_floats 0 1 n 4

abbrev answer : ℕ → PartialMessage Unit
answer n = record {
  oldest_frame_seq = 1;
  newest_frame_seq = n;
  frames = n;
  rms = tt;
  zero_crossings = (want n).zero_crossings;
  checksum = (want n).checksum;
  samples = (want n).samples;
  transcript = (want n).transcript;
  audio_bytes = 640 * n;
  cpu_passes = 4;
  model_delay_ms = 75;
  flush_lateness_ms = tt;
  inflight_model_jobs = 0;
}

abbrev reads : ℕ → PartialMessage Unit → Arrival (ServerMessage Unit)
reads now p = record { message = text_message (partial p); now = now; can_sample = true }

abbrev closes : Arrival (ServerMessage Unit)
closes = record { message = close_message; now = 5000000000; can_sample = true }

abbrev quiet : World Unit → World Unit
quiet w = w

-- So many frames, a response for the first two, and after the loop the messages of the close.
abbrev script : ℕ → List (ClosingArm Unit (ServerMessage Unit)) → Script Unit (ServerMessage Unit)
script n closing = record {
  connect = some sent_in_time;
  send_start = some sent_in_time;
  loop_start = 0;
  turns = ticks n (
      (1000000000, meanwhile quiet)
      ∷ (1000000000, message (reads 1000000000 (answer 2)))
      ∷ (5000000000, meanwhile quiet)
      ∷ []);
  send_close = some sent_in_time;
  closing = closing;
}

ticks_fit :
    (n : ℕ) (rest : List (ℕ × Arm Unit (ServerMessage Unit)))
    → All (ArmFits unit_floats some session default_config) rest
    → All (ArmFits unit_floats some session default_config) (ticks n rest)
ticks_fit zero rest h = h
ticks_fit (suc n) rest h = (tt, ticks_fit n rest h)

quietly : (w : World Unit) → Grows {T = ServerMessage Unit} unit_floats some w w
quietly w = Grows-refl unit_floats some w

abbrev good_end : List (ClosingArm Unit (ServerMessage Unit))
good_end = elsewhere quiet ∷ late_message closes ∷ []

fits : Fits unit_floats some session default_config (script 301 good_end)
fits = (
  ticks_fit 301
      ((1000000000, meanwhile quiet)
        ∷ (1000000000, message (reads 1000000000 (answer 2)))
        ∷ (5000000000, meanwhile quiet)
        ∷ [])
      (quietly, (tt, (quietly, tt))),
  (quietly, (tt, tt)),
)

abbrev run_of : Script Unit (ServerMessage Unit) → Task Unit × Option SessionEnd
run_of sc =
    run_session unit_floats some session
      (new_system {T = ServerMessage Unit} unit_floats some default_config 1).world no_timeouts sc

abbrev ended : Task Unit
ended = (run_of (script 301 good_end)).0

ends_well : run_of (script 301 good_end) ≡ (ended, some finished)
unfolding run_session new_system process_inbound validate observe expected_stub compute_stub
    concat_payload frame_payload
ends_well = refl

clean : (drain_queue unit_floats ended.world.correctness ended.world.queue).errors ≡ 0
unfolding run_session new_system process_inbound validate observe expected_stub compute_stub
    concat_payload frame_payload drain_queue record_mismatches verify_partial verify_values
    rms_matches check_tail
clean = refl

kept : ended.world.correctness.verify_dropped ≡ 0
unfolding run_session new_system process_inbound validate observe expected_stub compute_stub
    concat_payload frame_payload record_mismatches check_tail
kept = refl

-- What the session heard, and how far it came.
heard_one : ended.heard ≡ (true, partial (answer 2)) ∷ []
unfolding run_session new_system process_inbound validate observe expected_stub compute_stub
    concat_payload frame_payload
heard_one = refl

sent_all : length ended.sender.sent_times ≡ 301
unfolding run_session new_system process_inbound validate observe expected_stub compute_stub
    concat_payload frame_payload
sent_all = refl

sent_inside : last_measured ended.sender.sent_times 0 ≡ true
unfolding run_session new_system process_inbound validate observe expected_stub compute_stub
    concat_payload frame_payload
sent_inside = refl

heard_inside : All (λ (x : Bool × ServerMessage Unit). x.0 ≡ true) ended.heard
heard_inside =
    subst (λ ms. All (λ (x : Bool × ServerMessage Unit). x.0 ≡ true) ms) (sym heard_one) (refl, tt)

finished_session_continues_example :
    Linked unit_floats session default_config continuity_start ended.heard
    × (last_measured ended.sender.sent_times 0 ≡ true
        → length ended.sender.sent_times
          ≤ (moved_all unit_floats session default_config continuity_start ended.heard).last_newest
            + tail_tolerance_frames)
finished_session_continues_example =
    finished_session_continues unit_floats some session default_config no_timeouts
      (script 301 good_end) ended fits ends_well clean kept

finished_session_covers_example :
    (covers 1 (map range_of ended.heard) ≡ 1)
    × All
        (λ (x : Bool × ServerMessage Unit). Correct unit_floats session default_config x.1)
        ended.heard
finished_session_covers_example =
    finished_session_covers unit_floats some session default_config no_timeouts
      (script 301 good_end) ended 1 fits ends_well clean kept heard_inside sent_inside (omega arith)
      (omega (arith, sent_all))

run_session-counts_example :
    (u : Task Unit) × (e : SessionEnd) × (run_session unit_floats some session
        (new_system {T = ServerMessage Unit} unit_floats some default_config 1).world
        no_timeouts
        (script 4 (grace_over ∷ []))
      ≡ (u, some e))
    × (let tally = record_session_outcome (record no_failures { timeouts = u.counters }) e in
        (tally.protocol_errors ≡ 0 + failures e)
        × (all_timeouts tally.timeouts ≡ 0 + timeouts_of e))
run_session-counts_example =
    run_session-counts unit_floats some session
      (new_system {T = ServerMessage Unit} unit_floats some default_config 1).world no_failures
      (script 4 (grace_over ∷ []))

-- Frame 3 is never reported. The response behind it comes once the window has passed, so its gap is not
-- counted; it moves the tracker, so the tail is not missing either.
abbrev gap_end : List (ClosingArm Unit (ServerMessage Unit))
gap_end =
    late_message (
      reads 5000000001
        (record (answer 2) { oldest_frame_seq = 4; newest_frame_seq = 4; frames = 1 }))
    ∷ late_message closes
    ∷ []

abbrev gapped : Task Unit
gapped = (run_of (script 4 gap_end)).0

late_gap_ends_well : run_of (script 4 gap_end) ≡ (gapped, some finished)
unfolding run_session new_system process_inbound validate observe expected_stub compute_stub
    concat_payload frame_payload
late_gap_ends_well = refl

late_gap_uncounted :
    (drain_queue unit_floats gapped.world.correctness gapped.world.queue).errors ≡ 0
unfolding run_session new_system process_inbound validate observe expected_stub compute_stub
    concat_payload frame_payload drain_queue record_mismatches verify_partial verify_values
    rms_matches check_tail
late_gap_uncounted = refl
