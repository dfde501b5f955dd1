-- ===== src/Loadgen/Driver/Receive.antt =====
-- loadgen/rust/src/main.rs: `process_inbound`, which handles one message of a session, and the verifier
-- thread with its bounded queue. Instants are numbers of nanoseconds. The state that the sessions share is
-- `World`; what the socket gives, and whether the sample channel is open, comes with each message.
pub mod Faults
pub mod Steps
use websocket_stt_bench.Common.{
  ℕ, ◌+◌, ◌-◌, ◌/◌, ◌%◌, String, Bool, true, false, not, ◌&&◌, Option, none, some, List, [], ◌∷◌,
  ◌++◌, ltb, leb, ◌==◌, if◌then◌else◌, length, get_elem?,
}
use websocket_stt_bench.Common.Float.{Float64}
use websocket_stt_bench.Loadgen.Protocol.{
  PartialMessage, ErrorMessage, ServerMessage, partial, error, Validation, valid, invalid, validate,
}
use websocket_stt_bench.Loadgen.Verify.{
  MismatchKind, missing_tail, unsent_frame, invalid_partial, Continuity, continuity_start, observe,
  check_tail, verify_partial,
}
use websocket_stt_bench.Loadgen.Verify.Coverage.{to_list}
use websocket_stt_bench.Loadgen.Driver.Outcomes.{InferenceErrorDetails, record_error}
use websocket_stt_bench.Loadgen.Driver.Correctness.{
  Correctness, record_mismatches, record_malformed,
}

abbrev pub verify_queue_capacity : ℕ
verify_queue_capacity = 16384

pub record VerifyJob (F : Type 0) : Type 0 where
  pub session_id : ℕ
  pub response : PartialMessage F
  pub inline : List MismatchKind

pub record Sample : Type 0 where
  pub session_id : ℕ
  pub oldest_frame_seq : ℕ
  pub newest_frame_seq : ℕ
  pub frames : ℕ
  pub transcript : String
  pub audio_bytes : ℕ
  pub newest_us : ℕ
  pub oldest_us : ℕ
  pub flush_lateness_us : ℕ
  pub received_us : ℕ

pub record World (F : Type 0) : Type 0 where
  pub correctness : Correctness
  pub inference_errors : ℕ
  pub error_details : InferenceErrorDetails
  pub queue : List (VerifyJob F)
  pub verifier_alive : Bool
  pub samples : List Sample

pub record SessionCheck : Type 0 where
  pub continuity : Continuity
  pub measured_partials : ℕ

abbrev pub new_check : SessionCheck
new_check = record { continuity = continuity_start; measured_partials = 0 }

-- `Option<Result<Message, WsError>>`
pub data Inbound (T : Type 0) : Type 0 where
  text_message : T → Inbound T
  binary_message close_message other_message : Inbound T
  end_of_stream closed_error read_error : Inbound T

-- A message, with the instant at which it is read and whether a sample can be sent.
pub record Arrival (T : Type 0) : Type 0 where
  pub message : Inbound T
  pub now : ℕ
  pub can_sample : Bool

pub data InboundState : Type 0 where
  open_session closed_session session_error : InboundState

pub record Session : Type 0 where
  pub id : ℕ
  pub measure_start : ℕ
  pub end_at : ℕ

-- What a handler leaves: the shared state, the session's own, and whether the session goes on.
pub record Handled (F : Type 0) : Type 0 where
  pub world : World F
  pub check : SessionCheck
  pub state : InboundState

abbrev pub measured : Session → ℕ → Bool
measured s now = leb s.measure_start now && leb now s.end_at

module _ {F : Type 0} where
  abbrev pub with_errors : World F → ℕ → String → ℕ → ℕ → List MismatchKind → World F
  with_errors w id message_type oldest newest ms = record w {
    correctness = record_mismatches w.correctness id message_type oldest newest ms;
  }

  -- `submit_verify`
  unfoldable pub submit_verify : World F → VerifyJob F → World F
  submit_verify w job =
      if w.verifier_alive && ltb (length w.queue) verify_queue_capacity
      then record w { queue = w.queue ++ job ∷ [] }
      else with_errors
          (record w {
            correctness = record w.correctness {
              verify_dropped = w.correctness.verify_dropped + 1;
            };
          })
          job.session_id "partial" job.response.oldest_frame_seq job.response.newest_frame_seq
          job.inline

  -- The gateway's error frames.
  unfoldable pub on_error : Session → World F → SessionCheck → ErrorMessage F → ℕ → Handled F
  on_error s w check e now =
      let (tracker, gap) = observe check.continuity e.oldest_frame_seq e.newest_frame_seq in
      let w' =
        if measured s now
        then with_errors w s.id "error" e.oldest_frame_seq e.newest_frame_seq (to_list gap)
        else w in
      record {
        world = record w' {
          inference_errors = w'.inference_errors + 1;
          error_details = record_error w'.error_details e;
        };
        check = record check { continuity = tracker };
        state = open_session;
      }

module _ {F : Type 0} (fl : Float64 F) where
  abbrev micros_since : ℕ → ℕ → ℕ
  micros_since now since = (now - since) / 1000

  unfoldable pub sample_for : Session → PartialMessage F → ℕ → ℕ → ℕ → Sample
  sample_for s p now newest_sent oldest_sent = record {
    session_id = s.id;
    oldest_frame_seq = p.oldest_frame_seq;
    newest_frame_seq = p.newest_frame_seq;
    frames = p.frames;
    transcript = p.transcript;
    audio_bytes = p.audio_bytes;
    newest_us = micros_since now newest_sent;
    oldest_us = micros_since now oldest_sent;
    flush_lateness_us =
        fl.round_u64 (fl.mul (fl.max p.flush_lateness_ms (fl.of_nat 0)) (fl.of_nat 1000));
    received_us = micros_since now s.measure_start;
  }

  -- The selection for value verification, and its submission.
  unfoldable pub select_partial :
      Session
      → World F
      → SessionCheck
      → PartialMessage F
      → (unsent : Bool) → List MismatchKind
      → Handled F
  unfolding submit_verify
  select_partial s w check p unsent inline =
      let counted = not unsent && ltb 0 w.correctness.verify_every in
      let selected = counted && check.measured_partials % w.correctness.verify_every == 0 in
      record {
        world =
            if selected
            then submit_verify w (record { session_id = s.id; response = p; inline = inline })
            else with_errors w s.id "partial" p.oldest_frame_seq p.newest_frame_seq inline;
        check =
            if counted
            then record check { measured_partials = check.measured_partials + 1 }
            else check;
        state = open_session;
      }

  -- The latency sample, if both frames were sent; without a receiver the session fails.
  abbrev pub after_sample :
      Option ℕ
      → Option ℕ
      → Session
      → World F
      → SessionCheck
      → PartialMessage F
      → Bool
      → List MismatchKind
      → ℕ
      → Bool
      → Handled F
  after_sample (some newest_sent) (some oldest_sent) s w check p unsent inline now can_sample =
      if can_sample
      then select_partial s
          (record w { samples = w.samples ++ sample_for s p now newest_sent oldest_sent ∷ [] })
          check p unsent inline
      else record { world = w; check = check; state = session_error }
  after_sample _ _ s w check p unsent inline now can_sample =
      select_partial s w check p unsent inline

  -- A valid partial inside the measured window.
  unfoldable pub on_measured :
      Session
      → World F
      → SessionCheck
      → PartialMessage F
      → List MismatchKind
      → List ℕ
      → ℕ
      → Bool
      → Handled F
  unfolding select_partial sample_for
  on_measured s w check p gap sent_times now can_sample =
      let unsent = ltb (length sent_times) p.newest_frame_seq in
      after_sample (get_elem? sent_times (p.newest_frame_seq - 1))
        (get_elem? sent_times (p.oldest_frame_seq - 1)) s w check p unsent
        (gap ++ (if unsent then unsent_frame ∷ [] else [])) now can_sample

  abbrev pub after_validate :
      Validation
      → Session
      → World F
      → SessionCheck
      → PartialMessage F
      → List MismatchKind
      → List ℕ
      → ℕ
      → Bool
      → Handled F
  after_validate (invalid e) s w check p gap sent_times now can_sample = record {
    world =
        with_errors w s.id "partial" p.oldest_frame_seq p.newest_frame_seq
          (gap ++ invalid_partial ∷ []);
    check = check;
    state = open_session;
  }
  after_validate valid s w check p gap sent_times now can_sample =
      if measured s now
      then on_measured s w check p gap sent_times now can_sample
      else record { world = w; check = check; state = open_session }

  -- Partials; the range is observed before the partial is validated.
  unfoldable pub on_partial :
      Session → World F → SessionCheck → PartialMessage F → List ℕ → ℕ → Bool → Handled F
  unfolding on_measured
  on_partial s w check p sent_times now can_sample =
      let (tracker, gap) = observe check.continuity p.oldest_frame_seq p.newest_frame_seq in
      after_validate (validate fl p) s w (record check { continuity = tracker }) p (to_list gap)
        sent_times now can_sample

  abbrev pub on_decoded :
      Option (ServerMessage F) → Session → World F → SessionCheck → List ℕ → ℕ → Bool → Handled F
  on_decoded none s w check sent_times now can_sample = record {
    world = record w { correctness = record_malformed w.correctness s.id };
    check = check;
    state = open_session;
  }
  on_decoded (some (error e)) s w check sent_times now can_sample = on_error s w check e now
  on_decoded (some (partial p)) s w check sent_times now can_sample =
      on_partial s w check p sent_times now can_sample

  -- `process_inbound`, given the parser of server messages.
  unfoldable pub process_inbound :
      {T : Type 0}
      → (T → Option (ServerMessage F))
      → Session
      → World F
      → SessionCheck
      → List ℕ
      → Arrival T
      → Handled F
  unfolding on_error on_partial
  process_inbound from_str s w check sent_times a = elim a.message [
    | text_message t ↦ on_decoded (from_str t) s w check sent_times a.now a.can_sample
    | binary_message ↦ record {
      world = record w { correctness = record_malformed w.correctness s.id };
      check = check;
      state = open_session;
    }
    | other_message ↦ record { world = w; check = check; state = open_session }
    | close_message ↦ record { world = w; check = check; state = closed_session }
    | end_of_stream ↦ record { world = w; check = check; state = closed_session }
    | closed_error ↦ record { world = w; check = check; state = closed_session }
    | read_error ↦ record { world = w; check = check; state = session_error }
  ]

  -- One job of the verifier thread.
  unfoldable pub verify_job : Correctness → VerifyJob F → Correctness
  verify_job c job =
      let ms = job.inline ++ verify_partial fl job.session_id job.response c.expected in
      record_mismatches (record c { verified = c.verified + 1 }) job.session_id "partial"
        job.response.oldest_frame_seq job.response.newest_frame_seq ms

  -- `Verifier::finish`: the queue is drained.
  unfoldable pub drain_queue : Correctness → List (VerifyJob F) → Correctness
  unfolding verify_job
  drain_queue c [] = c
  drain_queue c (job ∷ rest) = drain_queue (verify_job c job) rest

-- `check_session_tail`
abbrev pub last_measured : List ℕ → ℕ → Bool
last_measured [] start = false
last_measured (t ∷ []) start = leb start t
last_measured (t ∷ u ∷ rest) start = last_measured (u ∷ rest) start

abbrev pub tail_mismatch : Correctness → ℕ → ℕ → ℕ → List MismatchKind → Correctness
tail_mismatch c id reported sent ms = record_mismatches c id "session_end" (reported + 1) sent ms

unfoldable pub check_session_tail : Session → List ℕ → SessionCheck → Correctness → Correctness
check_session_tail s sent_times check c =
    if last_measured sent_times s.measure_start
    then tail_mismatch c s.id check.continuity.last_newest (length sent_times)
        (to_list (check_tail (length sent_times) check.continuity.last_newest))
    else c
