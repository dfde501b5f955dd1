-- ===== src/Loadgen/Conformance/Cases.antt =====
-- loadgen/rust/src/bin/stt-conformance.rs: the cases that stream frames at their pace. Durations and instants are numbers
-- of nanoseconds. The texts of errors are left out.
use websocket_stt_bench.Common.{
  ℕ, ◌+◌, ◌-◌, ◌*◌, Bool, true, false, ◌&&◌, Option, none, some, List, [], ◌∷◌, ◌++◌, ltb, leb,
  length, Result, ok, err,
}
use websocket_stt_bench.Common.Float.{Float64}
use websocket_stt_bench.Loadgen.Protocol.{
  PartialMessage, ServerMessage, frame_payload, frame_interval, flush_interval,
}
use websocket_stt_bench.Loadgen.Verify.{ExpectedConfig}
use websocket_stt_bench.Loadgen.Conformance.{
  PartialChecker, new_checker, check, CaseError, server_closed, read_failed, closed_early,
  timed_out, send_failed, interval_below, interval_above, first_interval, no_partial,
}
use websocket_stt_bench.Loadgen.Conformance.Replies.{
  NextMessage, text, close, other, closed_error, failure, end_of_stream, expect_partial, require,
}

abbrev pub millis : ℕ → ℕ
millis n = n * 1000000

abbrev pub cadence_session : ℕ
cadence_session = 101

abbrev pub isolation_left : ℕ
isolation_left = 211

abbrev pub isolation_right : ℕ
isolation_right = 422

abbrev pub cadence_intervals : ℕ
cadence_intervals = 12

abbrev pub cadence_send_for : ℕ
cadence_send_for = millis (flush_interval * (cadence_intervals + 1) + 250)

-- The locals of `stream_paced`, with the frames that it has written, the partials that it has checked, and for each
-- how many frames were written when it was read.
pub record Paced (F : Type 0) : Type 0 where
  pub sent : ℕ
  pub next_frame : ℕ
  pub checker : PartialChecker
  pub partial_times : List ℕ
  pub written : List (List ℕ)
  pub heard : List (PartialMessage F)
  pub sent_before : List ℕ

-- The arms of its `select!`, each with the instant: a send, with its success; a reply, which is noted then; the
-- deadline. The two readings of the clock at the head of a turn are taken as one.
pub data PacedArm (T : Type 0) : Type 0 where
  send_due : (at : ℕ) → Bool → PacedArm T
  reply : Option (NextMessage T) → (noted : ℕ) → PacedArm T
  deadline : (at : ℕ) → PacedArm T

-- Whether an arm can fire, in a turn that began at `now`: a frame if the sending lasted then, once the frame is
-- due; the deadline once it has passed.
abbrev pub enabled : {F T : Type 0} → (stop_sending give_up now : ℕ) → PacedArm T → Paced F → Bool
enabled stop_sending give_up now (send_due at sent) s = leb s.next_frame at && ltb now stop_sending
enabled stop_sending give_up now (reply r at) s = true
enabled stop_sending give_up now (deadline at) s = leb give_up at

abbrev pub start_paced : {F : Type 0} → ℕ → ExpectedConfig → ℕ → Paced F
start_paced session_id expected started = record {
  sent = 0;
  next_frame = started;
  checker = new_checker session_id expected;
  partial_times = [];
  written = [];
  heard = [];
  sent_before = [];
}

module _ {F T : Type 0} (fl : Float64 F) (from_str : T → Option (ServerMessage F)) where
  abbrev pub noted :
      PartialMessage F
      → ℕ
      → Paced F
      → PartialChecker × Option CaseError
      → Result (Paced F) CaseError
  noted p now s (c, some e) = err e
  noted p now s (c, none) = ok (record s {
    checker = c;
    partial_times = s.partial_times ++ now ∷ [];
    heard = s.heard ++ p ∷ [];
    sent_before = s.sent_before ++ s.sent ∷ [];
  })

  abbrev pub paced_partial :
      Result (PartialMessage F) CaseError → ℕ → Paced F → Result (Paced F) CaseError
  paced_partial (err e) now s = err e
  paced_partial (ok p) now s = noted p now s (check fl s.checker p s.sent)

  unfoldable pub on_paced : PacedArm T → Paced F → Result (Paced F) CaseError
  unfolding check
  on_paced (send_due at true) s = ok (record s {
    sent = s.sent + 1;
    next_frame = s.next_frame + millis frame_interval;
    written = s.written ++ frame_payload s.checker.session_id (s.sent + 1) ∷ [];
  })
  on_paced (send_due at false) s = err send_failed
  on_paced (reply none now) s = err closed_early
  on_paced (reply (some (text t)) now) s = paced_partial (expect_partial from_str t) now s
  on_paced (reply (some (close code)) now) s = err server_closed
  on_paced (reply (some other) now) s = ok s
  on_paced (reply (some closed_error) now) s = err read_failed
  on_paced (reply (some failure) now) s = err read_failed
  on_paced (reply (some end_of_stream) now) s = err closed_early
  on_paced (deadline at) s = err timed_out

  abbrev pub if_paced :
      Result (Paced F) CaseError
      → (Paced F → Result (Paced F) CaseError)
      → Result (Paced F) CaseError
  if_paced (err e) k = err e
  if_paced (ok s) k = k s

  -- A turn whose arm cannot fire changes nothing.
  abbrev pub fired : Bool → PacedArm T → Paced F → Result (Paced F) CaseError
  fired true arm s = on_paced arm s
  fired false arm s = ok s

  -- The loop of `stream_paced`, each turn with the instant at its head.
  unfoldable pub paced_loop :
      (min_partials stop_sending give_up : ℕ)
      → List (ℕ × PacedArm T)
      → Paced F
      → Result (Paced F) CaseError
  unfolding on_paced
  paced_loop min_partials stop_sending give_up [] s = err timed_out
  paced_loop min_partials stop_sending give_up ((now, arm) ∷ rest) s =
      elim (leb min_partials (length s.partial_times) && leb stop_sending now) [
        | true ↦ ok s
        | false ↦
            if_paced (fired (enabled stop_sending give_up now arm s) arm s)
              (λ u. paced_loop min_partials stop_sending give_up rest u)
      ]

  unfoldable pub stream_paced :
      (session_id : ℕ)
      → ExpectedConfig
      → (min_partials started send_for give_up_after : ℕ) → List (ℕ × PacedArm T)
      → Result (Paced F) CaseError
  unfolding paced_loop
  stream_paced session_id expected min_partials started send_for give_up_after turns =
      paced_loop min_partials (started + send_for) (started + give_up_after) turns
        (start_paced session_id expected started)

-- The intervals between successive partials.
unfoldable pub check_intervals : List ℕ → Result (Unit {0}) CaseError
check_intervals [] = ok tt
check_intervals (t ∷ []) = ok tt
check_intervals (t ∷ u ∷ rest) =
    let more = check_intervals (u ∷ rest) in
    require (leb (millis (flush_interval - 250)) (u - t)) interval_below
      (require (leb (u - t) (millis (flush_interval + 500))) interval_above more)

abbrev pub check_first : List ℕ → Result (Unit {0}) CaseError
check_first (t ∷ u ∷ rest) =
    require (leb (u - t) (millis (flush_interval + 250))) first_interval (ok tt)
check_first _ = ok tt

abbrev pub both :
    Result (Unit {0}) CaseError → Result (Unit {0}) CaseError → Result (Unit {0}) CaseError
both (err e) r = err e
both (ok u) r = r

abbrev pub cadence_of : List ℕ → Result (Unit {0}) CaseError
cadence_of times =
    require (leb (cadence_intervals + 1) (length times)) no_partial
      (both (check_intervals times) (check_first times))

abbrev pub times_of : {F : Type 0} → Result (Paced F) CaseError → Result (Unit {0}) CaseError
times_of (err e) = err e
times_of (ok s) = cadence_of s.partial_times

abbrev pub without_times : {F : Type 0} → Result (Paced F) CaseError → Result (Unit {0}) CaseError
without_times (err e) = err e
without_times (ok s) = ok tt

module _ {F T : Type 0} (fl : Float64 F) (from_str : T → Option (ServerMessage F)) where
  unfoldable pub flush_cadence :
      ExpectedConfig → ℕ → List (ℕ × PacedArm T) → Result (Unit {0}) CaseError
  unfolding stream_paced check_intervals
  flush_cadence expected started turns = times_of (
      stream_paced fl from_str cadence_session expected (cadence_intervals + 1) started
        cadence_send_for (cadence_send_for + millis 4000) turns)

  -- Both connections run at once; the first that fails is reported.
  unfoldable pub concurrent_isolation :
      ExpectedConfig
      → (left_started right_started : ℕ) → List (ℕ × PacedArm T)
      → List (ℕ × PacedArm T)
      → Result (Unit {0}) CaseError
  unfolding stream_paced
  concurrent_isolation expected left_started right_started left right =
      both
        (without_times (
          stream_paced fl from_str isolation_left expected 2 left_started (millis 2250)
            (millis 6000) left))
        (without_times (
          stream_paced fl from_str isolation_right expected 2 right_started (millis 2250)
            (millis 6000) right))
