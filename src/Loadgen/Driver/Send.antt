-- ===== src/Loadgen/Driver/Send.antt =====
-- loadgen/rust/src/main.rs: the send loop of `run_session`. Instants are numbers of nanoseconds.
use websocket_stt_bench.Common.{
  ℕ, ◌+◌, ◌-◌, ◌*◌, ◌/◌, ◌<◌, ◌≡◌, Bool, some, List, [], ◌∷◌, ◌++◌, leb, if◌then◌else◌, length,
  get_elem?,
}
use websocket_stt_bench.Loadgen.Protocol.{frame_interval, frame_payload}

abbrev pub interval_nanos : ℕ
interval_nanos = frame_interval * 1000000

-- The mutable locals of the loop, the payloads that the socket was given, and the two histograms as the
-- values that were recorded.
pub record Sender : Type 0 where
  pub sent_times : List ℕ
  pub seq : ℕ
  pub next_tick : ℕ
  pub frames : List (List ℕ)
  pub lag : List ℕ
  pub block : List ℕ

abbrev pub new_sender : ℕ → Sender
new_sender start = record {
  sent_times = [];
  seq = 0;
  next_tick = start;
  frames = [];
  lag = [];
  block = [];
}

abbrev micros_since : ℕ → ℕ → ℕ
micros_since now since = (now - since) / 1000

abbrev record_if : Bool → ℕ → List ℕ → List ℕ
record_if test v vs = if test then vs ++ v ∷ [] else vs

-- The arm of the timer, of a send that succeeds: when the task wakes, and when the send is done.
unfoldable pub send_frame : (session_id measure_start woke sent_at : ℕ) → Sender → Sender
send_frame session_id measure_start woke sent_at s =
    let measured = leb measure_start s.next_tick in
    record {
      lag = record_if measured (micros_since woke s.next_tick) s.lag;
      seq = s.seq + 1;
      sent_times = s.sent_times ++ s.next_tick ∷ [];
      frames = s.frames ++ frame_payload session_id (s.seq + 1) ∷ [];
      block = record_if measured (micros_since sent_at woke) s.block;
      next_tick = s.next_tick + interval_nanos;
    }

-- Turns of the timer, each with its two instants.
abbrev pub send_frames : (session_id measure_start : ℕ) → List (ℕ × ℕ) → Sender → Sender
send_frames session_id measure_start [] s = s
send_frames session_id measure_start ((woke, sent_at) ∷ rest) s =
    send_frames session_id measure_start rest (send_frame session_id measure_start woke sent_at s)

-- The state on the timeline that starts at `start`.
record OnTime (session_id start : ℕ) (s : Sender) : Type 0 where
  times : length s.sent_times ≡ s.seq
  sent : length s.frames ≡ s.seq
  next : s.next_tick ≡ start + s.seq * interval_nanos
  scheduled : (i : ℕ) → i < s.seq → get_elem? s.sent_times i ≡ some (start + i * interval_nanos)
  payloads : (i : ℕ) → i < s.seq → get_elem? s.frames i ≡ some (frame_payload session_id (i + 1))
