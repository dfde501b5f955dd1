-- ===== src/Axum/Session.antt =====
-- services/rust-axum/src/session.rs: one connection. Its two tasks, the receive loop and the flush loop,
-- share the buffer, the semaphore and the channel; a step is one turn of one of them. Instants and
-- durations are numbers of nanoseconds.
pub mod Runs
pub mod Ledger
pub mod Steps
pub mod Client
pub mod Content
pub mod Alive
pub mod Contract
pub mod Progress
use websocket_stt_bench.Common.{
  ℕ, zero, suc, ◌+◌, ◌-◌, String, Bool, true, false, Option, none, some, List, [], ◌∷◌, ◌++◌, ltb,
  ◌==◌, if◌then◌else◌, Result, ok, err, length,
}
use websocket_stt_bench.Common.Float.{Float64, millis_f64}
use websocket_stt_bench.Axum.Protocol.{Frame, Json, PartialMessage, ErrorMessage}
use websocket_stt_bench.Axum.Inference.{AppContext, Reply, Request, request_partial}

abbrev pub frame_bytes : ℕ
frame_bytes = 640

abbrev pub max_inflight_inferences : ℕ
max_inflight_inferences = 1

abbrev pub partial_channel_depth : ℕ
partial_channel_depth = 4

abbrev pub close_protocol_error : ℕ
close_protocol_error = 1002

abbrev pub close_unsupported_data : ℕ
close_unsupported_data = 1003

abbrev pub reason_need_start : String
reason_need_start = "first message must be start"

abbrev pub reason_text_after_start : String
reason_text_after_start = "expected binary PCM frames after start"

abbrev pub reason_bad_frame_size : String
reason_bad_frame_size = "expected 640 byte PCM frame"

-- `Option<Result<Message, axum::Error>>`
pub data Inbound : Type 0 where
  binary : List ℕ → Inbound
  text : String → Inbound
  ping_or_pong close_frame receive_error end_of_stream : Inbound

pub data FirstMessage : Type 0 where
  start control bad : FirstMessage

-- Where the flush loop stands: not running, at its ticker, at the request, or at the channel.
pub data FlushTask (F T : Type 0) : Type 0 where
  stopped waiting : FlushTask F T
  requesting : Request F → FlushTask F T
  sending : T → FlushTask F T

pub data Phase : Type 0 where
  awaiting_start streaming ended : Phase

-- `sent` holds the texts that the socket was given, in order.
pub record Conn (F T : Type 0) : Type 0 where
  pub phase : Phase
  pub buffer : List Frame
  pub seq : ℕ
  pub permits : ℕ
  pub channel : List T
  pub flusher : FlushTask F T
  pub expected : ℕ
  pub sent : List T
  pub closed_with : Option (ℕ × String)

-- `turn` is one turn of the receive loop: whether a send succeeds, the message that is ready if one is, the
-- instant, and the phase jitter that is drawn if the session starts.
pub data Event (F : Type 0) : Type 0 where
  turn : (send_ok : Bool) → Option Inbound → (now jitter : ℕ) → Event F
  tick : (now : ℕ) → Event F
  answered : (now : ℕ) → Reply F → Event F
  channel_polled : Event F

module _ {F T : Type 0} where
  abbrev pub new_conn : Conn F T
  new_conn = record {
    phase = awaiting_start;
    buffer = [];
    seq = 0;
    permits = max_inflight_inferences;
    channel = [];
    flusher = stopped;
    expected = 0;
    sent = [];
    closed_with = none;
  }

  abbrev pub send_close : ℕ → String → Conn F T → Conn F T
  send_close code reason c = record c { closed_with = some (code, reason) }

  -- `flusher.abort()`, which drops what the task holds.
  abbrev pub end_session : Conn F T → Conn F T
  end_session c = record c { phase = ended; flusher = stopped }

  -- `handle_inbound`; `true` is `ControlFlow::Break`.
  unfoldable pub handle_inbound : Inbound → ℕ → Conn F T → Conn F T × Bool
  handle_inbound (binary payload) now c =
      if length payload == frame_bytes
      then (
        record c {
          seq = c.seq + 1;
          buffer =
              c.buffer ++ record { seq = c.seq + 1; payload = payload; received_at = now } ∷ [];
        },
        false,
      )
      else (send_close close_unsupported_data reason_bad_frame_size c, true)
  handle_inbound (text t) now c = (send_close close_protocol_error reason_text_after_start c, true)
  handle_inbound close_frame now c = (c, true)
  handle_inbound ping_or_pong now c = (c, false)
  handle_inbound receive_error now c = (c, true)
  handle_inbound end_of_stream now c = (c, true)

  abbrev pub after_inbound : Conn F T × Bool → Conn F T
  after_inbound (c, stop) = if stop then end_session c else c

  -- The `select!` of the receive loop is biased: a text in the channel goes first.
  abbrev pub receive_turn : List T → Bool → Option Inbound → ℕ → Conn F T → Conn F T
  receive_turn (t ∷ rest) send_ok m now c =
      if send_ok then record c { channel = rest; sent = c.sent ++ t ∷ [] } else end_session c
  receive_turn [] send_ok none now c = c
  receive_turn [] send_ok (some m) now c = after_inbound (handle_inbound m now c)

  abbrev pub take_batch : ℕ → List Frame → F → ℕ → Conn F T → Conn F T
  take_batch zero batch lateness now c = c
  take_batch (suc left) [] lateness now c = c
  take_batch (suc left) (f ∷ rest) lateness now c = record c {
    buffer = [];
    permits = left;
    flusher =
        requesting
          (record { oldest = f; others = rest; flush_lateness_ms = lateness; started_at = now });
  }

  -- The permit is dropped at the end of the loop's body.
  abbrev next_round : Conn F T → Conn F T
  next_round c = record c { flusher = waiting; permits = c.permits + 1 }

  abbrev pub send_outbound : Option T → Conn F T → Conn F T
  send_outbound none c = next_round c
  send_outbound (some t) c = record c { flusher = sending t }

  abbrev pub poll_channel : T → Conn F T → Conn F T
  poll_channel t c =
      if ltb (length c.channel) partial_channel_depth
      then next_round (record c { channel = c.channel ++ t ∷ [] })
      else c

module _ {F T : Type 0} (json : Json F T) where
  unfoldable pub classify_first_message : Inbound → FirstMessage
  classify_first_message (text t) = if json.is_start t then start else bad
  classify_first_message ping_or_pong = control
  classify_first_message _ = bad

  abbrev pub to_text : Result (PartialMessage F) (ErrorMessage F) → Option T
  to_text (ok p) = json.write_partial p
  to_text (err e) = json.write_error e

module _ {F T : Type 0} (fl : Float64 F) (json : Json F T) (context : AppContext) where
  abbrev pub on_first : FirstMessage → ℕ → ℕ → Conn F T → Conn F T
  on_first start now jitter c = record c {
    phase = streaming;
    flusher = waiting;
    expected = now + context.flush_interval + jitter;
  }
  on_first control now jitter c = c
  on_first bad now jitter c = end_session (send_close close_protocol_error reason_need_start c)

  -- The loop of `handle_socket` before the session starts.
  unfoldable pub start_turn : Option Inbound → ℕ → ℕ → Conn F T → Conn F T
  unfolding classify_first_message
  start_turn none now jitter c = c
  start_turn (some receive_error) now jitter c = end_session c
  start_turn (some end_of_stream) now jitter c = end_session c
  start_turn (some m) now jitter c = on_first (classify_first_message json m) now jitter c

  -- The flush loop at its ticker.
  unfoldable pub flush_tick : ℕ → Conn F T → Conn F T
  flush_tick now c =
      take_batch c.permits c.buffer (millis_f64 fl (now - c.expected)) now
        (record c { expected = c.expected + context.flush_interval })

module _ {F T : Type 0} (fl : Float64 F) (json : Json F T) (status_message : ℕ → String)
    (context : AppContext) where
  -- One turn of the flush loop, if it waits for the event.
  abbrev pub flush_step : FlushTask F T → Event F → Conn F T → Conn F T
  flush_step waiting (tick now) c = flush_tick fl json context now c
  flush_step (requesting r) (answered now reply) c =
      send_outbound
        (to_text json (request_partial fl status_message context r now (length c.buffer) reply)) c
  flush_step (sending t) channel_polled c = poll_channel t c
  flush_step _ e c = c

  abbrev pub on_turn : Phase → Bool → Option Inbound → ℕ → ℕ → Conn F T → Conn F T
  on_turn awaiting_start send_ok m now jitter c = start_turn fl json context m now jitter c
  on_turn streaming send_ok m now jitter c = receive_turn c.channel send_ok m now c
  on_turn ended send_ok m now jitter c = c

  unfoldable pub step : Event F → Conn F T → Conn F T
  unfolding start_turn handle_inbound flush_tick request_partial
  step (turn send_ok m now jitter) c = on_turn c.phase send_ok m now jitter c
  step e c = flush_step c.flusher e c

  unfoldable pub run : List (Event F) → Conn F T → Conn F T
  unfolding step
  run [] c = c
  run (e ∷ es) c = run es (step e c)
