-- ===== src/Gateway/Session.antt =====
-- services/rust-sync/src/session.rs: one connection, advanced by the events of the loop. Sockets are
-- not modelled: what `tungstenite` reads is an argument (with the instant at which the loop takes it),
-- what it is given to write is a list in the state, and the outcome of a flush is an argument.
-- `registered` is the interest last handed to the registry. The scratch buffer `json` is local.
use websocket_stt_bench.Common.{
  ℕ, zero, suc, ◌+◌, ◌-◌, min, String, Bool, true, false, not, ◌&&◌, Option, none, some, List, [],
  ◌∷◌, ◌++◌, ltb, leb, ◌==◌, if◌then◌else◌, length, last_or, Result, ok, err,
}
pub mod Cases
use mathlib.Core.Option
use websocket_stt_bench.Common.Float.{Float64, millis_f64}
use websocket_stt_bench.Gateway.Config.{
  Config, frame_bytes, inference_timeout, reason_need_start, reason_text_after_start,
  reason_bad_frame_size,
}
use websocket_stt_bench.Gateway.Protocol.{
  InferResponse, PartialMessage, ErrorMessage, Json, partial_type, error_type,
}
use websocket_stt_bench.Gateway.Inference.{InferError}

pub data Outcome : Type 0 where
  keep close : Outcome

pub record FrameMeta : Type 0 where
  pub seq : ℕ
  pub received_at : ℕ

pub record Batch (F : Type 0) : Type 0 where
  pub oldest_seq : ℕ
  pub newest_seq : ℕ
  pub oldest_at : ℕ
  pub newest_at : ℕ
  pub frames : ℕ
  pub audio_bytes : ℕ
  pub flush_lateness_ms : F

abbrev pub tag : {F : Type 0} → Batch F → ℕ
tag b = b.oldest_seq

pub record Pending (F : Type 0) : Type 0 where
  pub batch : Batch F
  pub started : ℕ

-- What the loop must do after ticking a connection's timer.
pub data Tick (F : Type 0) : Type 0 where
  idle : Tick F
  flush : Batch F → Tick F
  expired : F → Tick F

-- What a connection hands to its WebSocket: a text message, a close frame, or a close without one.
pub data Sent (T : Type 0) : Type 0 where
  text : T → Sent T
  close_frame : (code : ℕ) (reason : String) → Sent T
  close_reply : Sent T

pub data Interest : Type 0 where
  readable readable_writable : Interest

pub record Conn (F T : Type 0) : Type 0 where
  pub id : ℕ
  pub hs_buf : List ℕ
  pub ws : Option (List (Sent T))
  pub started : Bool
  pub ws_writable : Bool
  pub pending : Option (Pending F)
  pub pcm : List ℕ
  pub meta : List FrameMeta
  pub seq : ℕ
  pub next_flush : ℕ
  pub registered : Interest

-- `next_flush` is one interval and a random phase after now.
unfoldable pub new : {F T : Type 0} → (id now phase : ℕ) → Config → Conn F T
new id now phase config = record {
  id = id;
  hs_buf = [];
  ws = none;
  started = false;
  ws_writable = false;
  pending = none;
  pcm = [];
  meta = [];
  seq = 0;
  next_flush = now + config.flush_interval + phase;
  registered = readable;
}

unfoldable pub deadline : {F T : Type 0} → Conn F T → ℕ
deadline c = elim c.pending [
  | none ↦ c.next_flush
  | some p ↦ min (p.started + inference_timeout) c.next_flush
]

-- What `ws.read()` may give, and how `ws.flush()` may end.
pub data Message : Type 0 where
  text_message : String → Message
  binary : List ℕ → Message
  close_message : Message
  ping pong raw_frame : Message

pub data Read : Type 0 where
  received : Message → Read
  would_block failed : Read

pub data Flush : Type 0 where
  flushed blocked broken : Flush

-- Whether the read loop goes on.
pub data Flow : Type 0 where
  go stop : Flow

abbrev pub proceed {ℓ} : {A : Type ℓ} → Flow → A → A → A
proceed go further ended = further
proceed stop further ended = ended

-- What `http::feed` decides of a request head.
pub data Route : Type 0 where
  web_socket handled need_more : Route

-- What the socket does while the loop handles one readiness event.
pub record Io : Type 0 where
  pub head : List ℕ
  pub route : Option Route
  pub reads : List (ℕ × Read)
  pub flush : Flush

module _ {F T : Type 0} where
  -- `ws.write(..)` and `ws.close(..)`, where there is a WebSocket.
  abbrev pub send : Conn F T → Sent T → Conn F T
  send c m = record c { ws = Option.map (λ out. out ++ m ∷ []) c.ws }

  -- `self.close(code, reason)`; the outcome of its flush is dropped.
  abbrev pub close_with : Conn F T → ℕ → String → Conn F T × Flow
  close_with c code reason = (send c (close_frame code reason), stop)

  unfoldable pub accept_frame : Conn F T → ℕ → List ℕ → Conn F T
  accept_frame c now p = record c {
    seq = c.seq + 1;
    pcm = c.pcm ++ p;
    meta = c.meta ++ record { seq = c.seq + 1; received_at = now } ∷ [];
  }

  -- One round of the loop of `on_readable`: the arms of its `match`, in their order.
  unfoldable pub on_message : (String → Bool) → Conn F T → ℕ → Message → Conn F T × Flow
  unfolding accept_frame
  on_message is_start c now (text_message t) =
      if not c.started
      then (if is_start t
          then (record c { started = true }, go)
          else close_with c 1002 reason_need_start)
      else close_with c 1002 reason_text_after_start
  on_message is_start c now (binary p) =
      if c.started && length p == frame_bytes
      then (accept_frame c now p, go)
      else if not c.started
      then close_with c 1002 reason_need_start
      else close_with c 1003 reason_bad_frame_size
  on_message is_start c now close_message = (send c close_reply, stop)
  on_message is_start c now ping = (c, go)
  on_message is_start c now pong = (c, go)
  on_message is_start c now raw_frame = (c, go)

  -- The loop, over what the socket gives until it would block.
  unfoldable pub read_loop : (String → Bool) → Conn F T → List (ℕ × Read) → Conn F T × Flow
  unfolding on_message
  read_loop is_start c [] = (c, go)
  read_loop is_start c ((now, would_block) ∷ rest) = (c, go)
  read_loop is_start c ((now, failed) ∷ rest) = (c, stop)
  read_loop is_start c ((now, received m) ∷ rest) =
      let (c', flow) = on_message is_start c now m in
      let further = read_loop is_start c' rest in proceed flow further (c', stop)

  -- `flush_ws`: after a partial write, ask for writability until a flush completes.
  unfoldable pub flush_outcome : Conn F T → Flush → Conn F T × Outcome
  flush_outcome c flushed =
      (if c.ws_writable then record c { ws_writable = false; registered = readable } else c, keep)
  flush_outcome c blocked = (
    if c.ws_writable then c else record c { ws_writable = true; registered = readable_writable },
    keep,
  )
  flush_outcome c broken = (c, close)

  abbrev pub flush_open : Option (List (Sent T)) → Conn F T → Flush → Conn F T × Outcome
  flush_open none c r = (c, keep)
  flush_open (some out) c r = flush_outcome c r

  unfoldable pub flush_ws : Conn F T → Flush → Conn F T × Outcome
  unfolding flush_outcome
  flush_ws c r = flush_open c.ws c r

  -- `handshake`, given the buffer and the route that `http::feed` leaves (`none` for its error).
  unfoldable pub handshake : Conn F T → List ℕ → Option Route → Conn F T × Outcome
  handshake c buf none = (record c { hs_buf = buf }, close)
  handshake c buf (some need_more) = (record c { hs_buf = buf }, keep)
  handshake c buf (some handled) = (record c { hs_buf = buf }, close)
  handshake c buf (some web_socket) =
      (record c { hs_buf = buf; ws = some []; registered = readable }, keep)

  unfoldable pub read_open :
      Option (List (Sent T)) → (String → Bool) → Conn F T → Io → Conn F T × Outcome
  unfolding handshake read_loop flush_ws
  read_open none is_start c io = handshake c io.head io.route
  read_open (some out) is_start c io =
      let (c', flow) = read_loop is_start c io.reads in
      proceed flow (flush_ws c' io.flush) (c', close)

  unfoldable pub on_readable : (String → Bool) → Conn F T → Io → Conn F T × Outcome
  unfolding read_open
  on_readable is_start c io = read_open c.ws is_start c io

  -- A readable event is read also when it is writable at once.
  unfoldable pub on_ready : (String → Bool) → Conn F T → Bool → Bool → Io → Conn F T × Outcome
  unfolding on_readable
  on_ready is_start c can_read can_write io =
      if can_read
      then on_readable is_start c io
      else if can_write
      then flush_ws c io.flush
      else (c, keep)

  -- The batch that a flush takes: from the first to the last frame of a buffer that is not empty.
  unfoldable pub make_batch : Conn F T → FrameMeta → List FrameMeta → F → Batch F
  make_batch c first rest lateness = record {
    oldest_seq = first.seq;
    newest_seq = (last_or first rest).seq;
    oldest_at = first.received_at;
    newest_at = (last_or first rest).received_at;
    frames = length c.meta;
    audio_bytes = length c.pcm;
    flush_lateness_ms = lateness;
  }

  -- `self.pending.is_some()`
  abbrev pub has_pending : Conn F T → Bool
  has_pending c = elim c.pending [ none ↦ false | some p ↦ true ]

  unfoldable pub begin_pending : Conn F T → Batch F → ℕ → Conn F T
  begin_pending c batch started = record c {
    pending = some (record { batch = batch; started = started });
    pcm = [];
    meta = [];
  }

module _ {F T : Type 0} (fl : Float64 F) where
  -- The batch that is due, if nothing is in flight and the buffer is not empty.
  unfoldable pub due : Option (Pending F) → List FrameMeta → Conn F T → F → Tick F
  unfolding make_batch
  due (some p) frames c lateness = idle
  due none [] c lateness = idle
  due none (first ∷ rest) c lateness = flush (make_batch c first rest lateness)

  -- The second part of `on_timer`, once no request has timed out.
  unfoldable pub flush_due : Conn F T → ℕ → Config → Conn F T × Tick F
  unfolding due
  flush_due c now config = if ltb now c.next_flush then (c, idle) else (
    record c { next_flush = c.next_flush + config.flush_interval },
    due c.pending c.meta c (millis_f64 fl (now - c.next_flush)),
  )

  unfoldable pub check_timeout : Option (Pending F) → Conn F T → ℕ → Config → Conn F T × Tick F
  unfolding flush_due
  check_timeout none c now config = flush_due c now config
  check_timeout (some p) c now config =
      if leb (p.started + inference_timeout) now
      then (c, expired (millis_f64 fl (now - p.started)))
      else flush_due c now config

  unfoldable pub on_timer : Conn F T → ℕ → Config → Conn F T × Tick F
  unfolding check_timeout
  on_timer c now config = check_timeout c.pending c now config

module _ {F : Type 0} where
  unfoldable pub partial_of : Batch F → InferResponse F → Config → PartialMessage F
  partial_of b infer config = record {
    type_tag = partial_type;
    oldest_frame_seq = b.oldest_seq;
    newest_frame_seq = b.newest_seq;
    frames = b.frames;
    rms = infer.rms;
    zero_crossings = infer.zero_crossings;
    checksum = infer.checksum;
    samples = infer.samples;
    transcript = infer.transcript;
    audio_bytes = infer.audio_bytes;
    cpu_passes = config.cpu_passes;
    model_delay_ms = config.model_delay_ms;
    flush_lateness_ms = b.flush_lateness_ms;
    inflight_model_jobs = 0;
  }

module _ {F : Type 0} (fl : Float64 F) where
  unfoldable pub error_of : Batch F → InferError F → ℕ → ErrorMessage F
  error_of b e now = record {
    type_tag = error_type;
    stage = e.stage;
    kind = e.kind;
    message = e.message;
    oldest_frame_seq = b.oldest_seq;
    newest_frame_seq = b.newest_seq;
    frames = b.frames;
    audio_bytes = b.audio_bytes;
    oldest_age_ms = millis_f64 fl (now - b.oldest_at);
    newest_age_ms = millis_f64 fl (now - b.newest_at);
    flush_lateness_ms = b.flush_lateness_ms;
    inference_elapsed_ms = some e.elapsed_ms;
    inflight_gateway_batches = 1;
    gateway_buffer_frames = 0;
    inference_status = e.status;
    retryable = e.retryable;
  }

module _ {F T : Type 0} (fl : Float64 F) (json : Json F T) where
  -- The JSON of a response to a batch.
  unfoldable pub response_text :
      Batch F → Result (InferResponse F) (InferError F) → ℕ → Config → Option T
  unfolding partial_of error_of
  response_text b (ok infer) now config = json.write_partial (partial_of b infer config)
  response_text b (err e) now config = json.write_error (error_of fl b e now)

  -- `deliver` without its batch: the text is written, and the socket flushed.
  unfoldable pub write_response : Conn F T → Option T → Flush → Conn F T × Outcome
  unfolding flush_ws
  write_response c none r = (c, keep)
  write_response c (some t) r = flush_ws (send c (text t)) r

  unfoldable pub deliver_to :
      Option (Pending F)
      → Conn F T
      → Result (InferResponse F) (InferError F)
      → ℕ
      → Config
      → Flush
      → Conn F T × Outcome
  unfolding write_response response_text
  deliver_to none c result now config r = (c, keep)
  deliver_to (some p) c result now config r =
      write_response (record c { pending = none }) (response_text p.batch result now config) r

  unfoldable pub deliver :
      Conn F T → Result (InferResponse F) (InferError F) → ℕ → Config → Flush → Conn F T × Outcome
  unfolding deliver_to
  deliver c result now config r = deliver_to c.pending c result now config r

  -- A result is delivered only to the batch whose tag it carries.
  unfoldable pub match_tag :
      Option (Pending F)
      → Conn F T
      → ℕ
      → Result (InferResponse F) (InferError F)
      → ℕ
      → Config
      → Flush
      → Conn F T × Outcome
  unfolding deliver
  match_tag none c t result now config r = (c, keep)
  match_tag (some p) c t result now config r =
      if tag p.batch == t then deliver c result now config r else (c, keep)

  unfoldable pub on_done :
      Conn F T
      → ℕ
      → Result (InferResponse F) (InferError F)
      → ℕ
      → Config
      → Flush
      → Conn F T × Outcome
  unfolding match_tag
  on_done c t result now config r = match_tag c.pending c t result now config r
