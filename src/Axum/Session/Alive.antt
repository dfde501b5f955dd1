-- ===== src/Axum/Session/Alive.antt =====
-- services/rust-axum/src/session.rs: the flush loop runs as long as the connection streams.
use websocket_stt_bench.Common.{
  ℕ, zero, suc, ◌-◌, String, Bool, true, false, Option, none, some, List, [], ◌∷◌, ltb, ◌==◌,
  if_cases, length,
}
use websocket_stt_bench.Common.Float.{Float64, millis_f64}
use websocket_stt_bench.Axum.Protocol.{Frame, Json}
use websocket_stt_bench.Axum.Inference.{AppContext}
use websocket_stt_bench.Axum.Session.{
  Conn, Event, turn, tick, answered, channel_polled, Phase, awaiting_start, streaming, ended,
  FlushTask, stopped, waiting, requesting, sending, Inbound, binary, text, ping_or_pong,
  close_frame, receive_error, end_of_stream, on_first, on_turn, after_inbound, receive_turn,
  take_batch, handle_inbound, flush_tick, flush_step, start_turn, step, run, send_outbound,
  classify_first_message, frame_bytes, partial_channel_depth,
}

module _ {F T : Type 0} where
  abbrev pub IsRunning : FlushTask F T → Type 0
  IsRunning stopped = ⊥
  IsRunning _ = Unit

  -- What holds in each phase.
  abbrev pub Alive : Phase → FlushTask F T → Type 0
  Alive streaming task = IsRunning task
  Alive _ task = Unit

  inbound-Alive :
      (m : Inbound) (now : ℕ) (c : Conn F T)
      → Alive c.phase c.flusher
      → let d = after_inbound (handle_inbound m now c) in Alive d.phase d.flusher
  unfolding handle_inbound
  inbound-Alive (binary payload) now c h =
      if_cases (λ (x : Conn F T × Bool). Alive (after_inbound x).phase (after_inbound x).flusher)
        (length payload == frame_bytes) (λ e. h) (λ e. tt)
  inbound-Alive (text t) now c h = tt
  inbound-Alive close_frame now c h = tt
  inbound-Alive ping_or_pong now c h = h
  inbound-Alive receive_error now c h = tt
  inbound-Alive end_of_stream now c h = tt

  receive-Alive :
      (ts : List T) (m : Option Inbound) (send_ok : Bool) (now : ℕ) (c : Conn F T)
      → Alive c.phase c.flusher
      → let d = receive_turn ts send_ok m now c in Alive d.phase d.flusher
  receive-Alive (t ∷ rest) m true now c h = h
  receive-Alive (t ∷ rest) m false now c h = tt
  receive-Alive [] none send_ok now c h = h
  receive-Alive [] (some m) send_ok now c h = inbound-Alive m now c h

  any-Alive : (p : Phase) (task : FlushTask F T) → IsRunning task → Alive p task
  any-Alive streaming task h = h
  any-Alive awaiting_start task h = tt
  any-Alive ended task h = tt

  taken-Alive :
      (permits : ℕ) (batch : List Frame) (lateness : F) (now : ℕ) (c : Conn F T)
      → Alive c.phase c.flusher
      → let d = take_batch permits batch lateness now c in Alive d.phase d.flusher
  taken-Alive zero batch lateness now c h = h
  taken-Alive (suc left) [] lateness now c h = h
  taken-Alive (suc left) (f ∷ rest) lateness now c h = any-Alive c.phase (requesting _) tt

  outbound-Alive :
      (o : Option T) (c : Conn F T) → Alive (send_outbound o c).phase (send_outbound o c).flusher
  outbound-Alive none c = any-Alive c.phase waiting tt
  outbound-Alive (some t) c = any-Alive c.phase (sending t) tt

module _ {F T : Type 0} (fl : Float64 F) (json : Json F T) (status_message : ℕ → String)
    (context : AppContext) where
  start-Alive :
      (m : Option Inbound) (now jitter : ℕ) (c : Conn F T)
      → Alive c.phase c.flusher
      → let d = start_turn fl json context m now jitter c in Alive d.phase d.flusher
  unfolding start_turn classify_first_message
  start-Alive (some ping_or_pong) now jitter c h = h
  start-Alive none now jitter c h = h
  start-Alive (some (text t)) now jitter c h =
      if_cases
        (λ f.
          Alive (on_first fl json context f now jitter c).phase
            (on_first fl json context f now jitter c).flusher)
        (json.is_start t) (λ e. tt) (λ e. tt)
  start-Alive (some receive_error) now jitter c h = tt
  start-Alive (some end_of_stream) now jitter c h = tt
  start-Alive (some (binary payload)) now jitter c h = tt
  start-Alive (some close_frame) now jitter c h = tt

  flush-Alive :
      (task : FlushTask F T) (e : Event F) (c : Conn F T)
      → Alive c.phase c.flusher
      → let d = flush_step fl json status_message context task e c in Alive d.phase d.flusher
  unfolding flush_tick
  flush-Alive waiting (tick now) c h =
      taken-Alive c.permits c.buffer (millis_f64 fl (now - c.expected)) now _ h
  flush-Alive (requesting r) (answered now reply) c h = outbound-Alive _ c
  flush-Alive (sending u) channel_polled c h =
      if_cases (λ (d : Conn F T). Alive d.phase d.flusher)
        (ltb (length c.channel) partial_channel_depth) (λ e. any-Alive c.phase waiting tt) (λ e. h)
  flush-Alive _ _ c h = h

  step-Alive :
      (e : Event F) (c : Conn F T)
      → Alive c.phase c.flusher
      → let d = step fl json status_message context e c in Alive d.phase d.flusher
  unfolding step
  step-Alive (turn send_ok m now jitter) c h = by_phase c.phase
    where
      by_phase :
          (p : Phase)
          → let d = on_turn fl json status_message context p send_ok m now jitter c in
            Alive d.phase d.flusher
      by_phase awaiting_start = start-Alive m now jitter c h
      by_phase streaming = receive-Alive c.channel m send_ok now c h
      by_phase ended = h
  step-Alive (tick now) c h = flush-Alive c.flusher (tick now) c h
  step-Alive (answered now reply) c h = flush-Alive c.flusher (answered now reply) c h
  step-Alive channel_polled c h = flush-Alive c.flusher channel_polled c h

  pub run-Alive :
      (es : List (Event F)) (c : Conn F T)
      → Alive c.phase c.flusher
      → let d = run fl json status_message context es c in Alive d.phase d.flusher
  unfolding run
  run-Alive [] c h = h
  run-Alive (e ∷ es) c h = run-Alive es (step fl json status_message context e c) (step-Alive e c h)
