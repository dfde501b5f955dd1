-- ===== src/Axum/Session/Content.antt =====
-- services/rust-axum/src/session.rs: what the frames of a connection hold if its client is the load
-- generator.
use websocket_stt_bench.Common.{
  ℕ, zero, suc, ◌+◌, ◌-◌, ◌≡◌, refl, subst, String, Bool, true, false, Option, none, some, List, [],
  ◌∷◌, ltb, ◌==◌, if_cases, length, All, All-append,
}
use websocket_stt_bench.Common.Float.{Float64, millis_f64}
use websocket_stt_bench.Loadgen.Protocol.{frame_payload}
use websocket_stt_bench.Axum.Protocol.{Frame, Json}
use websocket_stt_bench.Axum.Inference.{AppContext}
use websocket_stt_bench.Axum.Session.{
  Conn, Event, turn, tick, answered, channel_polled, Phase, awaiting_start, streaming, ended,
  FlushTask, waiting, requesting, sending, Inbound, binary, text, ping_or_pong, close_frame,
  receive_error, end_of_stream, on_first, on_turn, after_inbound, receive_turn, take_batch,
  handle_inbound, flush_tick, flush_step, start_turn, step, run, send_outbound,
  classify_first_message, frame_bytes, partial_channel_depth,
}
use websocket_stt_bench.Axum.Session.Ledger.{inflight}

-- The frame holds what the load generator sends as session `id`.
abbrev pub IsGenerated : ℕ → Frame → Type 0
IsGenerated id f = f.payload ≡ frame_payload id f.seq

module _ {F T : Type 0} (range_of : T → ℕ × ℕ) (id : ℕ) where
  -- A binary message is the next frame of the session.
  abbrev pub Delivers : Conn F T → Event F → Type 0
  Delivers c (turn send_ok (some (binary payload)) now jitter) =
      payload ≡ frame_payload id (c.seq + 1)
  Delivers c _ = Unit

  abbrev pub Held : Conn F T → Type 0
  Held c = All (IsGenerated id) (inflight range_of c.flusher) × All (IsGenerated id) c.buffer

  inbound-Held :
      (m : Inbound) (send_ok : Bool) (now jitter : ℕ) (c : Conn F T)
      → Delivers c (turn send_ok (some m) now jitter)
      → Held c
      → Held (after_inbound (handle_inbound m now c))
  unfolding handle_inbound
  inbound-Held (binary payload) send_ok now jitter c d h =
      if_cases (λ (x : Conn F T × Bool). Held (after_inbound x)) (length payload == frame_bytes)
        (λ e. (h.0, All-append (IsGenerated id) c.buffer _ h.1 (d, tt))) (λ e. (tt, h.1))
  inbound-Held (text t) send_ok now jitter c d h = (tt, h.1)
  inbound-Held close_frame send_ok now jitter c d h = (tt, h.1)
  inbound-Held ping_or_pong send_ok now jitter c d h = h
  inbound-Held receive_error send_ok now jitter c d h = (tt, h.1)
  inbound-Held end_of_stream send_ok now jitter c d h = (tt, h.1)

  turn-Held :
      (ts : List T) (m : Option Inbound) (send_ok : Bool) (now jitter : ℕ) (c : Conn F T)
      → Delivers c (turn send_ok m now jitter)
      → Held c
      → Held (receive_turn ts send_ok m now c)
  turn-Held (t ∷ rest) m true now jitter c d h = h
  turn-Held (t ∷ rest) m false now jitter c d h = (tt, h.1)
  turn-Held [] none send_ok now jitter c d h = h
  turn-Held [] (some m) send_ok now jitter c d h = inbound-Held m send_ok now jitter c d h

  taken-Held :
      (permits : ℕ) (batch : List Frame) (lateness : F) (now deadline : ℕ) (c : Conn F T)
      → c.buffer ≡ batch
      → Held c
      → Held (take_batch permits batch lateness now (record c { expected = deadline }))
  taken-Held zero batch lateness now deadline c e h = h
  taken-Held (suc left) [] lateness now deadline c e h = h
  taken-Held (suc left) (f ∷ rest) lateness now deadline c e h =
      (subst (All (IsGenerated id)) e h.1, tt)

  outbound-Held : (o : Option T) (c : Conn F T) → Held c → Held (send_outbound o c)
  outbound-Held none c h = (tt, h.1)
  outbound-Held (some t) c h = (tt, h.1)

module _ {F T : Type 0} (fl : Float64 F) (json : Json F T) (status_message : ℕ → String)
    (context : AppContext) (range_of : T → ℕ × ℕ) (id : ℕ) where
  flush_step-Held :
      (task : FlushTask F T) (e : Event F) (c : Conn F T)
      → Held range_of id c
      → Held range_of id (flush_step fl json status_message context task e c)
  unfolding flush_tick
  flush_step-Held waiting (tick now) c h =
      taken-Held range_of id c.permits c.buffer (millis_f64 fl (now - c.expected)) now _ c refl h
  flush_step-Held (requesting r) (answered now reply) c h = outbound-Held range_of id _ c h
  flush_step-Held (sending u) channel_polled c h =
      if_cases (Held range_of id) (ltb (length c.channel) partial_channel_depth) (λ e. (tt, h.1))
        (λ e. h)
  flush_step-Held _ _ c h = h

  start_turn-Held :
      (m : Option Inbound) (now jitter : ℕ) (c : Conn F T)
      → Held range_of id c
      → Held range_of id (start_turn fl json context m now jitter c)
  unfolding start_turn classify_first_message
  start_turn-Held (some ping_or_pong) now jitter c h = h
  start_turn-Held none now jitter c h = h
  start_turn-Held (some (text t)) now jitter c h =
      if_cases (λ f. Held range_of id (on_first fl json context f now jitter c)) (json.is_start t)
        (λ e. (tt, h.1)) (λ e. (tt, h.1))
  start_turn-Held (some receive_error) now jitter c h = (tt, h.1)
  start_turn-Held (some end_of_stream) now jitter c h = (tt, h.1)
  start_turn-Held (some (binary payload)) now jitter c h = (tt, h.1)
  start_turn-Held (some close_frame) now jitter c h = (tt, h.1)

  step-Held :
      (e : Event F) (c : Conn F T)
      → Delivers range_of id c e
      → Held range_of id c
      → Held range_of id (step fl json status_message context e c)
  unfolding step
  step-Held (turn send_ok m now jitter) c d h = by_phase c.phase
    where
      by_phase :
          (p : Phase)
          → Held range_of id (on_turn fl json status_message context p send_ok m now jitter c)
      by_phase awaiting_start = start_turn-Held m now jitter c h
      by_phase streaming = turn-Held range_of id c.channel m send_ok now jitter c d h
      by_phase ended = h
  step-Held (tick now) c d h = flush_step-Held c.flusher (tick now) c h
  step-Held (answered now reply) c d h = flush_step-Held c.flusher (answered now reply) c h
  step-Held channel_polled c d h = flush_step-Held c.flusher channel_polled c h

  -- Every binary message of the trace is the next frame of the session.
  abbrev pub DeliversAll : Conn F T → List (Event F) → Type 0
  DeliversAll c [] = Unit
  DeliversAll c (e ∷ es) =
      Delivers range_of id c e × DeliversAll (step fl json status_message context e c) es

  pub run-Held :
      (es : List (Event F)) (c : Conn F T)
      → DeliversAll c es
      → Held range_of id c
      → Held range_of id (run fl json status_message context es c)
  unfolding run
  run-Held [] c d h = h
  run-Held (e ∷ es) c d h =
      run-Held es (step fl json status_message context e c) d.1 (step-Held e c d.0 h)
