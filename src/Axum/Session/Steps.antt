-- ===== src/Axum/Session/Steps.antt =====
-- services/rust-axum/src/session.rs: the ledger of a connection through every step.
use websocket_stt_bench.Common.{
  ℕ, zero, suc, ◌+◌, ◌-◌, ◌≡◌, refl, sym, ◌∙◌, subst, ap, arith, String, Bool, true, false, Option,
  none, some, List, [], ◌∷◌, ◌++◌, ◌==◌, ltb, if◌then◌else◌, if_cases, length,
}
use websocket_stt_bench.Common.Float.{Float64, millis_f64}
use websocket_stt_bench.Axum.Protocol.{Frame, Json}
use websocket_stt_bench.Axum.Inference.{AppContext}
use websocket_stt_bench.Axum.Session.{
  start, bad, on_first, on_turn, Conn, Event, turn, tick, answered, channel_polled, Phase,
  awaiting_start, streaming, ended, FlushTask, stopped, waiting, requesting, sending, Inbound,
  binary, text, ping_or_pong, close_frame, receive_error, end_of_stream, after_inbound,
  receive_turn, take_batch, partial_channel_depth, frame_bytes, handle_inbound, flush_tick,
  flush_step, start_turn, step, run, send_outbound, classify_first_message,
}
use websocket_stt_bench.Axum.Session.Ledger.{
  Readable, inflight, unsent, busy, Ledger, Good, Ledger-sent, Ledger-Good, moved, sent_one,
  received, polled, answer_sent, took, request_partial-range,
}

module _ {F T : Type 0} (fl : Float64 F) (json : Json F T) (status_message : ℕ → String)
    (context : AppContext) (range_of : T → ℕ × ℕ) where
  inbound-Good :
      (m : Inbound) (now : ℕ) (c : Conn F T)
      → c.phase ≡ streaming
      → Ledger range_of c
      → let d = after_inbound (handle_inbound m now c) in Good range_of d.phase d
  unfolding handle_inbound
  inbound-Good (binary payload) now c s l =
      if_cases (λ (x : Conn F T × Bool). Good range_of (after_inbound x).phase (after_inbound x))
        (length payload == frame_bytes)
        (λ h. Ledger-Good range_of c.phase _ s (
          received range_of c (record { seq = c.seq + 1; payload = payload; received_at = now })
            refl l))
        (λ h. (Ledger-sent range_of c l, refl))
  inbound-Good (text t) now c s l = (Ledger-sent range_of c l, refl)
  inbound-Good close_frame now c s l = (Ledger-sent range_of c l, refl)
  inbound-Good ping_or_pong now c s l = Ledger-Good range_of c.phase c s l
  inbound-Good receive_error now c s l = (Ledger-sent range_of c l, refl)
  inbound-Good end_of_stream now c s l = (Ledger-sent range_of c l, refl)

  pub turn-Good :
      (ts : List T) (send_ok : Bool) (m : Option Inbound) (now : ℕ) (c : Conn F T)
      → c.channel ≡ ts
      → c.phase ≡ streaming
      → Ledger range_of c
      → let d = receive_turn ts send_ok m now c in Good range_of d.phase d
  turn-Good (t ∷ rest) true m now c e s l =
      Ledger-Good range_of c.phase _ s (sent_one range_of c t rest e l)
  turn-Good (t ∷ rest) false m now c e s l = (Ledger-sent range_of c l, refl)
  turn-Good [] send_ok none now c e s l = Ledger-Good range_of c.phase c s l
  turn-Good [] send_ok (some m) now c e s l = inbound-Good m now c s l

  Ledger-deadline :
      (c : Conn F T) (deadline : ℕ)
      → Ledger range_of c
      → Ledger range_of (record c { expected = deadline })
  Ledger-deadline c deadline l =
      moved range_of c (record c { expected = deadline }) refl refl refl l.permit l.room l

  taken-Good :
      (permits : ℕ) (batch : List Frame) (lateness : F) (now deadline : ℕ) (c : Conn F T)
      → c.flusher ≡ waiting
      → c.permits ≡ permits
      → c.buffer ≡ batch
      → Ledger range_of c
      → Ledger range_of (take_batch permits batch lateness now (record c { expected = deadline }))
  taken-Good zero batch lateness now deadline c e p b l = Ledger-deadline c deadline l
  taken-Good (suc left) [] lateness now deadline c e p b l = Ledger-deadline c deadline l
  taken-Good (suc left) (f ∷ rest) lateness now deadline c e p b l =
      took range_of c
        (record { oldest = f; others = rest; flush_lateness_ms = lateness; started_at = now }) left
        deadline e (omega (arith, p)) b l

  pub flush_step-Ledger :
      Readable json range_of
      → (task : FlushTask F T) (e : Event F) (c : Conn F T) → c.flusher ≡ task
      → Ledger range_of c
      → Ledger range_of (flush_step fl json status_message context task e c)
  unfolding flush_tick
  flush_step-Ledger read waiting (tick now) c t l =
      taken-Good c.permits c.buffer (millis_f64 fl (now - c.expected)) now _ c t refl refl l
  flush_step-Ledger read (requesting r) (answered now reply) c t l =
      answer_sent range_of c r _ t
        (request_partial-range fl json status_message context range_of read r now (length c.buffer)
          reply)
        l
  flush_step-Ledger read (sending u) channel_polled c t l = polled range_of c u t l
  flush_step-Ledger read stopped (turn _ _ _ _) c t l = l
  flush_step-Ledger read stopped (tick _) c t l = l
  flush_step-Ledger read stopped (answered _ _) c t l = l
  flush_step-Ledger read stopped channel_polled c t l = l
  flush_step-Ledger read waiting (turn _ _ _ _) c t l = l
  flush_step-Ledger read waiting (answered _ _) c t l = l
  flush_step-Ledger read waiting channel_polled c t l = l
  flush_step-Ledger read (requesting r) (turn _ _ _ _) c t l = l
  flush_step-Ledger read (requesting r) (tick _) c t l = l
  flush_step-Ledger read (requesting r) channel_polled c t l = l
  flush_step-Ledger read (sending u) (turn _ _ _ _) c t l = l
  flush_step-Ledger read (sending u) (tick _) c t l = l
  flush_step-Ledger read (sending u) (answered _ _) c t l = l

  start_turn-Good :
      (m : Option Inbound) (now jitter : ℕ) (c : Conn F T)
      → c.phase ≡ awaiting_start
      → Ledger range_of c
      → c.flusher ≡ stopped
      → let d = start_turn fl json context m now jitter c in Good range_of d.phase d
  unfolding start_turn classify_first_message
  start_turn-Good none now jitter c p l e = subst (λ q. Good range_of q c) (sym p) (l, e)
  start_turn-Good (some receive_error) now jitter c p l e = (Ledger-sent range_of c l, refl)
  start_turn-Good (some end_of_stream) now jitter c p l e = (Ledger-sent range_of c l, refl)
  start_turn-Good (some ping_or_pong) now jitter c p l e =
      subst (λ q. Good range_of q c) (sym p) (l, e)
  start_turn-Good (some (binary payload)) now jitter c p l e = (Ledger-sent range_of c l, refl)
  start_turn-Good (some close_frame) now jitter c p l e = (Ledger-sent range_of c l, refl)
  start_turn-Good (some (text t)) now jitter c p l e = by_test (json.is_start t)
    where
      by_test :
          (b : Bool)
          → let d = on_first fl json context (if b then start else bad) now jitter c in
            Good range_of d.phase d
      by_test true =
          moved range_of c
            (record c {
              phase = streaming;
              flusher = waiting;
              expected = now + context.flush_interval + jitter;
            })
            (ap (λ f. (c.sent ++ c.channel) ++ unsent range_of f) (sym e))
            (ap (λ f. inflight range_of f ++ c.buffer) (sym e)) refl
            (omega (arith, l.permit, ap (busy range_of) e)) l.room l
      by_test false = (Ledger-sent range_of c l, refl)

  turn-phase :
      (p : Phase) (send_ok : Bool) (m : Option Inbound) (now jitter : ℕ) (c : Conn F T)
      → c.phase ≡ p
      → Good range_of p c
      → let d = on_turn fl json status_message context p send_ok m now jitter c in
        Good range_of d.phase d
  turn-phase awaiting_start send_ok m now jitter c e (l, s) = start_turn-Good m now jitter c e l s
  turn-phase streaming send_ok m now jitter c e l = turn-Good c.channel send_ok m now c refl e l
  turn-phase ended send_ok m now jitter c e g = subst (λ q. Good range_of q c) (sym e) g

  taken_phase :
      (permits : ℕ) (batch : List Frame) (lateness : F) (now : ℕ) (c : Conn F T)
      → (take_batch permits batch lateness now c).phase ≡ c.phase
  taken_phase zero batch lateness now c = refl
  taken_phase (suc left) [] lateness now c = refl
  taken_phase (suc left) (f ∷ rest) lateness now c = refl

  outbound_phase : (o : Option T) (c : Conn F T) → (send_outbound o c).phase ≡ c.phase
  outbound_phase none c = refl
  outbound_phase (some t) c = refl

  -- The flush loop does not end a connection.
  flush_step-phase :
      (task : FlushTask F T) (e : Event F) (c : Conn F T)
      → (flush_step fl json status_message context task e c).phase ≡ c.phase
  unfolding flush_tick
  flush_step-phase waiting (tick now) c = taken_phase c.permits c.buffer _ now _
  flush_step-phase (requesting r) (answered now reply) c = outbound_phase _ c
  flush_step-phase (sending u) channel_polled c =
      if_cases (λ (d : Conn F T). d.phase ≡ c.phase) (ltb (length c.channel) partial_channel_depth)
        (λ h. refl) (λ h. refl)
  flush_step-phase _ _ c = refl

  flush-Good :
      Readable json range_of
      → (e : Event F) (c : Conn F T) → Good range_of c.phase c
      → let d = flush_step fl json status_message context c.flusher e c in Good range_of d.phase d
  flush-Good read e c g = by_phase c.phase refl g
    where
      idle :
          (task : FlushTask F T)
          → task ≡ stopped
          → flush_step fl json status_message context task e c ≡ c
      idle stopped t = refl
      idle waiting t = cc
      idle (requesting r) t = cc
      idle (sending u) t = cc

      by_phase :
          (p : Phase)
          → c.phase ≡ p
          → Good range_of p c
          → let d = flush_step fl json status_message context c.flusher e c in
            Good range_of d.phase d
      by_phase awaiting_start e' (l, s) =
          subst (λ (d : Conn F T). Good range_of d.phase d) (sym (idle c.flusher s))
            (subst (λ q. Good range_of q c) (sym e') (l, s))
      by_phase streaming e' l =
          Ledger-Good range_of _ _ (flush_step-phase c.flusher e c ∙ e')
            (flush_step-Ledger read c.flusher e c refl l)
      by_phase ended e' (t, s) =
          subst (λ (d : Conn F T). Good range_of d.phase d) (sym (idle c.flusher s))
            (subst (λ q. Good range_of q c) (sym e') (t, s))

  step-Good :
      Readable json range_of
      → (e : Event F) (c : Conn F T) → Good range_of c.phase c
      → let d = step fl json status_message context e c in Good range_of d.phase d
  unfolding step
  step-Good read (turn send_ok m now jitter) c g = turn-phase c.phase send_ok m now jitter c refl g
  step-Good read (tick now) c g = flush-Good read (tick now) c g
  step-Good read (answered now reply) c g = flush-Good read (answered now reply) c g
  step-Good read channel_polled c g = flush-Good read channel_polled c g

  pub run-Good :
      Readable json range_of
      → (es : List (Event F)) (c : Conn F T) → Good range_of c.phase c
      → let d = run fl json status_message context es c in Good range_of d.phase d
  unfolding run
  run-Good read [] c g = g
  run-Good read (e ∷ es) c g =
      run-Good read es (step fl json status_message context e c) (step-Good read e c g)
