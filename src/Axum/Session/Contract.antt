-- ===== src/Axum/Session/Contract.antt =====
-- services/rust-axum/src/session.rs: the contract of a gateway, and that a connection keeps it.
use websocket_stt_bench.Common.{
  ℕ, zero, suc, ◌+◌, ◌-◌, ◌≤◌, ◌<◌, ◌≡◌, refl, ap, ◌∙◌, subst, arith, String, Bool, true, false,
  Option, none, some, List, [], ◌∷◌, ◌++◌, map, ltb, ◌==◌, if_cases, length, append_assoc,
  map-append,
}
use websocket_stt_bench.Common.Float.{Float64, millis_f64}
use websocket_stt_bench.Loadgen.Verify.Coverage.{Tiles, end_of}
use websocket_stt_bench.Axum.Protocol.{Frame, Json}
use websocket_stt_bench.Axum.Inference.{AppContext}
use websocket_stt_bench.Axum.Session.{
  Conn, Event, turn, tick, answered, channel_polled, Phase, awaiting_start, streaming, ended,
  FlushTask, waiting, requesting, sending, Inbound, binary, text, ping_or_pong, close_frame,
  receive_error, end_of_stream, on_first, on_turn, after_inbound, receive_turn, take_batch,
  new_conn, handle_inbound, flush_tick, flush_step, start_turn, step, run, send_outbound,
  classify_first_message, frame_bytes, partial_channel_depth,
}
use websocket_stt_bench.Axum.Session.Runs.{Run-length, Tiles-middle}
use websocket_stt_bench.Axum.Session.Ledger.{Readable, unsent, inflight, answers, Ledger, Good}
use websocket_stt_bench.Axum.Session.Steps.{run-Good}
use websocket_stt_bench.Axum.Session.Client.{new_conn-Good}

-- The contract: a state is the number of frames received and the ranges reported. A step receives the next
-- frame, or reports the frames behind the last range up to one that was received, or neither.
pub data ContractStep (n : ℕ) (rs : List (ℕ × ℕ)) (m : ℕ) (qs : List (ℕ × ℕ)) : Type 0 where
  stutter : m ≡ n → qs ≡ rs → ContractStep n rs m qs
  receive : m ≡ n + 1 → qs ≡ rs → ContractStep n rs m qs
  report :
      (newest : ℕ)
      → m ≡ n
      → end_of 0 rs < newest
      → newest ≤ n
      → qs ≡ rs ++ (end_of 0 rs + 1, newest) ∷ []
      → ContractStep n rs m qs

module _ {F T : Type 0} (range_of : T → ℕ × ℕ) where
  abbrev pub Contract : Conn F T → Conn F T → Type 0
  Contract c d = ContractStep c.seq (map range_of c.sent) d.seq (map range_of d.sent)

  inbound-Contract :
      (m : Inbound) (now : ℕ) (c : Conn F T) → Contract c (after_inbound (handle_inbound m now c))
  unfolding handle_inbound
  inbound-Contract (binary payload) now c =
      if_cases (λ (x : Conn F T × Bool). Contract c (after_inbound x))
        (length payload == frame_bytes) (λ e. receive refl refl) (λ e. stutter refl refl)
  inbound-Contract (text t) now c = stutter refl refl
  inbound-Contract close_frame now c = stutter refl refl
  inbound-Contract ping_or_pong now c = stutter refl refl
  inbound-Contract receive_error now c = stutter refl refl
  inbound-Contract end_of_stream now c = stutter refl refl

  sent-Contract :
      (t : T) (rest : List T) (c : Conn F T)
      → c.channel ≡ t ∷ rest
      → Ledger range_of c
      → Contract c (record c { channel = rest; sent = c.sent ++ t ∷ [] })
  sent-Contract t rest c e l =
      let us = rest ++ unsent range_of c.flusher in
      let split =
        ap (map range_of) (
          ap (λ ts. (c.sent ++ ts) ++ unsent range_of c.flusher) e
          ∙ append_assoc c.sent (t ∷ rest) (unsent range_of c.flusher))
        ∙ map-append range_of c.sent (t ∷ us) in
      let (first, ordered, last) =
        Tiles-middle 0 (map range_of c.sent) (range_of t).0 (range_of t).1 (map range_of us)
          (subst (Tiles 0) split l.tiles) in
      let size =
        Run-length (end_of 0 (answers range_of c)) c.seq (inflight range_of c.flusher ++ c.buffer)
          l.behind in
      report (range_of t).1 refl (omega (arith, first, ordered))
        (omega (arith, last, size, ap (end_of 0) split))
        (map-append range_of c.sent (t ∷ [])
          ∙ ap (λ k. map range_of c.sent ++ (k, (range_of t).1) ∷ []) first)

  receive-Contract :
      (ts : List T) (m : Option Inbound) (send_ok : Bool) (now : ℕ) (c : Conn F T)
      → c.channel ≡ ts
      → Ledger range_of c
      → Contract c (receive_turn ts send_ok m now c)
  receive-Contract (t ∷ rest) m true now c e l = sent-Contract t rest c e l
  receive-Contract (t ∷ rest) m false now c e l = stutter refl refl
  receive-Contract [] none send_ok now c e l = stutter refl refl
  receive-Contract [] (some m) send_ok now c e l = inbound-Contract m now c

  taken-Contract :
      (permits : ℕ) (batch : List Frame) (lateness : F) (now deadline : ℕ) (c : Conn F T)
      → Contract c (take_batch permits batch lateness now (record c { expected = deadline }))
  taken-Contract zero batch lateness now deadline c = stutter refl refl
  taken-Contract (suc left) [] lateness now deadline c = stutter refl refl
  taken-Contract (suc left) (f ∷ rest) lateness now deadline c = stutter refl refl

  outbound-Contract : (o : Option T) (c : Conn F T) → Contract c (send_outbound o c)
  outbound-Contract none c = stutter refl refl
  outbound-Contract (some t) c = stutter refl refl

module _ {F T : Type 0} (fl : Float64 F) (json : Json F T) (status_message : ℕ → String)
    (context : AppContext) (range_of : T → ℕ × ℕ) where
  start-Contract :
      (m : Option Inbound) (now jitter : ℕ) (c : Conn F T)
      → Contract range_of c (start_turn fl json context m now jitter c)
  unfolding start_turn classify_first_message
  start-Contract (some ping_or_pong) now jitter c = stutter refl refl
  start-Contract none now jitter c = stutter refl refl
  start-Contract (some (text t)) now jitter c =
      if_cases (λ f. Contract range_of c (on_first fl json context f now jitter c))
        (json.is_start t) (λ e. stutter refl refl) (λ e. stutter refl refl)
  start-Contract (some receive_error) now jitter c = stutter refl refl
  start-Contract (some end_of_stream) now jitter c = stutter refl refl
  start-Contract (some (binary payload)) now jitter c = stutter refl refl
  start-Contract (some close_frame) now jitter c = stutter refl refl

  flush-Contract :
      (task : FlushTask F T) (e : Event F) (c : Conn F T)
      → Contract range_of c (flush_step fl json status_message context task e c)
  unfolding flush_tick
  flush-Contract waiting (tick now) c =
      taken-Contract range_of c.permits c.buffer (millis_f64 fl (now - c.expected)) now _ c
  flush-Contract (requesting r) (answered now reply) c = outbound-Contract range_of _ c
  flush-Contract (sending u) channel_polled c =
      if_cases (Contract range_of c) (ltb (length c.channel) partial_channel_depth)
        (λ e. stutter refl refl) (λ e. stutter refl refl)
  flush-Contract _ _ c = stutter refl refl

  turn-Contract :
      (p : Phase) (send_ok : Bool) (m : Option Inbound) (now jitter : ℕ) (c : Conn F T)
      → Good range_of p c
      → Contract range_of c (on_turn fl json status_message context p send_ok m now jitter c)
  turn-Contract awaiting_start send_ok m now jitter c g = start-Contract m now jitter c
  turn-Contract streaming send_ok m now jitter c g =
      receive-Contract range_of c.channel m send_ok now c refl g
  turn-Contract ended send_ok m now jitter c g = stutter refl refl

  step_of :
      (e : Event F) (c : Conn F T)
      → Good range_of c.phase c
      → Contract range_of c (step fl json status_message context e c)
  unfolding step
  step_of (turn send_ok m now jitter) c g = turn-Contract c.phase send_ok m now jitter c g
  step_of (tick now) c g = flush-Contract c.flusher (tick now) c
  step_of (answered now reply) c g = flush-Contract c.flusher (answered now reply) c
  step_of channel_polled c g = flush-Contract c.flusher channel_polled c

  -- A connection refines the contract. If every text can be written, and its reader finds the range that was
  -- written, then from every state that a connection reaches, every step of either task is a step of the
  -- contract on the number of frames received and the ranges in the texts sent, or changes neither.
  pub step-ContractStep :
      Readable json range_of
      → (es : List (Event F)) (e : Event F)
      → let c = run fl json status_message context es new_conn in
        let d = step fl json status_message context e c in
        ContractStep c.seq (map range_of c.sent) d.seq (map range_of d.sent)
  step-ContractStep read es e =
      let c = run fl json status_message context es new_conn in
      step_of e c (
        run-Good fl json status_message context range_of read es new_conn
          (new_conn-Good fl json status_message context range_of))
