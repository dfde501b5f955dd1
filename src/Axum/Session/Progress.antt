-- ===== src/Axum/Session/Progress.antt =====
-- services/rust-axum/src/session.rs: no frame is stuck.
use mathlib.Core.Option
use mathlib.Core.Option.{some_inj}
use websocket_stt_bench.Common.{
  ℕ, ◌+◌, ◌-◌, ◌≡◌, refl, sym, ap, ◌∙◌, subst, arith, String, true, Option, none, some, List, [],
  ◌∷◌, ◌++◌, map, All, ltb, if_cases, length, append-nil,
}
use websocket_stt_bench.Common.Float.{Float64, millis_f64}
use websocket_stt_bench.Loadgen.Verify.Coverage.{Tiles, end_of}
use websocket_stt_bench.Axum.Protocol.{Frame, Json}
use websocket_stt_bench.Axum.Inference.{AppContext, Request, newest_of, Reply, request_partial}
use websocket_stt_bench.Axum.Session.{
  on_turn, receive_turn, flush_step, take_batch, send_outbound, partial_channel_depth, Conn, Event,
  turn, tick, answered, channel_polled, streaming, FlushTask, stopped, waiting, requesting, sending,
  step, run, flush_tick, to_text, new_conn,
}
use websocket_stt_bench.Axum.Session.Runs.{Run}
use websocket_stt_bench.Axum.Session.Ledger.{
  Ledger-sent, Readable, unsent, inflight, busy, answers, Ledger, Good, request_partial-range,
}
use websocket_stt_bench.Axum.Session.Steps.{run-Good}
use websocket_stt_bench.Axum.Session.Alive.{IsRunning, Alive, run-Alive}
use websocket_stt_bench.Axum.Session.Client.{new_conn-Good}

module _ {F T : Type 0} where
  -- Nothing is left to do for `n` frames.
  pub record Quiet (n : ℕ) (c : Conn F T) : Type 0 where
    pub phase : c.phase ≡ streaming
    pub flusher : c.flusher ≡ waiting
    pub buffer : c.buffer ≡ []
    pub channel : c.channel ≡ []
    pub seq : c.seq ≡ n

-- A step with which no frame comes and the client reads, and a request is answered by this reply.
abbrev pub Serves : {F : Type 0} → Reply F → Event F → Type 0
Serves reply (turn send_ok none now jitter) = send_ok ≡ true
Serves reply (turn send_ok (some m) now jitter) = ⊥
Serves reply (tick now) = Unit
Serves reply (answered now r) = r ≡ reply
Serves reply channel_polled = Unit

module _ {F T : Type 0} (fl : Float64 F) (json : Json F T) (status_message : ℕ → String)
    (context : AppContext) (reply : Reply F) where
  -- What holds after some such steps.
  pub record Later (P : Conn F T → Type 0) (c : Conn F T) : Type 0 where
    pub steps : List (Event F)
    pub served : All (Serves reply) steps
    pub holds : P (run fl json status_message context steps c)

  Later-now : {P : Conn F T → Type 0} → (c : Conn F T) → P c → Later P c
  unfolding run
  Later-now c h = record { steps = []; served = tt; holds = h }

  Later-step :
      {P : Conn F T → Type 0}
      → (e : Event F) (c : Conn F T) → Serves reply e
      → Later P (step fl json status_message context e c)
      → Later P c
  unfolding run
  Later-step e c s l = record { steps = e ∷ l.steps; served = (s, l.served); holds = l.holds }

  record At (task : FlushTask F T) (batch : List Frame) (ts : List T) (free n : ℕ) (c : Conn F T)
      : Type 0 where
    phase : c.phase ≡ streaming
    flusher : c.flusher ≡ task
    buffer : c.buffer ≡ batch
    channel : c.channel ≡ ts
    permits : c.permits ≡ free
    seq : c.seq ≡ n

  turn-At :
      (task : FlushTask F T) (batch : List Frame) (t : T) (ts : List T) (permits n : ℕ)
      (c : Conn F T)
      → At task batch (t ∷ ts) permits n c
      → At task batch ts permits n (step fl json status_message context (turn true none 0 0) c)
  unfolding step
  turn-At task batch t ts permits n c a =
      subst
        (λ p. At task batch ts permits n (on_turn fl json status_message context p true none 0 0 c))
        (sym a.phase)
        (subst (λ us. At task batch ts permits n (receive_turn us true none 0 c)) (sym a.channel)
          (record {
            phase = a.phase;
            flusher = a.flusher;
            buffer = a.buffer;
            channel = refl;
            permits = a.permits;
            seq = a.seq;
          }))

  polled-At :
      (batch : List Frame) (t : T) (permits n : ℕ) (c : Conn F T)
      → At (sending t) batch [] permits n c
      → At waiting batch
          (t ∷ [])
          (permits + 1)
          n
          (step fl json status_message context channel_polled c)
  unfolding step
  polled-At batch t permits n c a =
      subst
        (λ f.
          At waiting batch (t ∷ []) (permits + 1) n
            (flush_step fl json status_message context f channel_polled c))
        (sym a.flusher)
        (if_cases (At waiting batch (t ∷ []) (permits + 1) n)
          (ltb (length c.channel) partial_channel_depth)
          (λ h. record {
            phase = a.phase;
            flusher = refl;
            buffer = a.buffer;
            channel = ap (λ us. us ++ t ∷ []) a.channel;
            permits = ap (λ k. k + 1) a.permits;
            seq = a.seq;
          })
          (λ h. absurd (ground (arith, h, ap length a.channel))))

  answered-At :
      (batch : List Frame) (r : Request F) (t : T) (ts : List T) (permits n : ℕ) (c : Conn F T)
      (reply : Reply F)
      → to_text json (request_partial fl status_message context r 0 (length c.buffer) reply)
        ≡ some t
      → At (requesting r) batch ts permits n c
      → At (sending t) batch ts permits n (step fl json status_message context (answered 0 reply) c)
  unfolding step
  answered-At batch r t ts permits n c reply e a =
      subst
        (λ f.
          At (sending t) batch ts permits n
            (flush_step fl json status_message context f (answered 0 reply) c))
        (sym a.flusher)
        (subst (λ o. At (sending t) batch ts permits n (send_outbound o c)) (sym e)
          (record {
            phase = a.phase;
            flusher = refl;
            buffer = a.buffer;
            channel = a.channel;
            permits = a.permits;
            seq = a.seq;
          }))

  tick-At :
      (f : Frame) (fs : List Frame) (ts : List T) (n : ℕ) (c : Conn F T)
      → At waiting (f ∷ fs) ts 1 n c
      → (r : Request F) × At
          (requesting r)
          []
          ts
          0
          n
          (step fl json status_message context (tick 0) c)
  unfolding step flush_tick
  tick-At f fs ts n c a =
      let r : Request F = record {
        oldest = f;
        others = fs;
        flush_lateness_ms = millis_f64 fl (0 - c.expected);
        started_at = 0;
      } in
      (
        r,
        subst
            (λ w.
              At (requesting r) [] ts 0 n (flush_step fl json status_message context w (tick 0) c))
            (sym a.flusher)
            (subst
              (λ k. At (requesting r) [] ts 0 n (
                take_batch k c.buffer (millis_f64 fl (0 - c.expected)) 0
                  (record c { expected = c.expected + context.flush_interval })))
              (sym a.permits)
              (subst
                (λ b. At (requesting r) [] ts 0 n (
                  take_batch 1 b (millis_f64 fl (0 - c.expected)) 0
                    (record c { expected = c.expected + context.flush_interval })))
                (sym a.buffer)
                (record {
                  phase = a.phase;
                  flusher = refl;
                  buffer = refl;
                  channel = a.channel;
                  permits = refl;
                  seq = a.seq;
                }))),
      )

  waiting_empty : (ts : List T) (n : ℕ) (c : Conn F T) → At waiting [] ts 1 n c → Later (Quiet n) c
  waiting_empty [] n c a = Later-now c (record {
    phase = a.phase;
    flusher = a.flusher;
    buffer = a.buffer;
    channel = a.channel;
    seq = a.seq;
  })
  waiting_empty (t ∷ ts) n c a =
      Later-step (turn true none 0 0) c refl
        (waiting_empty ts n _ (turn-At waiting [] t ts 1 n c a))

  -- What happens once the flush loop waits again.
  Next : List Frame → ℕ → Type 0
  Next batch n = (u : T) (d : Conn F T) → At waiting batch (u ∷ []) 1 n d → Later (Quiet n) d

  sending_text :
      (batch : List Frame) (t : T) (ts : List T) (n : ℕ) (c : Conn F T)
      → Next batch n
      → At (sending t) batch ts 0 n c
      → Later (Quiet n) c
  unfolding Next
  sending_text batch t [] n c next a =
      Later-step channel_polled c tt (next t _ (polled-At batch t 0 n c a))
  sending_text batch t (u ∷ ts) n c next a =
      Later-step (turn true none 0 0) c refl
        (sending_text batch t ts n _ next (turn-At (sending t) batch u ts 0 n c a))

  At-task :
      (task : FlushTask F T) (c : Conn F T) {free : ℕ}
      → c.phase ≡ streaming
      → c.flusher ≡ task
      → c.permits ≡ free
      → At task c.buffer c.channel free c.seq c
  At-task task c p e k = record {
    phase = p;
    flusher = e;
    buffer = refl;
    channel = refl;
    permits = k;
    seq = refl;
  }

  written :
      (range_of : T → ℕ × ℕ) (o : Option T) (x : ℕ × ℕ)
      → Option.map range_of o ≡ some x
      → (t : T) × (o ≡ some t)
  written range_of (some t) x e = (t, refl)
  written range_of none x e = cc

  Quiet-end :
      (range_of : T → ℕ × ℕ) (n : ℕ) (d : Conn F T)
      → Quiet n d
      → Ledger range_of d
      → end_of 0 (map range_of d.sent) ≡ n
  Quiet-end range_of n d q l =
      let texts =
        ap (λ us. (d.sent ++ us) ++ unsent range_of d.flusher) q.channel
        ∙ ap (λ f. (d.sent ++ []) ++ unsent range_of f) q.flusher
        ∙ append-nil (d.sent ++ [])
        ∙ append-nil d.sent in
      let b =
        subst (λ f. Run (end_of 0 (answers range_of d)) (inflight range_of f ++ d.buffer) d.seq)
          q.flusher l.behind in
      sym (ap (λ us. end_of 0 (map range_of us)) texts)
      ∙ subst (λ fs. Run (end_of 0 (answers range_of d)) fs d.seq) q.buffer b
      ∙ q.seq

  requesting_then :
      (range_of : T → ℕ × ℕ) (batch : List Frame) (r : Request F) (ts : List T) (n : ℕ)
      (c : Conn F T)
      → Readable json range_of
      → Next batch n
      → At (requesting r) batch ts 0 n c
      → Later (Quiet n) c
  requesting_then range_of batch r ts n c read next a =
      let (t, e) =
        written range_of _ (r.oldest.seq, (newest_of r).seq)
          (request_partial-range fl json status_message context range_of read r 0 (length c.buffer)
            reply) in
      Later-step (answered 0 reply) c refl
        (sending_text batch t ts n _ next (answered-At batch r t ts 0 n c reply e a))

  waiting_batch :
      (range_of : T → ℕ × ℕ) (batch : List Frame) (ts : List T) (n : ℕ) (c : Conn F T)
      → Readable json range_of
      → At waiting batch ts 1 n c
      → Later (Quiet n) c
  unfolding Next
  waiting_batch range_of [] ts n c read a = waiting_empty ts n c a
  waiting_batch range_of (f ∷ fs) ts n c read a =
      let (r, b) = tick-At f fs ts n c a in
      Later-step (tick 0) c tt
        (requesting_then range_of [] r ts n _ read (λ u d. waiting_empty (u ∷ []) n d) b)

  by_task :
      (range_of : T → ℕ × ℕ) (task : FlushTask F T) (c : Conn F T)
      → Readable json range_of
      → c.phase ≡ streaming
      → c.flusher ≡ task
      → IsRunning task
      → Ledger range_of c
      → Later (Quiet c.seq) c
  unfolding Next
  by_task range_of stopped c read p e h l = absurd h
  by_task range_of waiting c read p e h l =
      waiting_batch range_of c.buffer c.channel c.seq c read
        (At-task waiting c p e (omega (arith, l.permit, ap (busy range_of) e)))
  by_task range_of (requesting r) c read p e h l =
      requesting_then range_of c.buffer r c.channel c.seq c read
        (λ u d a. waiting_batch range_of c.buffer (u ∷ []) c.seq d read a)
        (At-task (requesting r) c p e (omega (arith, l.permit, ap (busy range_of) e)))
  by_task range_of (sending t) c read p e h l =
      sending_text c.buffer t c.channel c.seq c
        (λ u d a. waiting_batch range_of c.buffer (u ∷ []) c.seq d read a)
        (At-task (sending t) c p e (omega (arith, l.permit, ap (busy range_of) e)))

  -- No frame is stuck. If every text can be written, and its reader finds the range that was written, then
  -- from every state of a connection that streams, after whatever steps, and for every reply, such as a
  -- failure or a timeout, there are further steps, in which the client reads and sends nothing and every
  -- request that is answered gets that reply, after which the
  -- connection still streams, the flush loop waits with an empty buffer and an empty channel, no further
  -- frame was received, and the texts that the socket was given tile all the frames received.
  pub streaming_progress :
      (range_of : T → ℕ × ℕ) (es : List (Event F))
      → Readable json range_of
      → (run fl json status_message context es new_conn).phase ≡ streaming
      → let c = run fl json status_message context es new_conn in
        (gs : List (Event F)) × All (Serves reply) gs
        × Quiet c.seq (run fl json status_message context gs c)
        × Tiles 0 (map range_of (run fl json status_message context gs c).sent)
        × (end_of 0 (map range_of (run fl json status_message context gs c).sent) ≡ c.seq)
  streaming_progress range_of es read live =
      let c = run fl json status_message context es new_conn in
      let good =
        run-Good fl json status_message context range_of read es new_conn
          (new_conn-Good fl json status_message context range_of) in
      let alive = run-Alive fl json status_message context es new_conn tt in
      let later =
        by_task range_of c.flusher c read live refl (subst (λ p. Alive p c.flusher) live alive)
          (subst (λ p. Good range_of p c) live good) in
      let d = run fl json status_message context later.steps c in
      let end = run-Good fl json status_message context range_of read later.steps c good in
      (
        later.steps,
        later.served,
        later.holds,
        Ledger-sent range_of d (subst (λ p. Good range_of p d) later.holds.phase end),
        Quiet-end range_of c.seq d later.holds
            (subst (λ p. Good range_of p d) later.holds.phase end),
      )
