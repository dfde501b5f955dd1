-- ===== src/Axum/Session/Ledger.antt =====
-- services/rust-axum/src/session.rs: where the frames of a connection are, and what its client reads.
use mathlib.Core.Option
use mathlib.Core.Option.{some_inj}
use websocket_stt_bench.Common.{
  ℕ, ◌+◌, ◌≤◌, ◌≡◌, refl, sym, ◌∙◌, subst, ap, arith, String, Option, none, some, List, [], ◌∷◌,
  ◌++◌, map, ◌&&◌, leb, ltb, if_cases, Result, ok, err, length, append_assoc, map-append,
  append-nil, length-append,
}
use websocket_stt_bench.Common.Float.{Float64}
use websocket_stt_bench.Loadgen.Verify.Coverage.{Tiles, end_of}
use websocket_stt_bench.Axum.Protocol.{
  new_partial, InferResponse, Frame, Json, PartialMessage, ErrorMessage,
}
use websocket_stt_bench.Axum.Inference.{
  make_error, on_success, AppContext, Request, Reply, failed, responded, batch_of, newest_of,
  request_partial,
}
use websocket_stt_bench.Axum.Session.{
  Conn, Phase, awaiting_start, streaming, ended, FlushTask, stopped, waiting, requesting, sending,
  partial_channel_depth, to_text, poll_channel, send_outbound,
}
use websocket_stt_bench.Axum.Session.Runs.{Run, Run-snoc, Run-behind, Tiles-snoc, Tiles-prefix}

-- What a reader of a text finds as its range is what was written, of partials and of errors.
pub record Readable {F T : Type 0} (json : Json F T) (range_of : T → ℕ × ℕ) : Type 0 where
  pub partials :
      (p : PartialMessage F)
      → Option.map range_of (json.write_partial p) ≡ some (p.oldest_frame_seq, p.newest_frame_seq)
  pub errors :
      (e : ErrorMessage F)
      → Option.map range_of (json.write_error e) ≡ some (e.oldest_frame_seq, e.newest_frame_seq)

module _ {F T : Type 0} (range_of : T → ℕ × ℕ) where
  -- The request in flight, and the text that waits for room.
  abbrev pub inflight : FlushTask F T → List Frame
  inflight (requesting r) = batch_of r
  inflight _ = []

  abbrev pub unsent : FlushTask F T → List T
  unsent (sending t) = t ∷ []
  unsent _ = []

  abbrev pub busy : FlushTask F T → ℕ
  busy stopped = 0
  busy waiting = 0
  busy (requesting r) = 1
  busy (sending t) = 1

  abbrev pub answers : Conn F T → List (ℕ × ℕ)
  answers c = map range_of ((c.sent ++ c.channel) ++ unsent c.flusher)

  -- The answers tile the frames, the frames behind them are in flight or in the buffer in their order, and
  -- the semaphore has the permits that no task holds.
  pub record Ledger (c : Conn F T) : Type 0 where
    pub tiles : Tiles 0 (answers c)
    pub behind : Run (end_of 0 (answers c)) (inflight c.flusher ++ c.buffer) c.seq
    pub permit : c.permits + busy c.flusher ≡ 1
    pub room : length c.channel ≤ partial_channel_depth

  -- What holds of a connection in each phase.
  abbrev pub Good : Phase → Conn F T → Type 0
  Good awaiting_start c = Ledger c × (c.flusher ≡ stopped)
  Good streaming c = Ledger c
  Good ended c = Tiles 0 (map range_of c.sent) × (c.flusher ≡ stopped)

  pub Ledger-sent : (c : Conn F T) → Ledger c → Tiles 0 (map range_of c.sent)
  Ledger-sent c l =
      Tiles-prefix 0 (map range_of c.sent) (map range_of (c.channel ++ unsent c.flusher)) (
        subst (Tiles 0)
          (ap (map range_of) (append_assoc c.sent c.channel (unsent c.flusher))
            ∙ map-append range_of c.sent (c.channel ++ unsent c.flusher))
          l.tiles)

  -- Texts and frames that only move keep the ledger.
  pub moved :
      (c d : Conn F T)
      → (d.sent ++ d.channel) ++ unsent d.flusher ≡ (c.sent ++ c.channel) ++ unsent c.flusher
      → inflight d.flusher ++ d.buffer ≡ inflight c.flusher ++ c.buffer
      → d.seq ≡ c.seq
      → d.permits + busy d.flusher ≡ 1
      → length d.channel ≤ partial_channel_depth
      → Ledger c
      → Ledger d
  moved c d texts frames seq permit room l = record {
    tiles = subst (Tiles 0) (ap (map range_of) (sym texts)) l.tiles;
    behind = rw texts (rw frames (rw seq l.behind));
    permit = permit;
    room = room;
  }

  pub sent_one :
      (c : Conn F T) (t : T) (rest : List T)
      → c.channel ≡ t ∷ rest
      → Ledger c
      → Ledger (record c { channel = rest; sent = c.sent ++ t ∷ [] })
  sent_one c t rest e l =
      moved c (record c { channel = rest; sent = c.sent ++ t ∷ [] })
        (ap (λ ts. ts ++ unsent c.flusher)
          (append_assoc c.sent (t ∷ []) rest ∙ ap (◌++◌ c.sent) (sym e)))
        refl refl l.permit (omega (arith, l.room, ap length e)) l

  pub received :
      (c : Conn F T) (f : Frame)
      → f.seq ≡ c.seq + 1
      → Ledger c
      → Ledger (record c { seq = c.seq + 1; buffer = c.buffer ++ f ∷ [] })
  received c f e l = record {
    tiles = l.tiles;
    behind =
        subst (λ fs. Run (end_of 0 (answers c)) fs (c.seq + 1))
          (append_assoc (inflight c.flusher) c.buffer (f ∷ []))
          (Run-snoc _ c.seq (inflight c.flusher ++ c.buffer) f l.behind e);
    permit = l.permit;
    room = l.room;
  }

  pub polled : (c : Conn F T) (t : T) → c.flusher ≡ sending t → Ledger c → Ledger (poll_channel t c)
  polled c t e l =
      if_cases Ledger (ltb (length c.channel) partial_channel_depth)
        (λ h.
          moved c
            (record c { channel = c.channel ++ t ∷ []; flusher = waiting; permits = c.permits + 1 })
            (append-nil _
              ∙ sym (append_assoc c.sent c.channel (t ∷ []))
              ∙ ap (λ f. (c.sent ++ c.channel) ++ unsent f) (sym e))
            (ap (λ f. inflight f ++ c.buffer) (sym e)) refl (omega (arith, l.permit, ap busy e))
            (ground (arith, h, length-append c.channel (t ∷ []))) l)
        (λ h. l)

  -- The answer to the request in flight.
  pub answer_sent :
      (c : Conn F T) (r : Request F) (o : Option T)
      → c.flusher ≡ requesting r
      → Option.map range_of o ≡ some (r.oldest.seq, (newest_of r).seq)
      → Ledger c
      → Ledger (send_outbound o c)
  answer_sent c r none e h l = cc
  answer_sent c r (some t) e h l =
      let ws = c.sent ++ c.channel in
      let texts = ap (map range_of) (ap (λ f. ws ++ unsent f) e ∙ append-nil ws) in
      let tiles = subst (Tiles 0) texts l.tiles in
      let here =
        subst (λ k. Run k (batch_of r ++ c.buffer) c.seq) (ap (end_of 0) texts)
          (subst (λ f. Run (end_of 0 (answers c)) (inflight f ++ c.buffer) c.seq) e l.behind) in
      let (ordered, rest) = Run-behind r.oldest r.others c.buffer c.seq here.1 in
      let (further, end) =
        Tiles-snoc 0 r.oldest.seq (newest_of r).seq (map range_of ws) tiles here.0 ordered in
      let added =
        map-append range_of ws (t ∷ []) ∙ ap (λ x. map range_of ws ++ x ∷ []) (some_inj.0 h) in
      record {
        tiles = subst (Tiles 0) (sym added) further;
        behind = subst (λ k. Run k c.buffer c.seq) (sym (ap (end_of 0) added ∙ end)) rest;
        permit = omega (arith, l.permit, ap busy e);
        room = l.room;
      }

  pub took :
      (c : Conn F T) (r : Request F) (left deadline : ℕ)
      → c.flusher ≡ waiting
      → c.permits ≡ left + 1
      → c.buffer ≡ batch_of r
      → Ledger c
      → Ledger
          (record c { expected = deadline; buffer = []; permits = left; flusher = requesting r })
  took c r left deadline e p b l =
      moved c
        (record c { expected = deadline; buffer = []; permits = left; flusher = requesting r })
        (ap (λ f. (c.sent ++ c.channel) ++ unsent f) (sym e))
        (append-nil (batch_of r) ∙ sym b ∙ ap (λ f. inflight f ++ c.buffer) (sym e)) refl
        (omega (arith, l.permit, p, ap busy e)) l.room l

  pub Ledger-Good : (p : Phase) (c : Conn F T) → p ≡ streaming → Ledger c → Good p c
  Ledger-Good awaiting_start c e l = cc
  Ledger-Good streaming c e l = l
  Ledger-Good ended c e l = cc

module _ {F T : Type 0} (fl : Float64 F) (json : Json F T) (status_message : ℕ → String)
    (context : AppContext) (range_of : T → ℕ × ℕ) where
  -- Every answer to a batch, a partial or an error, is about the whole batch.
  pub request_partial-range :
      Readable json range_of
      → (r : Request F) (now buffered : ℕ) (reply : Reply F)
      → Option.map range_of
          (to_text json (request_partial fl status_message context r now buffered reply))
        ≡ some (r.oldest.seq, (newest_of r).seq)
  unfolding request_partial make_error
  request_partial-range read r now buffered (failed e) = read.errors _
  request_partial-range read r now buffered (responded status parsed) =
      if_cases (λ x. Option.map range_of (to_text json x) ≡ some (r.oldest.seq, (newest_of r).seq))
        (leb 200 status && ltb status 300) (λ h. by_body parsed) (λ h. read.errors _)
    where
      by_body :
          (parsed : Result (InferResponse F) String)
          → Option.map range_of (to_text json (on_success fl context r now buffered status parsed))
            ≡ some (r.oldest.seq, (newest_of r).seq)
      by_body (ok infer) = unfold on_success new_partial in read.partials _
      by_body (err e) = unfold on_success make_error in read.errors _
