-- ===== src/Gateway/Tick/Answers.antt =====
-- services/rust-sync/src/session.rs and main.rs: flushes, results and timeouts keep the ledger, and each
-- submitted batch is answered once.
use mathlib.Core.List
use mathlib.Core.Bool.{true≢false}
use mathlib.Core.Option
use mathlib.Core.Option.{some-ne-none}
use websocket_stt_bench.Common.{
  ℕ, ◌+◌, ◌≡◌, refl, sym, ap, subst, ◌∙◌, true, Option, none, some, List, [], ◌∷◌, ◌++◌, arith,
  length, last_or, append-nil, Result, ok, err,
}
use websocket_stt_bench.Common.Float.{Float64}
use websocket_stt_bench.Gateway.Config.{Config}
use websocket_stt_bench.Gateway.Protocol.{InferResponse, Json}
use websocket_stt_bench.Gateway.Inference.{Cmd, submit, abort, InferError}
use websocket_stt_bench.Gateway.Session.{
  FrameMeta, Batch, Pending, Sent, Conn, Flush, keep, send, text, tag, response_text, partial_of,
  error_of, write_response, deliver_to, flush_ws,
}
use websocket_stt_bench.Gateway.Wire.{response, range_of, RoundTrip, decoded}
use websocket_stt_bench.Gateway.Session.Cases.{flush_ws_cases}
use websocket_stt_bench.Loadgen.Protocol.{ServerMessage}
use websocket_stt_bench.Loadgen.Verify.Coverage.{Tiles-snoc, end_of-snoc, end_of}
use websocket_stt_bench.Gateway.Tick.{Advanced}
use websocket_stt_bench.Gateway.Tick.Accounting.{is_open, reported-send}
use websocket_stt_bench.Gateway.Tick.Ledger.{Consecutive-last, books, IsAccounted, Ledger}

-- The tags of the batches submitted, and of the batch in flight.
abbrev pub submitted : List Cmd → List ℕ
submitted [] = []
submitted (submit owner tag body passes ∷ rest) = tag ∷ submitted rest
submitted (abort owner ∷ rest) = submitted rest

abbrev pub awaited : {F : Type 0} → Option (Pending F) → List ℕ
awaited none = []
awaited (some p) = tag p.batch ∷ []

module _ {F T : Type 0} (fl : Float64 F) (json : Json F T) (config : Config)
    (from_str : T → Option (ServerMessage F)) (wire : RoundTrip json from_str) where
  -- A batch's response can be written, and the client reads its range.
  response_text-range :
      (b : Batch F) (result : Result (InferResponse F) (InferError F)) (now : ℕ)
      → (t : T) × (response_text fl json b result now config ≡ some t)
        × (List.map range_of (response from_str (text t)) ≡ (b.oldest_seq, b.newest_seq) ∷ [])
  unfolding response_text partial_of error_of
  response_text-range b (ok infer) now =
      let (t, written, p, back, first, last) = wire.partial_back (partial_of b infer config) refl in
      (
        t,
        written,
        ap (λ o. List.map range_of (decoded o)) back
            ∙ ap (λ n. (n, p.newest_frame_seq) ∷ []) first
            ∙ ap (λ n. (b.oldest_seq, n) ∷ []) last,
      )
  response_text-range b (err e) now =
      let (t, written, m, back, first, last) = wire.error_back (error_of fl b e now) refl in
      (
        t,
        written,
        ap (λ o. List.map range_of (decoded o)) back
            ∙ ap (λ n. (n, m.newest_frame_seq) ∷ []) first
            ∙ ap (λ n. (b.oldest_seq, n) ∷ []) last,
      )

  -- What a step does to the ledger: some further ranges are reported, and the tags in
  -- flight and submitted are those of the reported ranges, then the one in flight.
  pub record Advances (rs : List (ℕ × ℕ)) (before : Option (Pending F)) (a : Advanced F T)
      : Type 0 where
    pub reports : List (ℕ × ℕ)
    pub ledger : Ledger from_str (rs ++ reports) (books a.conn)
    pub balance :
        awaited before ++ submitted a.cmds ≡ List.map (λ r. r.0) reports ++ awaited a.conn.pending

  pub Advances-idle :
      (rs : List (ℕ × ℕ)) (a : Advanced F T)
      → submitted a.cmds ≡ []
      → Ledger from_str rs (books a.conn)
      → Advances rs a.conn.pending a
  Advances-idle rs a e v = record {
    reports = [];
    ledger = rw (append-nil rs) v;
    balance = rw e (append-nil (awaited a.conn.pending));
  }

  -- A flush moves the buffer into the batch in flight.
  pub begin-IsAccounted :
      (rs : List (ℕ × ℕ)) (ws : Option (List (Sent T))) (pcm : List ℕ) (seq : ℕ) (first : FrameMeta)
      (rest : List FrameMeta) (p : Pending F)
      → p.batch.oldest_seq ≡ first.seq
      → p.batch.newest_seq ≡ (last_or first rest).seq
      → p.batch.frames ≡ length (first ∷ rest)
      → p.batch.audio_bytes ≡ length pcm
      → IsAccounted {F = F} {T = T} rs
          (record { ws = ws; pending = none; pcm = pcm; meta = first ∷ rest; seq = seq })
      → IsAccounted {F = F} {T = T} rs
          (record { ws = ws; pending = some p; pcm = []; meta = []; seq = seq })
  begin-IsAccounted rs ws pcm seq first rest p eo ew ef ea v = record {
    tiles = v.tiles;
    flight = (
      omega (arith, eo, v.buffered.0),
      omega (arith, eo, ew, v.buffered.0, newest),
      omega (arith, eo, ew, ef, v.buffered.0, newest),
      omega (arith, ea, ef, v.sized),
    );
    buffered = tt;
    counted = omega (arith, ew, newest, v.counted);
    sized = omega arith;
    unopened = λ e. cc ((v.unopened e).1);
  }
    where
      newest : (last_or first rest).seq ≡ end_of 0 rs + length (first ∷ rest)
      newest = Consecutive-last (end_of 0 rs) first rest v.buffered

  -- An answer moves the range of the batch in flight to the reported ones.
  answer-IsAccounted :
      (rs : List (ℕ × ℕ)) (ws ws' : Option (List (Sent T))) (pcm : List ℕ) (ms : List FrameMeta)
      (seq : ℕ) (p : Pending F)
      → is_open ws' ≡ true
      → IsAccounted {F = F} {T = T} rs
          (record { ws = ws; pending = some p; pcm = pcm; meta = ms; seq = seq })
      → IsAccounted {F = F} {T = T}
          (rs ++ (p.batch.oldest_seq, p.batch.newest_seq) ∷ [])
          (record { ws = ws'; pending = none; pcm = pcm; meta = ms; seq = seq })
  answer-IsAccounted rs ws ws' pcm ms seq p open_ v = record {
    tiles = Tiles-snoc 0 rs o w v.tiles v.flight.0 v.flight.1;
    flight = tt;
    buffered = rw (end_of-snoc 0 rs o w) v.buffered;
    counted = rw (end_of-snoc 0 rs o w) v.counted;
    sized = v.sized;
    unopened = λ e. absurd (true≢false (sym open_ ∙ ap is_open e));
  }
    where
      o : ℕ
      o = p.batch.oldest_seq

      w : ℕ
      w = p.batch.newest_seq

  is_open_of : (ws : Option (List (Sent T))) → ¬ (ws ≡ none) → is_open ws ≡ true
  is_open_of none h = absurd (h refl)
  is_open_of (some out) h = refl

  -- Once a text that reports the batch in flight is written, its range is reported.
  written-Ledger :
      (rs : List (ℕ × ℕ)) (c : Conn F T) (p : Pending F) (t : T)
      → c.pending ≡ some p
      → List.map range_of (response from_str (text t))
        ≡ (p.batch.oldest_seq, p.batch.newest_seq) ∷ []
      → Ledger from_str rs (books c)
      → Ledger from_str
          (rs ++ (p.batch.oldest_seq, p.batch.newest_seq) ∷ [])
          (books (send (record c { pending = none }) (text t)))
  written-Ledger rs c p t e back v = record {
    reports = reported-send from_str c.ws (text t) open_ ∙ cc (v.reports, back);
    accounts =
        answer-IsAccounted rs c.ws (Option.map (λ out. out ++ text t ∷ []) c.ws) c.pcm c.meta c.seq
          p (ground (arith, open_))
          (subst
            (λ o.
              IsAccounted {F = F} {T = T} rs
                (record { ws = c.ws; pending = o; pcm = c.pcm; meta = c.meta; seq = c.seq }))
            e v.accounts);
  }
    where
      open_ : is_open c.ws ≡ true
      open_ = is_open_of c.ws (λ h. some-ne-none p (sym e ∙ (v.accounts.unopened h).0))

  -- `deliver` with a batch in flight: its range is reported, and nothing is in flight any more.
  pub deliver_to-Advances :
      (rs : List (ℕ × ℕ)) (c : Conn F T) (o : Option (Pending F))
      (result : Result (InferResponse F) (InferError F)) (now : ℕ) (r : Flush) (cmds : List Cmd)
      → c.pending ≡ o
      → submitted cmds ≡ []
      → Ledger from_str rs (books c)
      → let (c', outcome) = deliver_to fl json o c result now config r in
        Advances rs o (record { conn = c'; cmds = cmds; outcome = outcome })
  unfolding deliver_to write_response
  deliver_to-Advances rs c none result now r cmds e quiet v =
      subst (λ o. Advances rs o (record { conn = c; cmds = cmds; outcome = keep })) e
        (Advances-idle rs (record { conn = c; cmds = cmds; outcome = keep }) quiet v)
  deliver_to-Advances rs c (some p) result now r cmds e quiet v =
      let (t, written, back) = response_text-range p.batch result now in
      rw written (
        flush_ws_cases
          (λ d. Advances rs (some p) (record {
            conn = d;
            cmds = cmds;
            outcome = (flush_ws (send (record c { pending = none }) (text t)) r).1;
          }))
          (send (record c { pending = none }) (text t)) r
          (record {
            reports = (p.batch.oldest_seq, p.batch.newest_seq) ∷ [];
            ledger = written-Ledger rs c p t e back v;
            balance = rw quiet refl;
          })
          (λ w i. record {
            reports = (p.batch.oldest_seq, p.batch.newest_seq) ∷ [];
            ledger = written-Ledger rs c p t e back v;
            balance = rw quiet refl;
          }))
