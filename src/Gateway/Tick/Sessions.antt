-- ===== src/Gateway/Tick/Sessions.antt =====
-- services/rust-sync/src/main.rs and session.rs: a connection from its creation, under any sequence of
-- readiness events, results and timer ticks, seen from the client and from the inference thread.
use mathlib.Core.List
use mathlib.Core.List.{map-append}
use websocket_stt_bench.Common.{
  ℕ, ◌+◌, ◌*◌, ◌≤◌, ◌≡◌, refl, sym, ap, subst, ◌∙◌, Option, none, some, List, [], ◌∷◌, ◌++◌, arith,
  length, append-nil, append_assoc, Result,
}
use websocket_stt_bench.Common.Float.{Float64}
use websocket_stt_bench.Gateway.Config.{Config, frame_bytes}
use websocket_stt_bench.Gateway.Protocol.{InferResponse, Json}
use websocket_stt_bench.Gateway.Inference.{Cmd, submit, abort, InferError}
use websocket_stt_bench.Gateway.Session.{
  Pending, Conn, new, Flush, Outcome, keep, close, tag, match_tag, on_done,
}
use websocket_stt_bench.Gateway.Tick.Content.{bytes_of, submitted_bytes, frames_run, run-pcm}
use websocket_stt_bench.Gateway.Wire.{RoundTrip}
use websocket_stt_bench.Loadgen.Protocol.{ServerMessage}
use websocket_stt_bench.Loadgen.Verify.{continuity_start}
use websocket_stt_bench.Loadgen.Verify.Coverage.{observe_all, observe_all-nil_iff, end_of}
use websocket_stt_bench.Gateway.Tick.{Event, Advanced, step, run}
use websocket_stt_bench.Gateway.Tick.Answers.{submitted, awaited, Advances}
use websocket_stt_bench.Gateway.Tick.Steps.{step-Advances}
use websocket_stt_bench.Gateway.Tick.Ledger.{books, Ledger, reported, taken, InFlight}

submitted-append : (xs ys : List Cmd) → submitted (xs ++ ys) ≡ submitted xs ++ submitted ys
submitted-append [] ys = refl
submitted-append (submit owner tag body passes ∷ xs) ys = ap (◌∷◌ tag) (submitted-append xs ys)
submitted-append (abort owner ∷ xs) ys = submitted-append xs ys

module _ {F : Type 0} where
  -- The frames in flight.
  abbrev pub frames_held : Option (Pending F) → ℕ
  frames_held none = 0
  frames_held (some p) = p.batch.frames

  taken_frames :
      (last : ℕ) (o : Option (Pending F)) → InFlight last o → taken last o ≡ last + frames_held o
  taken_frames last none f = omega arith
  taken_frames last (some p) f = omega (arith, f.0, f.1, f.2)

module _ {F T : Type 0} (fl : Float64 F) (json : Json F T) (config : Config)
    (from_str : T → Option (ServerMessage F)) (wire : RoundTrip json from_str) where
  new-Ledger :
      (id now phase : ℕ) → Ledger {F = F} {T = T} from_str [] (books (new id now phase config))
  unfolding new
  new-Ledger id now phase = record {
    reports = refl;
    accounts = record {
      tiles = tt;
      flight = tt;
      buffered = tt;
      counted = refl;
      sized = refl;
      unopened = λ e. (refl, refl);
    };
  }

  -- A result whose tag is below the batch in flight is dropped.
  dropped :
      (c : Conn F T) (o : Option (Pending F)) (last t : ℕ)
      (result : Result (InferResponse F) (InferError F)) (at : ℕ) (r : Flush)
      → InFlight last o
      → t ≤ last
      → match_tag fl json o c t result at config r ≡ (c, keep)
  unfolding match_tag
  dropped c none last t result at r f h = refl
  dropped c (some p) last t result at r f h = ground (arith, f.0)

  -- What a run does to the ledger.
  record Progress (rs : List (ℕ × ℕ)) (before : Option (Pending F)) (c : Conn F T) (cmds : List Cmd)
      : Type 0 where
    reports : List (ℕ × ℕ)
    ledger : Ledger from_str (rs ++ reports) (books c)
    balance : awaited before ++ submitted cmds ≡ List.map (λ r. r.0) reports ++ awaited c.pending

  Progress-step :
      (rs : List (ℕ × ℕ)) (before : Option (Pending F)) (mid : Conn F T) (first : List Cmd)
      (c : Conn F T) (further : List Cmd) (r1 : List (ℕ × ℕ))
      → awaited before ++ submitted first ≡ List.map (λ r. r.0) r1 ++ awaited mid.pending
      → Progress (rs ++ r1) mid.pending c further
      → Progress rs before c (first ++ further)
  Progress-step rs before mid first c further r1 e p = record {
    reports = r1 ++ p.reports;
    ledger = rw (sym (append_assoc rs r1 p.reports)) p.ledger;
    balance =
        ap (◌++◌ (awaited before)) (submitted-append first further)
        ∙ sym (append_assoc (awaited before) (submitted first) (submitted further))
        ∙ ap (λ (l : List ℕ). l ++ submitted further) e
        ∙ append_assoc (List.map (λ r. r.0) r1) (awaited mid.pending) (submitted further)
        ∙ ap (◌++◌ (List.map (λ r. r.0) r1)) p.balance
        ∙ sym (
            append_assoc (List.map (λ r. r.0) r1) (List.map (λ r. r.0) p.reports)
              (awaited c.pending))
        ∙ ap (λ (l : List ℕ). l ++ awaited c.pending) (sym (map-append (λ r. r.0) r1 p.reports));
  }

  run-Progress :
      (rs : List (ℕ × ℕ)) (c : Conn F T) (es : List (Event F))
      → Ledger from_str rs (books c)
      → let (c', cmds) = run fl json config c es in Progress rs c.pending c' cmds
  unfolding run
  run-Progress rs c [] v = record {
    reports = [];
    ledger = rw (append-nil rs) v;
    balance = append-nil (awaited c.pending);
  }
  run-Progress rs c (e ∷ es) v =
      elim a.outcome
        as (λ (o : Outcome).
          let (c', cmds) = (elim o as (λ _. Conn F T × List Cmd) [
            | keep ↦ (further.0, a.cmds ++ further.1)
            | close ↦ (a.conn, a.cmds)
          ]) in
          Progress rs c.pending c' cmds) [
            | keep ↦
                Progress-step rs c.pending a.conn a.cmds further.0 further.1 s.reports s.balance
                  (run-Progress (rs ++ s.reports) a.conn es s.ledger)
            | close ↦ record { reports = s.reports; ledger = s.ledger; balance = s.balance }
          ]
    where
      a : Advanced F T
      a = step fl json config c e

      further : Conn F T × List Cmd
      further = run fl json config a.conn es

      s : Advances fl json config from_str wire rs c.pending a
      s = step-Advances fl json config from_str wire rs c e v

  run-Ledger :
      (id now phase : ℕ) (es : List (Event F))
      → let c = (run fl json config (new id now phase config) es).0 in
        Ledger from_str (reported from_str c.ws) (books c)
  run-Ledger id now phase es =
      subst (λ rs. Ledger from_str rs (books c)) (sym p.ledger.reports) p.ledger
    where
      c : Conn F T
      c = (run fl json config (new id now phase config) es).0

      p : Progress [] none c (run fl json config (new id now phase config) es).1
      p = unfold new in run-Progress [] (new id now phase config) es (new-Ledger id now phase)

  run-end_of :
      (id now phase : ℕ) (es : List (Event F))
      → let c = (run fl json config (new id now phase config) es).0 in
        (observe_all continuity_start (reported from_str c.ws)).0.last_newest
        ≡ end_of 0 (reported from_str c.ws)
  run-end_of id now phase es =
      (observe_all-nil_iff continuity_start _).1 (run-Ledger id now phase es).accounts.tiles

  -- Provided that the client's parser reads back what the gateway writes: after any sequence of events
  -- on a new connection, the client's continuity check finds no mismatch in the responses written so
  -- far.
  pub run_contiguous :
      (id now phase : ℕ) (es : List (Event F))
      → let c = (run fl json config (new id now phase config) es).0 in
        (observe_all continuity_start (reported from_str c.ws)).1 ≡ []
  run_contiguous id now phase es =
      (observe_all-nil_iff continuity_start _).0.1 (run-Ledger id now phase es).accounts.tiles

  -- Provided that the client's parser reads back what the gateway writes: after any sequence of events
  -- on a new connection, the tags of the batches submitted to the inference thread are, in order, those
  -- of the responses written, and then that of the batch in flight, if there is one. So each batch is
  -- answered once, in order, and at most one is in flight.
  pub run_answers :
      (id now phase : ℕ) (es : List (Event F))
      → let (c, cmds) = run fl json config (new id now phase config) es in
        submitted cmds ≡ List.map (λ r. r.0) (reported from_str c.ws) ++ awaited c.pending
  run_answers id now phase es = rw p.ledger.reports p.balance
    where
      c : Conn F T
      c = (run fl json config (new id now phase config) es).0

      p : Progress [] none c (run fl json config (new id now phase config) es).1
      p = unfold new in run-Progress [] (new id now phase config) es (new-Ledger id now phase)

  -- Provided that the client's parser reads back what the gateway writes: after any sequence of events
  -- on a new connection, the frames accepted so far are those up to the last one reported, those of the
  -- batch in flight and those in the buffer, which has 640 bytes for each; and the bytes of all accepted
  -- frames, in the order in which they came, are those of the batches submitted to the inference thread,
  -- in order, and then those of the buffer.
  pub run_conserves :
      (id now phase : ℕ) (es : List (Event F))
      → let (c, cmds) = run fl json config (new id now phase config) es in
        (c.seq
          ≡ (observe_all continuity_start (reported from_str c.ws)).0.last_newest
            + frames_held c.pending
            + length c.meta)
        × (length c.pcm ≡ length c.meta * frame_bytes)
        × (bytes_of (frames_run fl json config (new id now phase config) es)
            ≡ submitted_bytes cmds ++ c.pcm)
  run_conserves id now phase es =
      let v = (run-Ledger id now phase es).accounts in
      (
        omega (arith, v.counted, taken_frames _ _ v.flight, run-end_of id now phase es),
        v.sized,
        unfold new in run-pcm fl json config (new id now phase config) es,
      )

  -- Provided that the client's parser reads back what the gateway writes: a result whose tag is not
  -- above the last frame reported, such as one that arrives after its batch has timed out, changes
  -- nothing.
  pub late_result_dropped :
      (id now phase : ℕ) (es : List (Event F)) (t : ℕ)
      (result : Result (InferResponse F) (InferError F)) (at : ℕ) (r : Flush)
      → let c = (run fl json config (new id now phase config) es).0 in
        t ≤ (observe_all continuity_start (reported from_str c.ws)).0.last_newest
        → on_done fl json c t result at config r ≡ (c, keep)
  unfolding on_done
  late_result_dropped id now phase es t result at r h =
      dropped _ _ _ t result at r (run-Ledger id now phase es).accounts.flight
        (omega (arith, h, run-end_of id now phase es))
