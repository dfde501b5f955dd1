-- ===== src/Axum/Session/Client.antt =====
-- services/rust-axum/src/session.rs and loadgen/rust/src/verify.rs: what a client of the gateway finds.
use websocket_stt_bench.Common.{
  ℕ, ◌+◌, ◌≤◌, ◌<◌, ◌≡◌, refl, subst, arith, String, List, [], ◌++◌, map, length, length-append,
}
use websocket_stt_bench.Common.Float.{Float64}
use websocket_stt_bench.Loadgen.Verify.{continuity_start}
use websocket_stt_bench.Loadgen.Verify.Coverage.{Tiles, end_of, observe_all, observe_all-nil_iff}
use websocket_stt_bench.Axum.Protocol.{Json}
use websocket_stt_bench.Axum.Inference.{AppContext, Request, newest_of}
use websocket_stt_bench.Axum.Session.{
  Conn, Event, requesting, Phase, streaming, ended, awaiting_start, new_conn, run,
  partial_channel_depth,
}
use websocket_stt_bench.Axum.Session.Runs.{Run, Run-front, Run-length}
use websocket_stt_bench.Axum.Session.Ledger.{
  Readable, inflight, busy, answers, Ledger, Good, Ledger-sent,
}
use websocket_stt_bench.Axum.Session.Steps.{run-Good}

module _ {F T : Type 0} (fl : Float64 F) (json : Json F T) (status_message : ℕ → String)
    (context : AppContext) (range_of : T → ℕ × ℕ) where
  Good-Tiles : (p : Phase) (c : Conn F T) → Good range_of p c → Tiles 0 (map range_of c.sent)
  Good-Tiles awaiting_start c g = Ledger-sent range_of c g.0
  Good-Tiles streaming c g = Ledger-sent range_of c g
  Good-Tiles ended c g = g.0

  pub new_conn-Good : Good range_of awaiting_start (new_conn {F = F})
  new_conn-Good =
      (record { tiles = tt; behind = refl; permit = omega arith; room = omega arith }, refl)

  -- If every text can be written, and its reader finds the range that was written, then whatever happens to
  -- a connection, in whatever order its two tasks, the inference server and the client take their steps,
  -- and whether the requests fail or not, the load generator's tracker finds no gap, no overlap and no
  -- invalid range in the texts that the socket was given.
  pub observe_all-run :
      Readable json range_of
      → (es : List (Event F))
      → (observe_all continuity_start
          (map range_of (run fl json status_message context es new_conn).sent)).1
        ≡ []
  observe_all-run read es =
      let y = run fl json status_message context es new_conn in
      (observe_all-nil_iff continuity_start (map range_of y.sent)).0.1 (
        Good-Tiles y.phase y
          (run-Good fl json status_message context range_of read es new_conn new_conn-Good))

  -- Under the same hypothesis, as long as a connection streams no frame is lost and the work for it is
  -- bounded: the frames received are those answered, in flight and in the buffer; at most one request is
  -- made or waits to be sent, exactly when the permit of the semaphore is taken, so that a tick of the
  -- waiting flush loop always gets it; and the channel holds at most four texts.
  pub streaming_conserves :
      Readable json range_of
      → (es : List (Event F))
      → let y = run fl json status_message context es new_conn in
        y.phase ≡ streaming
        → (y.seq
            ≡ end_of 0 (answers range_of y)
              + (length (inflight range_of y.flusher) + length y.buffer))
          × (y.permits + busy range_of y.flusher ≡ 1)
          × (length y.channel ≤ partial_channel_depth)
  streaming_conserves read es live =
      let y = run fl json status_message context es new_conn in
      let l =
        subst (λ p. Good range_of p y) live
          (run-Good fl json status_message context range_of read es new_conn new_conn-Good) in
      (
        omega (
          arith,
          Run-length _ y.seq (inflight range_of y.flusher ++ y.buffer) l.behind,
          length-append (inflight range_of y.flusher) y.buffer,
        ),
        l.permit,
        l.room,
      )

  Good-requesting :
      (p : Phase) (c : Conn F T) (r : Request F)
      → Good range_of p c
      → c.flusher ≡ requesting r
      → Ledger range_of c
  Good-requesting awaiting_start c r g e = g.0
  Good-requesting streaming c r g e = g
  Good-requesting ended c r g e = cc (g.1, e)

  -- The batch of a request is a run of consecutive frames, from number 1 on.
  pub run_requesting :
      Readable json range_of
      → (es : List (Event F)) (r : Request F)
      → (run fl json status_message context es new_conn).flusher ≡ requesting r
      → (0 < r.oldest.seq) × Run r.oldest.seq r.others (newest_of r).seq
  run_requesting read es r e =
      let y = run fl json status_message context es new_conn in
      let l =
        Good-requesting y.phase y r
          (run-Good fl json status_message context range_of read es new_conn new_conn-Good) e in
      let b =
        subst (λ f. Run (end_of 0 (answers range_of y)) (inflight range_of f ++ y.buffer) y.seq) e
          l.behind in
      (omega (arith, b.0), Run-front r.oldest r.others y.buffer y.seq b.1)
