-- ===== src/Loadgen/Conformance/Paced.antt =====
-- loadgen/rust/src/bin/stt-conformance.rs: what `stream_paced` has read when it returns.
use websocket_stt_bench.Common.{
  ℕ, zero, suc, ◌+◌, ◌≤◌, ◌≡◌, refl, sym, ap, subst, ◌∙◌, arith, Bool, true, false, ◌&&◌, Option,
  none, some, List, [], ◌∷◌, ◌++◌, map, map-append, leb, length, length-append, All, All-append,
  Result, ok, err,
}
use websocket_stt_bench.Common.Float.{Float64}
use websocket_stt_bench.Loadgen.Protocol.{PartialMessage, ServerMessage, frame_payload, validate}
use websocket_stt_bench.Loadgen.Verify.{ExpectedConfig, MismatchKind, Continuity, observe}
use websocket_stt_bench.Loadgen.Verify.Coverage.{
  Tiles, end_of, Tiles-snoc, end_of-snoc, observe-none_iff, observe-next,
}
use websocket_stt_bench.Loadgen.Verify.Values.{IsCorrect}
use websocket_stt_bench.Loadgen.Conformance.{PartialChecker, CaseError, check}
use websocket_stt_bench.Loadgen.Conformance.Golden.{range_of, check_error-Passed}
use websocket_stt_bench.Loadgen.Conformance.Cases.{
  Paced, PacedArm, send_due, reply, deadline, start_paced, enabled, noted, paced_partial, on_paced,
  fired, if_paced, paced_loop,
}
use websocket_stt_bench.Loadgen.Conformance.Replies.{
  text, close, other, closed_error, failure, end_of_stream, expect_partial,
}

-- The first frames of a session.
abbrev pub first_frames : ℕ → ℕ → List (List ℕ)
first_frames id zero = []
first_frames id (suc n) = first_frames id n ++ frame_payload id (suc n) ∷ []

first_frames-add_one :
    (id n : ℕ) → first_frames id n ++ frame_payload id (n + 1) ∷ [] ≡ first_frames id (n + 1)
first_frames-add_one id n =
    let next : n + 1 ≡ suc n = omega arith in
    ap (λ k. first_frames id n ++ frame_payload id k ∷ []) next ∙ ap (first_frames id) (sym next)

-- Each partial covers frames of which the last was written when it was read, given how many were written then; and
-- these are no more than now.
abbrev pub ReadAfter : {F : Type 0} → (sent : ℕ) → List (PartialMessage F) → List ℕ → Type 0
ReadAfter sent [] [] = Unit
ReadAfter sent (p ∷ ps) (n ∷ ns) = (p.newest_frame_seq ≤ n) × (n ≤ sent) × ReadAfter sent ps ns
ReadAfter sent _ _ = ⊥

ReadAfter-send :
    {F : Type 0} (sent : ℕ) (ps : List (PartialMessage F)) (ns : List ℕ)
    → ReadAfter sent ps ns
    → ReadAfter (sent + 1) ps ns
ReadAfter-send sent [] [] h = tt
ReadAfter-send sent (p ∷ ps) (n ∷ ns) (a, b, h) = (a, omega (arith, b), ReadAfter-send sent ps ns h)
ReadAfter-send sent [] (n ∷ ns) h = absurd h
ReadAfter-send sent (p ∷ ps) [] h = absurd h

ReadAfter-snoc :
    {F : Type 0} (sent : ℕ) (ps : List (PartialMessage F)) (ns : List ℕ) (p : PartialMessage F)
    → p.newest_frame_seq ≤ sent
    → ReadAfter sent ps ns
    → ReadAfter sent (ps ++ p ∷ []) (ns ++ sent ∷ [])
ReadAfter-snoc sent [] [] p h v = (h, omega arith, tt)
ReadAfter-snoc sent (q ∷ ps) (n ∷ ns) p h (a, b, v) = (a, b, ReadAfter-snoc sent ps ns p h v)
ReadAfter-snoc sent [] (n ∷ ns) p h v = absurd v
ReadAfter-snoc sent (q ∷ ps) [] p h v = absurd v

module _ {F : Type 0} (fl : Float64 F) (id : ℕ) (expected : ExpectedConfig) where
  -- The frames that were written are the first of the session; the partials that were read tile the frames
  -- from the first on, are correct, and cover frames that were written before they were read.
  pub record IsStreamed (s : Paced F) : Type 0 where
    pub checker : s.checker ≡ record {
      session_id = id;
      expected = expected;
      continuity = record { last_newest = end_of 0 (map range_of s.heard) };
    }
    pub tiles : Tiles 0 (map range_of s.heard)
    pub known : ReadAfter s.sent s.heard s.sent_before
    pub correct : All (λ p. IsCorrect fl id p expected) s.heard
    pub times : length s.partial_times ≡ length s.heard
    pub written : s.written ≡ first_frames id s.sent

  abbrev Streams : Result (Paced F) CaseError → Type 0
  Streams (ok s) = IsStreamed s
  Streams (err e) = Unit

  pub start_IsStreamed : (started : ℕ) → IsStreamed (start_paced id expected started)
  start_IsStreamed started = record {
    checker = refl;
    tiles = tt;
    known = tt;
    correct = tt;
    times = refl;
    written = refl;
  }

  module _ {T : Type 0} (from_str : T → Option (ServerMessage F)) where
    noted-Streams :
        (p : PartialMessage F) (now : ℕ) (s : Paced F) (o : Option CaseError)
        → (check fl s.checker p s.sent).1 ≡ o
        → IsStreamed s
        → Streams (noted fl from_str p now s ((check fl s.checker p s.sent).0, o))
    unfolding check
    noted-Streams p now s (some e) found v = tt
    noted-Streams p now s none found v =
        let passed = check_error-Passed fl (validate fl p) _ s.checker p s.sent found in
        let c = s.checker in
        let last = ap (λ (k : PartialChecker). k.continuity.last_newest) v.checker in
        let (next, ordered) =
          (observe-none_iff c.continuity p.oldest_frame_seq p.newest_frame_seq).0 passed.next in
        let start = next ∙ ap (λ n. n + 1) last in
        let tiles =
          Tiles-snoc 0 (map range_of s.heard) p.oldest_frame_seq p.newest_frame_seq v.tiles start
            ordered in
        let end = end_of-snoc 0 (map range_of s.heard) p.oldest_frame_seq p.newest_frame_seq in
        let snoc = map-append range_of s.heard (p ∷ []) in
        record {
          checker =
              ap
                (λ (k : PartialChecker). record k {
                  continuity = (observe k.continuity p.oldest_frame_seq p.newest_frame_seq).0;
                })
                v.checker
              ∙ ap
                  (λ (x : Continuity). record {
                    session_id = id;
                    expected = expected;
                    continuity = x;
                  })
                  (ap (λ (x : Continuity × Option MismatchKind). x.0)
                      (observe-next (record { last_newest = end_of 0 (map range_of s.heard) })
                        p.oldest_frame_seq p.newest_frame_seq start ordered)
                    ∙ ap (λ n. record { last_newest = n }) (sym (ap (end_of 0) snoc ∙ end)));
          tiles = subst (Tiles 0) (sym snoc) tiles;
          known = ReadAfter-snoc s.sent s.heard s.sent_before p passed.known v.known;
          correct =
              All-append (λ q. IsCorrect fl id q expected) s.heard (p ∷ []) v.correct
                (
                  subst (λ (k : PartialChecker). IsCorrect fl k.session_id p k.expected) v.checker
                      passed.correct,
                  tt,
                );
          times = omega (
            arith,
            v.times,
            length-append s.partial_times (now ∷ []),
            length-append s.heard (p ∷ []),
          );
          written = v.written;
        }

    on_paced-Streams :
        (arm : PacedArm T) (s : Paced F) → IsStreamed s → Streams (on_paced fl from_str arm s)
    unfolding on_paced
    on_paced-Streams (send_due at true) s v = record {
      checker = v.checker;
      tiles = v.tiles;
      known = ReadAfter-send s.sent s.heard s.sent_before v.known;
      correct = v.correct;
      times = v.times;
      written =
          ap (λ (k : PartialChecker). s.written ++ frame_payload k.session_id (s.sent + 1) ∷ [])
            v.checker
          ∙ ap (λ w. w ++ frame_payload id (s.sent + 1) ∷ []) v.written
          ∙ first_frames-add_one id s.sent;
    }
    on_paced-Streams (send_due at false) s v = tt
    on_paced-Streams (reply none now) s v = tt
    on_paced-Streams (reply (some (text t)) now) s v = by_partial (expect_partial from_str t)
      where
        by_partial :
            (r : Result (PartialMessage F) CaseError) → Streams (paced_partial fl from_str r now s)
        by_partial (err e) = tt
        by_partial (ok p) = noted-Streams p now s (check fl s.checker p s.sent).1 refl v
    on_paced-Streams (reply (some (close code)) now) s v = tt
    on_paced-Streams (reply (some other) now) s v = v
    on_paced-Streams (reply (some closed_error) now) s v = tt
    on_paced-Streams (reply (some failure) now) s v = tt
    on_paced-Streams (reply (some end_of_stream) now) s v = tt
    on_paced-Streams (deadline at) s v = tt

    fired-Streams :
        (b : Bool) (arm : PacedArm T) (s : Paced F)
        → IsStreamed s
        → Streams (fired fl from_str b arm s)
    fired-Streams true arm s v = on_paced-Streams arm s v
    fired-Streams false arm s v = v

    abbrev pub Returns : ℕ → Result (Paced F) CaseError → Type 0
    Returns n (ok s) = IsStreamed s × (n ≤ length s.partial_times)
    Returns n (err e) = Unit

    pub paced_loop-Returns :
        (n stop give_up : ℕ) (turns : List (ℕ × PacedArm T)) (s : Paced F)
        → IsStreamed s
        → Returns n (paced_loop fl from_str n stop give_up turns s)
    unfolding paced_loop
    paced_loop-Returns n stop give_up [] s v = tt
    paced_loop-Returns n stop give_up ((now, arm) ∷ rest) s v =
        (elim (leb n (length s.partial_times) && leb stop now)
            as (λ b.
              (leb n (length s.partial_times) && leb stop now) ≡ b
              → Returns n (elim b [
                | true ↦ ok s
                | false ↦
                    if_paced fl from_str (fired fl from_str (enabled stop give_up now arm s) arm s)
                      (λ u. paced_loop fl from_str n stop give_up rest u)
              ])) [
                | true ↦ λ e. (v, ground (arith, e))
                | false ↦ λ e.
                    after (fired fl from_str (enabled stop give_up now arm s) arm s)
                      (fired-Streams (enabled stop give_up now arm s) arm s v)
                      (λ u w. paced_loop-Returns n stop give_up rest u w)
              ])
          refl
      where
        after :
            (r : Result (Paced F) CaseError)
            → Streams r
            → ((u : Paced F)
                → IsStreamed u
                → Returns n (paced_loop fl from_str n stop give_up rest u))
            → Returns n (if_paced fl from_str r (λ u. paced_loop fl from_str n stop give_up rest u))
        after (err e) w more = tt
        after (ok u) w more = more u w
