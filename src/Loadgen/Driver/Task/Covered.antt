-- ===== src/Loadgen/Driver/Task/Covered.antt =====
-- loadgen/rust/src/main.rs: what a session that ends well, in a run without an error, has heard.
use mathlib.Core.Bool.{true≢false}
use websocket_stt_bench.Common.{
  ℕ, ◌+◌, ◌≤◌, ◌<◌, ◌≡◌, refl, sym, ap, subst, ◌∙◌, arith, Bool, true, Option, none, some, List, [],
  ◌∷◌, map, All, length, if_cases,
}
use websocket_stt_bench.Common.Float.{Float64}
use websocket_stt_bench.Loadgen.Protocol.{ServerMessage}
use websocket_stt_bench.Loadgen.Verify.{
  ExpectedConfig, MismatchKind, Continuity, continuity_start, check_tail, tail_tolerance_frames,
}
use websocket_stt_bench.Loadgen.Verify.Coverage.{
  to_list, covers, Tiles, end_of, observe_all-nil_iff, observe-next, accepted_session_covers,
}
use websocket_stt_bench.Loadgen.Driver.Correctness.{Correctness, new_correctness}
use websocket_stt_bench.Loadgen.Driver.Outcomes.{
  connect_timeout, send_timeout, TimeoutCounters, finished,
}
use websocket_stt_bench.Loadgen.Driver.Receive.{
  World, Session, last_measured, check_session_tail, drain_queue,
}
use websocket_stt_bench.Loadgen.Driver.Receive.Faults.{faults, wrong_nil, with_errors-faults}
use websocket_stt_bench.Loadgen.Driver.System.{new_system}
use websocket_stt_bench.Loadgen.Driver.System.Verdict.{Grows-refl, no_faults}
use websocket_stt_bench.Loadgen.Driver.Task.{
  Task, Script, start_task, send_loop, checked, close_loop, run_session,
}
use websocket_stt_bench.Loadgen.Driver.Task.Effects.{oldest_of, newest_of, range_of, moved}
use websocket_stt_bench.Loadgen.Driver.Task.Run.{Correct, Linked, moved_all, Tracked, Keeps-trans}
use websocket_stt_bench.Loadgen.Driver.Task.Loops.{
  After, After-map, and_then-After, await_timed-After, Fits, Kept, Final, aside-Keeps,
  send_loop-After, close_loop-After,
}

to_list-nil : (o : Option MismatchKind) → to_list o ≡ [] → o ≡ none
to_list-nil none e = refl
to_list-nil (some k) e = cc

Linked-Tiles :
    {F : Type 0} (fl : Float64 F) (s : Session) (expected : ExpectedConfig) (c : Continuity)
    (ms : List (Bool × ServerMessage F))
    → All (λ (x : Bool × ServerMessage F). x.0 ≡ true) ms
    → Linked fl s expected c ms
    → Tiles c.last_newest (map range_of ms)
      × ((moved_all fl s expected c ms).last_newest ≡ end_of c.last_newest (map range_of ms))
      × All (λ (x : Bool × ServerMessage F). Correct fl s expected x.1) ms
Linked-Tiles fl s expected c [] inside l = (tt, refl, tt)
Linked-Tiles fl s expected c ((b, m) ∷ ms) inside l =
    let (next, ordered, right) = l.0 inside.0 in
    let here =
      ap (λ (x : Continuity × Option MismatchKind). x.0.last_newest)
        (observe-next c (oldest_of m) (newest_of m) next ordered) in
    let (tiles, end, all_right) = Linked-Tiles fl s expected (moved c m) ms inside.1 l.1 in
    (
      (next, ordered, subst (λ k. Tiles k (map range_of ms)) here tiles),
      end ∙ ap (λ k. end_of k (map range_of ms)) here,
      (right, all_right),
    )

module _ {F T : Type 0} (fl : Float64 F) (from_str : T → Option (ServerMessage F)) (s : Session)
    (expected : ExpectedConfig) where
  -- The run of a session, up to the check of its tail.
  run_session-After :
      (w : World F) (counters : TimeoutCounters) (sc : Script F T)
      → Fits fl from_str s expected sc
      → After
          (λ u. Unit)
          (Final fl from_str s expected (start_task w counters sc.loop_start))
          (run_session fl from_str s w counters sc)
  unfolding run_session
  run_session-After w counters sc fits =
      await_timed-After (λ u. Unit) End connect_timeout sc.connect start _
        λ c.
          await_timed-After (λ u. Unit) End send_timeout sc.send_start
            (record start { counters = c }) _
            λ d.
              and_then-After (λ u. Unit) End (Kept fl from_str s expected start)
                (send_loop fl from_str s (record start { counters = d }) sc.turns) _
                (After-map (Kept fl from_str s expected start) End
                  (Kept fl from_str s expected (record start { counters = d })) End
                  (send_loop fl from_str s (record start { counters = d }) sc.turns)
                  (λ v k. Keeps-trans fl from_str s expected (aside start d) k) (λ v r. r)
                  (send_loop-After fl from_str s expected End (record start { counters = d })
                    sc.turns fits.0))
                λ v k.
                  await_timed-After (λ u. Unit) End send_timeout sc.send_close v _
                    λ e.
                      After-map (λ u. Unit) End (λ u. Unit)
                        (Final fl from_str s expected (record v { counters = e }))
                        (close_loop fl from_str s (record v { counters = e }) sc.closing)
                        (λ x y. tt)
                        (λ x (y, l, f). (
                          y,
                          Keeps-trans fl from_str s expected
                              (Keeps-trans fl from_str s expected k (aside v e)) l,
                          f,
                        ))
                        (close_loop-After fl from_str s expected (record v { counters = e })
                          sc.closing fits.1)
    where
      start : Task F
      start = start_task w counters sc.loop_start

      End : Task F → Type 0
      End = Final fl from_str s expected start

      aside :
          (t : Task F) (c : TimeoutCounters)
          → Kept fl from_str s expected t (record t { counters = c })
      aside t c =
          aside-Keeps fl from_str s expected t t.world c t.sender (Grows-refl fl from_str t.world)

  checked-faults :
      (v : Task F)
      → faults fl (checked fl from_str s v).world ≡ 0
      → (faults fl v.world ≡ 0)
        × (last_measured v.sender.sent_times s.measure_start ≡ true
            → check_tail (length v.sender.sent_times) v.check.continuity.last_newest ≡ none)
  unfolding check_session_tail
  checked-faults v =
      let sent = length v.sender.sent_times in
      let reported = v.check.continuity.last_newest in
      let found = to_list (check_tail sent reported) in
      if_cases
        (λ (c : Correctness).
          faults fl (record v.world { correctness = c }) ≡ 0
          → (faults fl v.world ≡ 0)
            × (last_measured v.sender.sent_times s.measure_start ≡ true
                → check_tail sent reported ≡ none))
        (last_measured v.sender.sent_times s.measure_start)
        (λ on clean.
          let counted =
            with_errors-faults fl v.world s.id "session_end" (reported + 1) sent found in
          (
            omega (arith, clean, counted),
            λ e.
                to_list-nil (check_tail sent reported)
                  (wrong_nil found (omega (arith, clean, counted))),
          ))
        (λ off clean. (clean, λ e. absurd (true≢false (sym e ∙ off))))

  -- A run of one session whose faults are none in the end.
  finished_Tracked :
      (counters : TimeoutCounters) (sc : Script F T) (u : Task F)
      → Fits fl from_str s expected sc
      → run_session fl from_str s (new_system fl from_str expected 1).world counters sc
        ≡ (u, some finished)
      → faults fl u.world ≡ 0
      → Tracked fl s expected u
        × (last_measured u.sender.sent_times s.measure_start ≡ true
            → check_tail (length u.sender.sent_times) u.check.continuity.last_newest ≡ none)
  unfolding new_system new_correctness
  finished_Tracked counters sc u fits ran clean =
      let w = (new_system fl from_str expected 1).world in
      let (v, kept, same) : Final fl from_str s expected (start_task w counters sc.loop_start) u =
        subst
          (After (λ x. Unit) (Final fl from_str s expected (start_task w counters sc.loop_start)))
          ran (run_session-After w counters sc fits) in
      let (none_left, tail) =
        checked-faults v (ap (λ (x : Task F). faults fl x.world) (sym same) ∙ clean) in
      let tracked = kept.tracked none_left refl (record { linked = tt; tracker = refl }) in
      subst
        (λ (x : Task F).
          Tracked fl s expected x
          × (last_measured x.sender.sent_times s.measure_start ≡ true
              → check_tail (length x.sender.sent_times) x.check.continuity.last_newest ≡ none))
        (sym same) (record { linked = tracked.linked; tracker = tracked.tracker }, tail)

  -- The session `s` runs in a run that verifies every response, whatever the messages it reads, the arms
  -- its loops take, and what other tasks do meanwhile, provided that they keep the settings and take no
  -- error back. If it ends well, and the run ends, the verifier's queue drained, with no correctness error
  -- and no dropped verification, then each response that it read inside the measured window continued the
  -- highest frame reported before it, and was a correct partial or an error; and if its last frame was
  -- sent in the window, at most the last `tail_tolerance_frames` frames sent are above the highest frame
  -- reported. Below it, a gap before a response that was read outside the window shows nowhere.
  pub finished_session_continues :
      (counters : TimeoutCounters) (sc : Script F T) (u : Task F)
      → Fits fl from_str s expected sc
      → run_session fl from_str s (new_system fl from_str expected 1).world counters sc
        ≡ (u, some finished)
      → (drain_queue fl u.world.correctness u.world.queue).errors ≡ 0
      → u.world.correctness.verify_dropped ≡ 0
      → Linked fl s expected continuity_start u.heard
        × (last_measured u.sender.sent_times s.measure_start ≡ true
            → length u.sender.sent_times
              ≤ (moved_all fl s expected continuity_start u.heard).last_newest
                + tail_tolerance_frames)
  unfolding check_tail
  finished_session_continues counters sc u fits ran clean kept =
      let (tracked, tail) =
        finished_Tracked counters sc u fits ran (no_faults fl from_str u.world clean kept) in
      (
        tracked.linked,
        λ e. ground (arith, tail e, ap (λ (c : Continuity). c.last_newest) tracked.tracker),
      )

  -- If, besides, the session read all its responses inside the measured window and its last frame was sent
  -- in it, then each frame it sent but the last `tail_tolerance_frames` was reported by exactly one
  -- response, and every partial was correct.
  pub finished_session_covers :
      (counters : TimeoutCounters) (sc : Script F T) (u : Task F) (k : ℕ)
      → Fits fl from_str s expected sc
      → run_session fl from_str s (new_system fl from_str expected 1).world counters sc
        ≡ (u, some finished)
      → (drain_queue fl u.world.correctness u.world.queue).errors ≡ 0
      → u.world.correctness.verify_dropped ≡ 0
      → All (λ (x : Bool × ServerMessage F). x.0 ≡ true) u.heard
      → last_measured u.sender.sent_times s.measure_start ≡ true
      → 0 < k
      → k + tail_tolerance_frames ≤ length u.sender.sent_times
      → (covers k (map range_of u.heard) ≡ 1)
        × All (λ (x : Bool × ServerMessage F). Correct fl s expected x.1) u.heard
  finished_session_covers counters sc u k fits ran clean kept inside sent pos early =
      let (tracked, tail) =
        finished_Tracked counters sc u fits ran (no_faults fl from_str u.world clean kept) in
      let (tiles, end, right) =
        Linked-Tiles fl s expected continuity_start u.heard inside tracked.linked in
      let (nothing, last) = observe_all-nil_iff continuity_start (map range_of u.heard) in
      (
        accepted_session_covers (map range_of u.heard) (length u.sender.sent_times) k
            (nothing.1 tiles)
            (subst (λ n. check_tail (length u.sender.sent_times) n ≡ none)
              (ap (λ (c : Continuity). c.last_newest) tracked.tracker ∙ end ∙ sym (last tiles))
              (tail sent))
            pos early,
        right,
      )
