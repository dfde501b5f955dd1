-- ===== src/Loadgen/Conformance/Cadence.antt =====
-- loadgen/rust/src/bin/stt-conformance.rs: what the case `flush_cadence` finds out about the flushes of a gateway.
use websocket_stt_bench.Common.{
  ℕ, ◌+◌, ◌-◌, ◌*◌, ◌≤◌, ◌<◌, ◌≡◌, refl, sym, ap, subst, ◌∙◌, arith, Bool, true, false, Option,
  List, [], ◌∷◌, map, leb, length, All, Result, ok, err,
}
use websocket_stt_bench.Common.Float.{Float64}
use websocket_stt_bench.Loadgen.Protocol.{ServerMessage, flush_interval}
use websocket_stt_bench.Loadgen.Verify.{ExpectedConfig}
use websocket_stt_bench.Loadgen.Conformance.{CaseError, interval_below, interval_above, no_partial}
use websocket_stt_bench.Loadgen.Conformance.Cases.{
  Paced, PacedArm, millis, both, start_paced, stream_paced, cadence_session, cadence_intervals,
  cadence_send_for, check_intervals, check_first, cadence_of, times_of, flush_cadence,
}
use websocket_stt_bench.Loadgen.Conformance.Replies.{require}
use websocket_stt_bench.Loadgen.Conformance.Paced.{
  IsStreamed, Returns, start_IsStreamed, paced_loop-Returns,
}

pub require-ok :
    (b : Bool) (e : CaseError) (r : Result (Unit {0}) CaseError)
    → require b e r ≡ ok tt
    → (b ≡ true) × (r ≡ ok tt)
require-ok true e r z = (refl, z)
require-ok false e r z = cc

pub both-ok : (r u : Result (Unit {0}) CaseError) → both r u ≡ ok tt → (r ≡ ok tt) × (u ≡ ok tt)
both-ok (err e) u z = cc
both-ok (ok tt) u z = (refl, z)

-- A response to a flush: the number of the flush, and how late the response was noted.
abbrev pub noted_at : ℕ → ℕ × ℕ → ℕ
noted_at base (n, late) = base + n * millis flush_interval + late

-- No flush is skipped and none is answered twice.
abbrev pub Consecutive : List ℕ → Type 0
Consecutive [] = Unit
Consecutive (n ∷ []) = Unit
Consecutive (n ∷ m ∷ rest) = (m ≡ n + 1) × Consecutive (m ∷ rest)

check_intervals-Consecutive :
    (base : ℕ) (flushes : List (ℕ × ℕ))
    → All (λ x. x.1 < millis 250) flushes
    → check_intervals (map (noted_at base) flushes) ≡ ok tt
    → Consecutive (map (λ x. x.0) flushes)
unfolding check_intervals
check_intervals-Consecutive base [] h e = tt
check_intervals-Consecutive base ((n, j) ∷ []) h e = tt
check_intervals-Consecutive base ((n, j) ∷ (m, k) ∷ rest) (early, later) e =
    let apart = noted_at base (m, k) - noted_at base (n, j) in
    let (low, e') = require-ok (leb (millis (flush_interval - 250)) apart) interval_below _ e in
    let (high, more) = require-ok (leb apart (millis (flush_interval + 500))) interval_above _ e' in
    (
      ground (arith, early, later.0, low, high),
      check_intervals-Consecutive base ((m, k) ∷ rest) later more,
    )

module _ {F T : Type 0} (fl : Float64 F) (from_str : T → Option (ServerMessage F)) where
  -- Whatever the arms: what `stream_paced` returns has at least the partials asked for.
  pub stream_paced-Returns :
      (id : ℕ) (expected : ExpectedConfig) (min started send_for give_up_after : ℕ)
      (turns : List (ℕ × PacedArm T))
      → Returns fl id expected from_str min
          (stream_paced fl from_str id expected min started send_for give_up_after turns)
  unfolding stream_paced
  stream_paced-Returns id expected min started send_for give_up_after turns =
      paced_loop-Returns fl id expected from_str min (started + send_for) (started + give_up_after)
        turns (start_paced id expected started) (start_IsStreamed fl id expected started)

  -- If `flush_cadence` passes a gateway, and the partials that it read were noted less than 250 ms after flushes
  -- that lie one flush interval apart: there were at least 13, they answer consecutive flushes, none skipped and
  -- none answered twice, they tile the frames of the session from the first on, and each is correct
  -- in every field and covers frames that were sent before it was read.
  pub flush_cadence-Consecutive :
      (expected : ExpectedConfig) (started base : ℕ) (turns : List (ℕ × PacedArm T)) (s : Paced F)
      (flushes : List (ℕ × ℕ))
      → stream_paced fl from_str cadence_session expected
          (cadence_intervals + 1)
          started
          cadence_send_for
          (cadence_send_for + millis 4000)
          turns
        ≡ ok s
      → s.partial_times ≡ map (noted_at base) flushes
      → All (λ x. x.1 < millis 250) flushes
      → flush_cadence fl from_str expected started turns ≡ ok tt
      → (13 ≤ length s.heard)
        × Consecutive (map (λ x. x.0) flushes)
        × IsStreamed fl cadence_session expected s
  unfolding flush_cadence
  flush_cadence-Consecutive expected started base turns s flushes read at early e =
      let z = subst (λ ts. cadence_of ts ≡ ok tt) at (sym (ap times_of read) ∙ e) in
      let (streamed, many) =
        subst (Returns fl cadence_session expected from_str (cadence_intervals + 1)) read (
          stream_paced-Returns cadence_session expected (cadence_intervals + 1) started
            cadence_send_for (cadence_send_for + millis 4000) turns) in
      let times = map (noted_at base) flushes in
      let (_, both_ok) = require-ok (leb (cadence_intervals + 1) (length times)) no_partial _ z in
      let (intervals, _) = both-ok (check_intervals times) (check_first times) both_ok in
      (
        omega (arith, many, streamed.times),
        check_intervals-Consecutive base flushes early intervals,
        streamed,
      )
