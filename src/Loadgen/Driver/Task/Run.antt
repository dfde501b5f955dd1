-- ===== src/Loadgen/Driver/Task/Run.antt =====
-- loadgen/rust/src/main.rs: what one message adds to what a session has heard.
use websocket_stt_bench.Common.{
  ℕ, ◌+◌, ◌≤◌, ◌≡◌, ◌≢◌, refl, sym, ap, subst, ◌∙◌, arith, Bool, true, Option, none, some, List, [],
  ◌∷◌, ◌++◌, length,
}
use websocket_stt_bench.Common.Float.{Float64}
use websocket_stt_bench.Loadgen.Protocol.{ServerMessage, partial, error, valid, validate}
use websocket_stt_bench.Loadgen.Verify.{
  ExpectedConfig, Continuity, continuity_start, observe, verify_partial,
}
use websocket_stt_bench.Loadgen.Verify.Coverage.{observe-none_iff}
use websocket_stt_bench.Loadgen.Verify.Values.{IsCorrect, verify_partial-nil_iff}
use websocket_stt_bench.Loadgen.Driver.Receive.{
  World, SessionCheck, Session, Arrival, Inbound, text_message, InboundState, open_session,
  closed_session, session_error, measured, process_inbound,
}
use websocket_stt_bench.Loadgen.Driver.Receive.Faults.{faults, settings}
use websocket_stt_bench.Loadgen.Driver.Receive.Steps.{RightValues, gap_of}
use websocket_stt_bench.Loadgen.Driver.System.Verdict.{
  Grows, process_inbound-Grows, process_inbound-Right,
}
use websocket_stt_bench.Loadgen.Driver.Task.{Task, handled, received, hear, heard_text}
use websocket_stt_bench.Loadgen.Driver.Task.Effects.{
  oldest_of, newest_of, moved, on_decoded-continuity, on_decoded-NotClosed,
}

module _ {F : Type 0} (fl : Float64 F) (s : Session) (expected : ExpectedConfig) where
  abbrev pub Correct : ServerMessage F → Type 0
  Correct (error e) = Unit
  Correct (partial p) = (validate fl p ≡ valid) × IsCorrect fl s.id p expected

  -- A response continues the highest frame reported before it, and is correct.
  abbrev pub Continues : Continuity → ServerMessage F → Type 0
  Continues c m = (oldest_of m ≡ c.last_newest + 1) × (oldest_of m ≤ newest_of m) × Correct m

  -- Each response of the measured window continues those before it.
  abbrev pub Linked : Continuity → List (Bool × ServerMessage F) → Type 0
  Linked c [] = Unit
  Linked c ((b, m) ∷ rest) = (b ≡ true → Continues c m) × Linked (moved c m) rest

  abbrev pub moved_all : Continuity → List (Bool × ServerMessage F) → Continuity
  moved_all c [] = c
  moved_all c ((b, m) ∷ rest) = moved_all (moved c m) rest

  Linked-snoc :
      (c : Continuity) (ms : List (Bool × ServerMessage F)) (b : Bool) (m : ServerMessage F)
      → Linked c ms
      → (b ≡ true → Continues (moved_all c ms) m)
      → Linked c (ms ++ (b, m) ∷ [])
  Linked-snoc c [] b m l h = (h, tt)
  Linked-snoc c ((b', m') ∷ ms) b m l h = (l.0, Linked-snoc (moved c m') ms b m l.1 h)

  moved_all-snoc :
      (c : Continuity) (ms : List (Bool × ServerMessage F)) (b : Bool) (m : ServerMessage F)
      → moved_all c (ms ++ (b, m) ∷ []) ≡ moved (moved_all c ms) m
  moved_all-snoc c [] b m = refl
  moved_all-snoc c ((b', m') ∷ ms) b m = moved_all-snoc (moved c m') ms b m

  pub record Tracked (t : Task F) : Type 0 where
    pub linked : Linked continuity_start t.heard
    pub tracker : t.check.continuity ≡ moved_all continuity_start t.heard

  gap_of_range :
      (check : SessionCheck) (m : ServerMessage F)
      → gap_of fl check m ≡ (observe check.continuity (oldest_of m) (newest_of m)).1
  gap_of_range check (error e) = refl
  gap_of_range check (partial p) = refl

  right-Correct :
      (w : World F) (sent : ℕ) (m : ServerMessage F)
      → settings fl w ≡ (expected, 1)
      → RightValues fl s w sent m
      → Correct m
  right-Correct w sent (error e) same v = tt
  right-Correct w sent (partial p) same v = (
    v.1,
    (verify_partial-nil_iff fl s.id p expected).0 (
        ap (verify_partial fl s.id p) (sym (ap (λ (x : ExpectedConfig × ℕ). x.0) same))
        ∙ v.2 (ap (λ (x : ExpectedConfig × ℕ). x.1) same)),
  )

  right-Continues :
      (w : World F) (check : SessionCheck) (sent : ℕ) (m : ServerMessage F)
      → settings fl w ≡ (expected, 1)
      → (gap_of fl check m ≡ none) × RightValues fl s w sent m
      → Continues check.continuity m
  right-Continues w check sent m same v =
      let (next, ordered) =
        (observe-none_iff check.continuity (oldest_of m) (newest_of m)).0
          (sym (gap_of_range check m) ∙ v.0) in
      (next, ordered, right-Correct w sent m same v.1)

module _ {F T : Type 0} (fl : Float64 F) (from_str : T → Option (ServerMessage F)) (s : Session)
    (expected : ExpectedConfig) where
  -- A step takes no fault back, and without a fault the tracking goes on.
  pub record Keeps (t u : Task F) : Type 0 where
    pub grows : Grows fl from_str t.world u.world
    pub tracked :
        faults fl u.world ≡ 0
        → settings fl t.world ≡ (expected, 1)
        → Tracked fl s expected t
        → Tracked fl s expected u

  pub Keeps-trans : {t u v : Task F} → Keeps t u → Keeps u v → Keeps t v
  Keeps-trans k l = record {
    grows = record {
      mono = omega (arith, k.grows.mono, l.grows.mono);
      same = l.grows.same ∙ k.grows.same;
    };
    tracked =
        λ z e v. l.tracked z (k.grows.same ∙ e) (k.tracked (omega (arith, z, l.grows.mono)) e v);
  }

  text-Tracked :
      (t : Task F) (a : Arrival T) (x : T) (o : Option (ServerMessage F))
      → a.message ≡ text_message x
      → from_str x ≡ o
      → let h = handled fl from_str s t a in
        h.state ≡ open_session
        → faults fl h.world ≡ 0
        → settings fl t.world ≡ (expected, 1)
        → Tracked fl s expected t
        → Tracked fl s expected (record t {
          world = h.world;
          check = h.check;
          heard = heard_text from_str o (measured s a.now) t.heard;
        })
  unfolding handled process_inbound
  text-Tracked t a x none e parsed goes_on clean same v = record {
    linked = v.linked;
    tracker = rw e (rw parsed v.tracker);
  }
  text-Tracked t a x (some m) e parsed goes_on clean same v = record {
    linked =
        Linked-snoc fl s expected continuity_start t.heard (measured s a.now) m v.linked (λ inside.
          subst (λ c. Continues fl s expected c m) v.tracker
            (right-Continues fl s expected t.world t.check (length t.sender.sent_times) m same (
              process_inbound-Right fl from_str s t.world t.check t.sender.sent_times a x m e parsed
                inside goes_on clean)));
    tracker =
        rw e (
          rw parsed
            (on_decoded-continuity fl s m t.world t.check t.sender.sent_times a.now a.can_sample))
        ∙ ap (λ c. moved c m) v.tracker
        ∙ sym (moved_all-snoc fl s expected continuity_start t.heard (measured s a.now) m);
  }

  -- The same for a message that does not fail its session.
  abbrev pub Runs : InboundState → Type 0
  Runs open_session = Unit
  Runs closed_session = Unit
  Runs session_error = ⊥

  open_of : (st : InboundState) → Runs st → st ≢ closed_session → st ≡ open_session
  open_of open_session r h = refl
  open_of closed_session r h = absurd (h refl)
  open_of session_error r h = absurd r

  pub received-Keeps :
      (t : Task F) (a : Arrival T)
      → Runs (handled fl from_str s t a).state
      → Keeps t (received fl from_str s t a (handled fl from_str s t a))
  unfolding handled process_inbound
  received-Keeps t a runs = record {
    grows = process_inbound-Grows fl from_str s t.world t.check t.sender.sent_times a;
    tracked = by_message a.message refl;
  }
    where
      by_message :
          (m : Inbound T)
          → a.message ≡ m
          → faults fl (handled fl from_str s t a).world ≡ 0
          → settings fl t.world ≡ (expected, 1)
          → Tracked fl s expected t
          → Tracked fl s expected (record t {
            world = (handled fl from_str s t a).world;
            check = (handled fl from_str s t a).check;
            heard = hear from_str m (measured s a.now) t.heard;
          })
      by_message (text_message x) e clean same v =
          text-Tracked t a x (from_str x) e refl
            (open_of (handled fl from_str s t a).state runs (
              rw e (
                on_decoded-NotClosed fl s (from_str x) t.world t.check t.sender.sent_times a.now
                  a.can_sample)))
            clean same v
      by_message _ e clean same v = record { linked = v.linked; tracker = rw e v.tracker }
