-- ===== src/Loadgen/Driver/Task/Effects.antt =====
-- loadgen/rust/src/main.rs: what the handling of a response does to the tracker of its session.
use websocket_stt_bench.Common.{
  ℕ, ◌-◌, ◌≡◌, ◌≢◌, refl, Bool, not, ◌&&◌, Option, none, some, List, ltb, if_cases, get_elem?,
}
use websocket_stt_bench.Common.Float.{Float64}
use websocket_stt_bench.Loadgen.Protocol.{
  PartialMessage, ServerMessage, partial, error, Validation, valid, invalid, validate,
}
use websocket_stt_bench.Loadgen.Verify.{MismatchKind, Continuity, observe}
use websocket_stt_bench.Loadgen.Driver.Receive.{
  World, SessionCheck, Session, closed_session, measured, on_error, select_partial, after_sample,
  on_measured, after_validate, on_partial, on_decoded, Handled,
}

module _ {F : Type 0} where
  abbrev pub oldest_of : ServerMessage F → ℕ
  oldest_of (partial p) = p.oldest_frame_seq
  oldest_of (error e) = e.oldest_frame_seq

  abbrev pub newest_of : ServerMessage F → ℕ
  newest_of (partial p) = p.newest_frame_seq
  newest_of (error e) = e.newest_frame_seq

  abbrev pub range_of : Bool × ServerMessage F → ℕ × ℕ
  range_of (b, m) = (oldest_of m, newest_of m)

  abbrev pub moved : Continuity → ServerMessage F → Continuity
  moved c m = (observe c (oldest_of m) (newest_of m)).0

module _ {F : Type 0} (fl : Float64 F) (s : Session) where
  select_partial-continuity :
      (w : World F) (check : SessionCheck) (p : PartialMessage F) (unsent : Bool)
      (inline : List MismatchKind)
      → (select_partial fl s w check p unsent inline).check.continuity ≡ check.continuity
  unfolding select_partial
  select_partial-continuity w check p unsent inline =
      if_cases (λ (k : SessionCheck). k.continuity ≡ check.continuity)
        (not unsent && ltb 0 w.correctness.verify_every) (λ on. refl) (λ off. refl)

  after_sample-continuity :
      (newest oldest : Option ℕ) (w : World F) (check : SessionCheck) (p : PartialMessage F)
      (unsent : Bool) (inline : List MismatchKind) (now : ℕ) (can_sample : Bool)
      → (after_sample fl newest oldest s w check p unsent inline now can_sample).check.continuity
        ≡ check.continuity
  after_sample-continuity (some n) (some o) w check p unsent inline now can_sample =
      if_cases (λ (h : Handled F). h.check.continuity ≡ check.continuity) can_sample
        (λ on. select_partial-continuity _ check p unsent inline) (λ off. refl)
  after_sample-continuity none o w check p unsent inline now can_sample =
      select_partial-continuity w check p unsent inline
  after_sample-continuity (some n) none w check p unsent inline now can_sample =
      select_partial-continuity w check p unsent inline

  after_validate-continuity :
      (r : Validation) (w : World F) (check : SessionCheck) (p : PartialMessage F)
      (gap : List MismatchKind) (sent_times : List ℕ) (now : ℕ) (can_sample : Bool)
      → (after_validate fl r s w check p gap sent_times now can_sample).check.continuity
        ≡ check.continuity
  unfolding on_measured
  after_validate-continuity (invalid x) w check p gap sent_times now can_sample = refl
  after_validate-continuity valid w check p gap sent_times now can_sample =
      if_cases (λ (h : Handled F). h.check.continuity ≡ check.continuity) (measured s now)
        (λ on.
          after_sample-continuity (get_elem? sent_times (p.newest_frame_seq - 1))
            (get_elem? sent_times (p.oldest_frame_seq - 1)) w check p _ _ now can_sample)
        (λ off. refl)

  -- A response moves the tracker by its range, whatever else is found.
  pub on_decoded-continuity :
      (m : ServerMessage F) (w : World F) (check : SessionCheck) (sent_times : List ℕ) (now : ℕ)
      (can_sample : Bool)
      → (on_decoded fl (some m) s w check sent_times now can_sample).check.continuity
        ≡ moved check.continuity m
  unfolding on_error on_partial
  on_decoded-continuity (error e) w check sent_times now can_sample = refl
  on_decoded-continuity (partial p) w check sent_times now can_sample =
      after_validate-continuity (validate fl p) w _ p _ sent_times now can_sample

  -- A response never ends its session well.
  abbrev NotClosed : Handled F → Type 0
  NotClosed h = h.state ≢ closed_session

  after_sample-NotClosed :
      (newest oldest : Option ℕ) (w : World F) (check : SessionCheck) (p : PartialMessage F)
      (unsent : Bool) (inline : List MismatchKind) (now : ℕ) (can_sample : Bool)
      → NotClosed (after_sample fl newest oldest s w check p unsent inline now can_sample)
  unfolding select_partial
  after_sample-NotClosed (some n) (some o) w check p unsent inline now can_sample =
      if_cases NotClosed can_sample (λ on e. cc e) (λ off e. cc e)
  after_sample-NotClosed none o w check p unsent inline now can_sample = λ e. cc e
  after_sample-NotClosed (some n) none w check p unsent inline now can_sample = λ e. cc e

  after_validate-NotClosed :
      (r : Validation) (w : World F) (check : SessionCheck) (p : PartialMessage F)
      (gap : List MismatchKind) (sent_times : List ℕ) (now : ℕ) (can_sample : Bool)
      → NotClosed (after_validate fl r s w check p gap sent_times now can_sample)
  unfolding on_measured
  after_validate-NotClosed (invalid x) w check p gap sent_times now can_sample = λ e. cc e
  after_validate-NotClosed valid w check p gap sent_times now can_sample =
      if_cases NotClosed (measured s now)
        (λ on.
          after_sample-NotClosed (get_elem? sent_times (p.newest_frame_seq - 1))
            (get_elem? sent_times (p.oldest_frame_seq - 1)) w check p _ _ now can_sample)
        (λ off e. cc e)

  pub on_decoded-NotClosed :
      (o : Option (ServerMessage F)) (w : World F) (check : SessionCheck) (sent_times : List ℕ)
      (now : ℕ) (can_sample : Bool)
      → (on_decoded fl o s w check sent_times now can_sample).state ≢ closed_session
  unfolding on_error on_partial
  on_decoded-NotClosed none w check sent_times now can_sample = λ e. cc e
  on_decoded-NotClosed (some (error x)) w check sent_times now can_sample = λ e. cc e
  on_decoded-NotClosed (some (partial p)) w check sent_times now can_sample =
      after_validate-NotClosed (validate fl p) w _ p _ sent_times now can_sample
