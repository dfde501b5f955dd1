-- ===== src/Loadgen/Driver/Receive/Steps.antt =====
-- loadgen/rust/src/main.rs: a message that is handled without a fault is right.
use mathlib.Core.Bool.{true≢false}
use websocket_stt_bench.Common.{
  ℕ, ◌-◌, ◌%◌, ◌≤◌, ◌≡◌, ◌≢◌, inl, inr, refl, sym, ap, ◌∙◌, arith, Bool, true, false, not, ◌&&◌,
  Option, none, some, List, [], ◌∷◌, ◌++◌, ltb, ◌==◌, if◌then◌else◌, if_cases, length, get_elem?,
  Bool-cases,
}
use websocket_stt_bench.Common.Float.{Float64}
use websocket_stt_bench.Loadgen.Protocol.{
  PartialMessage, ErrorMessage, ServerMessage, partial, error, Validation, valid, invalid, validate,
}
use websocket_stt_bench.Loadgen.Verify.{
  MismatchKind, ExpectedConfig, invalid_partial, unsent_frame, Continuity, observe, verify_partial,
}
use websocket_stt_bench.Loadgen.Verify.Coverage.{to_list}
use websocket_stt_bench.Loadgen.Driver.Receive.{
  World, SessionCheck, Handled, Session, open_session, session_error, measured, on_error,
  select_partial, sample_for, after_sample, on_measured, after_validate, on_partial, on_decoded,
}
use websocket_stt_bench.Loadgen.Driver.Receive.Faults.{
  wrong, wrong_nil, faults, settings, with_errors-faults, with_errors-settings,
  submit_verify-faults, submit_verify-settings,
}

module _ {F : Type 0} (fl : Float64 F) where
  -- The state after a partial: no fault is taken back, and without a fault nothing was found inline, and
  -- the values are right if every partial is verified.
  record SoundWorld (s : Session) (w : World F) (p : PartialMessage F) (inline : List MismatchKind)
      (u : World F) : Type 0 where
    mono : faults fl w ≤ faults fl u
    same : settings fl u ≡ settings fl w
    good :
        faults fl u ≡ 0
        → (inline ≡ [])
          × (w.correctness.verify_every ≡ 1 → verify_partial fl s.id p w.correctness.expected ≡ [])

  record Sound (s : Session) (w : World F) (p : PartialMessage F) (gap : List MismatchKind)
      (sent : ℕ) (now : ℕ) (h : Handled F) : Type 0 where
    mono : faults fl w ≤ faults fl h.world
    same : settings fl h.world ≡ settings fl w
    good :
        h.state ≡ open_session
        → measured s now ≡ true
        → faults fl h.world ≡ 0
        → (gap ≡ [])
          × (p.newest_frame_seq ≤ sent)
          × (validate fl p ≡ valid)
          × (w.correctness.verify_every ≡ 1 → verify_partial fl s.id p w.correctness.expected ≡ [])

  chosen :
      (unsent : Bool) (inline : List MismatchKind) (n m : ℕ)
      → (unsent ≡ true → inline ≢ [])
      → inline ≡ []
      → n ≡ 1
      → (not unsent && ltb 0 n && m % n == 0) ≡ true
  chosen true inline n m h e v = absurd (h refl e)
  chosen false inline n m h e v = ground (arith, v)

  select_partial-SoundWorld :
      (s : Session) (w : World F) (check : SessionCheck) (p : PartialMessage F) (unsent : Bool)
      (inline : List MismatchKind)
      → (unsent ≡ true → inline ≢ [])
      → SoundWorld s w p inline (select_partial fl s w check p unsent inline).world
  unfolding select_partial
  select_partial-SoundWorld s w check p unsent inline h =
      if_cases (SoundWorld s w p inline)
        (not unsent
          && ltb 0 w.correctness.verify_every
          && check.measured_partials % w.correctness.verify_every == 0)
        (λ yes.
          let queued =
            submit_verify-faults fl w
              (record { session_id = s.id; response = p; inline = inline }) in
          record {
            mono = omega (arith, queued.0);
            same =
                submit_verify-settings fl w
                  (record { session_id = s.id; response = p; inline = inline });
            good = λ z. (wrong_nil inline (omega (arith, queued.0, z)), λ v. queued.1 z);
          })
        (λ off.
          let counted =
            with_errors-faults fl w s.id "partial" p.oldest_frame_seq p.newest_frame_seq inline in
          record {
            mono = omega (arith, counted);
            same =
                with_errors-settings fl w s.id "partial" p.oldest_frame_seq p.newest_frame_seq
                  inline;
            good = λ z.
                let e = wrong_nil inline (omega (arith, counted, z)) in
                (
                  e,
                  λ v. absurd (
                      true≢false (
                        sym (
                          chosen unsent inline w.correctness.verify_every check.measured_partials h
                            e v)
                        ∙ off)),
                );
          })

  gap_nil : (gap ms : List MismatchKind) → gap ++ ms ≡ [] → gap ≡ []
  gap_nil [] ms e = refl
  gap_nil (m ∷ gap) ms e = cc

  found-unsent :
      (gap : List MismatchKind) (b : Bool)
      → b ≡ true
      → gap ++ (if b then unsent_frame ∷ [] else []) ≢ []
  found-unsent [] true e = λ h. cc
  found-unsent (m ∷ gap) b e = λ h. cc
  found-unsent [] false e = λ h. cc

  not_unsent :
      (gap : List MismatchKind) (b : Bool)
      → gap ++ (if b then unsent_frame ∷ [] else []) ≡ []
      → b ≡ false
  not_unsent gap false e = refl
  not_unsent gap true e = absurd (found-unsent gap true refl e)

  -- The sample is sent or not; the partial is then selected or not.
  select_partial-Sound :
      (s : Session) (w u : World F) (check : SessionCheck) (p : PartialMessage F)
      (gap : List MismatchKind) (sent now : ℕ)
      → validate fl p ≡ valid
      → faults fl u ≡ faults fl w
      → settings fl u ≡ settings fl w
      → let unsent = ltb sent p.newest_frame_seq in
        Sound s w p gap sent now
          (select_partial fl s u check p unsent (gap ++ (if unsent then unsent_frame ∷ [] else [])))
  select_partial-Sound s w u check p gap sent now ok_ ef es =
      let unsent = ltb sent p.newest_frame_seq in
      let inline = gap ++ (if unsent then unsent_frame ∷ [] else []) in
      let v = select_partial-SoundWorld s u check p unsent inline (found-unsent gap unsent) in
      record {
        mono = omega (arith, v.mono, ef);
        same = v.same ∙ es;
        good = λ o m z. (
          gap_nil gap _ (v.good z).0,
          ground (arith, not_unsent gap unsent (v.good z).0),
          ok_,
          λ every.
              ap (verify_partial fl s.id p) (sym (ap (λ (x : ExpectedConfig × ℕ). x.0) es))
              ∙ (v.good z).1 (ap (λ (x : ExpectedConfig × ℕ). x.1) es ∙ every),
        );
      }

  -- A session that fails for want of a receiver claims nothing.
  stopped-Sound :
      (s : Session) (w : World F) (check : SessionCheck) (p : PartialMessage F)
      (gap : List MismatchKind) (sent now : ℕ)
      → Sound s w p gap sent now (record { world = w; check = check; state = session_error })
  stopped-Sound s w check p gap sent now = record {
    mono = omega arith;
    same = refl;
    good = λ o. cc;
  }

  after_sample-Sound :
      (newest oldest : Option ℕ) (s : Session) (w : World F) (check : SessionCheck)
      (p : PartialMessage F) (gap : List MismatchKind) (sent now : ℕ) (can_sample : Bool)
      → validate fl p ≡ valid
      → let unsent = ltb sent p.newest_frame_seq in
        Sound s w p gap sent now (
          after_sample fl newest oldest s w check p unsent
            (gap ++ (if unsent then unsent_frame ∷ [] else []))
            now
            can_sample)
  after_sample-Sound (some newest) (some oldest) s w check p gap sent now can_sample ok_ =
      if_cases (Sound s w p gap sent now) can_sample
        (λ h.
          select_partial-Sound s w
            (record w { samples = w.samples ++ sample_for fl s p now newest oldest ∷ [] }) check p
            gap sent now ok_ refl refl)
        (λ h. stopped-Sound s w check p gap sent now)
  after_sample-Sound none oldest s w check p gap sent now can_sample ok_ =
      select_partial-Sound s w w check p gap sent now ok_ refl refl
  after_sample-Sound (some newest) none s w check p gap sent now can_sample ok_ =
      select_partial-Sound s w w check p gap sent now ok_ refl refl

  invalid_found : (gap : List MismatchKind) → wrong (gap ++ invalid_partial ∷ []) ≡ 1
  invalid_found [] = refl
  invalid_found (m ∷ gap) = refl

  after_validate-Sound :
      (r : Validation) (s : Session) (w : World F) (check : SessionCheck) (p : PartialMessage F)
      (gap : List MismatchKind) (sent_times : List ℕ) (now : ℕ) (can_sample : Bool)
      → validate fl p ≡ r
      → Sound s w p gap
          (length sent_times)
          now
          (after_validate fl r s w check p gap sent_times now can_sample)
  unfolding on_measured
  after_validate-Sound (invalid x) s w check p gap sent_times now can_sample e =
      let counted =
        with_errors-faults fl w s.id "partial" p.oldest_frame_seq p.newest_frame_seq
          (gap ++ invalid_partial ∷ []) in
      record {
        mono = omega (arith, counted);
        same =
            with_errors-settings fl w s.id "partial" p.oldest_frame_seq p.newest_frame_seq
              (gap ++ invalid_partial ∷ []);
        good = λ o m z. absurd (omega (arith, counted, invalid_found gap, z));
      }
  after_validate-Sound valid s w check p gap sent_times now can_sample e =
      if_cases (Sound s w p gap (length sent_times) now) (measured s now)
        (λ h.
          after_sample-Sound (get_elem? sent_times (p.newest_frame_seq - 1))
            (get_elem? sent_times (p.oldest_frame_seq - 1)) s w check p gap (length sent_times) now
            can_sample e)
        (λ off. record {
          mono = omega arith;
          same = refl;
          good = λ o m z. absurd (true≢false (sym m ∙ off));
        })

  to_list_nil : (o : Option MismatchKind) → to_list o ≡ [] → o ≡ none
  to_list_nil none e = refl
  to_list_nil (some k) e = cc

  -- What a response must be where it is handled: it continues the session's highest frame, and a partial
  -- is valid, about frames that were sent, and right in every value if every partial is verified.
  abbrev pub RightValues : Session → World F → ℕ → ServerMessage F → Type 0
  RightValues s w sent (error e) = Unit
  RightValues s w sent (partial p) =
      (p.newest_frame_seq ≤ sent)
      × (validate fl p ≡ valid)
      × (w.correctness.verify_every ≡ 1 → verify_partial fl s.id p w.correctness.expected ≡ [])

  abbrev pub gap_of : SessionCheck → ServerMessage F → Option MismatchKind
  gap_of check (error e) = (observe check.continuity e.oldest_frame_seq e.newest_frame_seq).1
  gap_of check (partial p) = (observe check.continuity p.oldest_frame_seq p.newest_frame_seq).1

  abbrev pub next_tracker : SessionCheck → ServerMessage F → Continuity
  next_tracker check (error e) = (observe check.continuity e.oldest_frame_seq e.newest_frame_seq).0
  next_tracker check (partial p) =
      (observe check.continuity p.oldest_frame_seq p.newest_frame_seq).0

  pub record Step (s : Session) (w : World F) (check : SessionCheck) (m : ServerMessage F)
      (sent now : ℕ) (h : Handled F) : Type 0 where
    pub mono : faults fl w ≤ faults fl h.world
    pub same : settings fl h.world ≡ settings fl w
    pub good :
        h.state ≡ open_session
        → measured s now ≡ true
        → faults fl h.world ≡ 0
        → (gap_of check m ≡ none) × RightValues s w sent m

  on_error-Step :
      (s : Session) (w : World F) (check : SessionCheck) (e : ErrorMessage F) (sent now : ℕ)
      → Step s w check (error e) sent now (on_error s w check e now)
  unfolding on_error
  on_error-Step s w check e sent now =
      let gap = to_list (observe check.continuity e.oldest_frame_seq e.newest_frame_seq).1 in
      let counted =
        with_errors-faults fl w s.id "error" e.oldest_frame_seq e.newest_frame_seq gap in
      elim (Bool-cases (measured s now)) [
        | inl on ↦ record {
          mono = rw on (omega (arith, counted));
          same =
              rw on
                (with_errors-settings fl w s.id "error" e.oldest_frame_seq e.newest_frame_seq gap);
          good = rw on (λ o m z. (to_list_nil _ (wrong_nil gap (omega (arith, counted, z))), tt));
        }
        | inr off ↦ record {
          mono = rw off (omega arith);
          same = rw off refl;
          good = λ o m z. absurd (true≢false (sym m ∙ off));
        }
      ]

  on_partial-Step :
      (s : Session) (w : World F) (check : SessionCheck) (p : PartialMessage F)
      (sent_times : List ℕ) (now : ℕ) (can_sample : Bool)
      → Step s w check
          (partial p)
          (length sent_times)
          now
          (on_partial fl s w check p sent_times now can_sample)
  unfolding on_partial
  on_partial-Step s w check p sent_times now can_sample =
      let (tracker, gap) = observe check.continuity p.oldest_frame_seq p.newest_frame_seq in
      let v =
        after_validate-Sound (validate fl p) s w (record check { continuity = tracker }) p
          (to_list gap) sent_times now can_sample refl in
      record {
        mono = v.mono;
        same = v.same;
        good = λ o m z. (
          to_list_nil gap (v.good o m z).0,
          ((v.good o m z).1, (v.good o m z).2, (v.good o m z).3),
        );
      }

  pub on_decoded-Step :
      (m : ServerMessage F) (s : Session) (w : World F) (check : SessionCheck) (sent_times : List ℕ)
      (now : ℕ) (can_sample : Bool)
      → Step s w check m
          (length sent_times)
          now
          (on_decoded fl (some m) s w check sent_times now can_sample)
  on_decoded-Step (error e) s w check sent_times now can_sample =
      on_error-Step s w check e (length sent_times) now
  on_decoded-Step (partial p) s w check sent_times now can_sample =
      on_partial-Step s w check p sent_times now can_sample
