-- ===== src/Loadgen/Conformance/Golden.antt =====
-- loadgen/rust/src/bin/stt-conformance.rs: what a gateway that passes `multi_frame_golden` has sent.
use websocket_stt_bench.Common.{
  ℕ, ◌+◌, ◌≤◌, ◌≡◌, refl, ap, subst, arith, false, Option, none, some, List, [], ◌∷◌, ◌++◌, map,
  ltb, if_cases, length, All, Result, ok, err,
}
use websocket_stt_bench.Common.Float.{Float64}
use websocket_stt_bench.Loadgen.Protocol.{PartialMessage, Validation, valid, invalid, validate}
use websocket_stt_bench.Loadgen.Verify.{ExpectedConfig, MismatchKind, Continuity, verify_partial}
use websocket_stt_bench.Loadgen.Verify.Coverage.{Tiles, end_of, observe-none_iff, observe-next}
use websocket_stt_bench.Loadgen.Verify.Values.{IsCorrect, verify_partial-nil_iff}
use websocket_stt_bench.Loadgen.Conformance.{
  multi_frame_session, PartialChecker, new_checker, covered, CaseError, values_error, check_error,
  check, read_partials, at_most_two, multi_frame_golden,
}

abbrev number : Result ℕ CaseError → ℕ
number (ok n) = n
number (err e) = 0

at_most_two-ok : (r : Result ℕ CaseError) (n : ℕ) → at_most_two r ≡ ok n → (r ≡ ok n) × (n ≤ 2)
at_most_two-ok (err x) n = λ e. cc e
at_most_two-ok (ok m) n =
    if_cases
      (λ (r : Result ℕ CaseError).
        r ≡ ok n → (◌≡◌ {A = Result ℕ CaseError} (ok m) (ok n)) × (n ≤ 2))
      (ltb 2 m) (λ on e. cc e) (λ off e. (e, ground (arith, off, ap number e)))

values_error-none : (ms : List MismatchKind) → values_error ms ≡ none → ms ≡ []
values_error-none [] e = refl
values_error-none (m ∷ ms) e = cc

module _ {F : Type 0} where
  abbrev pub range_of : PartialMessage F → ℕ × ℕ
  range_of p = (p.oldest_frame_seq, p.newest_frame_seq)

module _ {F : Type 0} (fl : Float64 F) where
  -- What a partial is that the checker lets pass.
  pub record Passed (c : PartialChecker) (p : PartialMessage F) (sent : ℕ)
      (gap : Option MismatchKind) : Type 0 where
    pub next : gap ≡ none
    pub known : p.newest_frame_seq ≤ sent
    pub correct : IsCorrect fl c.session_id p c.expected

  pub check_error-Passed :
      (v : Validation) (gap : Option MismatchKind) (c : PartialChecker) (p : PartialMessage F)
      (sent : ℕ)
      → check_error fl v gap c p sent ≡ none
      → Passed c p sent gap
  check_error-Passed (invalid x) gap c p sent e = cc
  check_error-Passed valid (some m) c p sent e = cc
  check_error-Passed valid none c p sent e =
      if_cases (λ (o : Option CaseError). o ≡ none → Passed c p sent none)
        (ltb sent p.newest_frame_seq) (λ on z. cc z)
        (λ off z. record {
          next = refl;
          known = ground (arith, off);
          correct =
              (verify_partial-nil_iff fl c.session_id p c.expected).0
                (values_error-none (verify_partial fl c.session_id p c.expected) z);
        })
        e

  -- The partials that the loop read: they tile the frames from the one behind `last` to number 50.
  record Read (id : ℕ) (expected : ExpectedConfig) (last partials n : ℕ)
      (ps : List (PartialMessage F)) : Type 0 where
    taken : List (PartialMessage F)
    left : List (PartialMessage F)
    split : ps ≡ taken ++ left
    count : n ≡ partials + length taken
    tiles : Tiles last (map range_of taken)
    end : end_of last (map range_of taken) ≡ 50
    correct : All (λ p. IsCorrect fl id p expected) taken

  checked-Read :
      (c : PartialChecker) (p : PartialMessage F) (rest : List (PartialMessage F)) (partials n : ℕ)
      (o : Option CaseError)
      → (check fl c p 50).1 ≡ o
      → ((check fl c p 50).0.continuity.last_newest ≤ 50
          → read_partials fl rest (check fl c p 50).0 (partials + 1) ≡ ok n
          → Read c.session_id c.expected (covered (check fl c p 50).0) (partials + 1) n rest)
      → elim o [ none ↦ read_partials fl rest (check fl c p 50).0 (partials + 1) | some x ↦ err x ]
        ≡ ok n
      → Read c.session_id c.expected (covered c) partials n (p ∷ rest)
  unfolding check
  checked-Read c p rest partials n (some x) e ih r = cc
  checked-Read c p rest partials n none e ih r =
      let passed = check_error-Passed (validate fl p) _ c p 50 e in
      let (start, ordered) =
        (observe-none_iff c.continuity p.oldest_frame_seq p.newest_frame_seq).0 passed.next in
      let here =
        ap (λ (x : Continuity × Option MismatchKind). x.0.last_newest)
          (observe-next c.continuity p.oldest_frame_seq p.newest_frame_seq start ordered) in
      let more = ih (omega (arith, here, passed.known)) r in
      record {
        taken = p ∷ more.taken;
        left = more.left;
        split = ap (◌∷◌ p) more.split;
        count = omega (arith, more.count);
        tiles = (start, ordered, subst (λ k. Tiles k (map range_of more.taken)) here more.tiles);
        end = subst (λ k. end_of k (map range_of more.taken) ≡ 50) here more.end;
        correct = (passed.correct, more.correct);
      }

  ended-Read :
      (c : PartialChecker) (ps : List (PartialMessage F)) (partials n : ℕ)
      → covered c ≤ 50
      → ltb (covered c) 50 ≡ false
      → ◌≡◌ {A = Result ℕ CaseError} (ok partials) (ok n)
      → Read c.session_id c.expected (covered c) partials n ps
  ended-Read c ps partials n h done r = record {
    taken = [];
    left = ps;
    split = refl;
    count = omega (arith, ap number r);
    tiles = tt;
    end = ground (arith, h, done);
    correct = tt;
  }

  read_partials-Read :
      (ps : List (PartialMessage F)) (c : PartialChecker) (partials n : ℕ)
      → covered c ≤ 50
      → read_partials fl ps c partials ≡ ok n
      → Read c.session_id c.expected (covered c) partials n ps
  unfolding read_partials
  read_partials-Read [] c partials n h =
      if_cases (λ r. r ≡ ok n → Read c.session_id c.expected (covered c) partials n [])
        (ltb (covered c) 50) (λ on r. cc r) (λ off r. ended-Read c [] partials n h off r)
  read_partials-Read (p ∷ rest) c partials n h =
      if_cases (λ r. r ≡ ok n → Read c.session_id c.expected (covered c) partials n (p ∷ rest))
        (ltb (covered c) 50)
        (λ on r.
          checked-Read c p rest partials n (check fl c p 50).1 refl
            (λ b. read_partials-Read rest (check fl c p 50).0 (partials + 1) n b) r)
        (λ off r. ended-Read c (p ∷ rest) partials n h off r)

  -- A gateway passes the case of the burst of 50 frames only if the partials that were read of it, at most
  -- two, tile the frames 1 to 50 and each is correct in every field, as a partial of this session
  -- with the expected settings.
  pub multi_frame_golden-Tiles :
      (expected : ExpectedConfig) (ps : List (PartialMessage F)) (n : ℕ)
      → multi_frame_golden fl expected ps ≡ ok n
      → (taken : List (PartialMessage F)) × (left : List (PartialMessage F)) × (ps ≡ taken ++ left)
        × (n ≡ length taken)
        × (n ≤ 2)
        × Tiles 0 (map range_of taken)
        × (end_of 0 (map range_of taken) ≡ 50)
        × All (λ p. IsCorrect fl multi_frame_session p expected) taken
  unfolding multi_frame_golden
  multi_frame_golden-Tiles expected ps n e =
      let (r, few) =
        at_most_two-ok (read_partials fl ps (new_checker multi_frame_session expected) 0) n e in
      let v =
        read_partials-Read ps (new_checker multi_frame_session expected) 0 n (omega arith) r in
      (v.taken, v.left, v.split, omega (arith, v.count), few, v.tiles, v.end, v.correct)
