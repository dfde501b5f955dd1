-- ===== src/Loadgen/Driver/Correctness/Counting.antt =====
-- loadgen/rust/src/main.rs: what the counters of `Correctness` hold after any records.
use websocket_stt_bench.Common.{
  ℕ, ◌+◌, ◌≡◌, min, refl, arith, String, List, [], ◌∷◌, ◌++◌, ltb, if◌then◌else◌, if_cases, length,
  length-append,
}
use websocket_stt_bench.Common.Counts.{bump, hit, count_of, total, count_of-bump, total-bump}
use websocket_stt_bench.Loadgen.Verify.{ExpectedConfig, MismatchKind}
use websocket_stt_bench.Loadgen.Driver.Correctness.{
  kind_keys, Correctness, new_correctness, bump_all, record_mismatches,
}

-- The arguments of one call of `Correctness::record`.
pub record Recording : Type 0 where
  pub session_id : ℕ
  pub message_type : String
  pub oldest : ℕ
  pub newest : ℕ
  pub mismatches : List MismatchKind

unfoldable pub record_all : Correctness → List Recording → Correctness
unfolding record_mismatches
record_all c [] = c
record_all c (r ∷ rest) =
    record_all (record_mismatches c r.session_id r.message_type r.oldest r.newest r.mismatches) rest

-- How often a kind stands in a list, and in the records.
abbrev pub times : MismatchKind → List MismatchKind → ℕ
times k [] = 0
times k (j ∷ ms) = hit k j + times k ms

abbrev pub times_in : MismatchKind → List Recording → ℕ
times_in k [] = 0
times_in k (r ∷ rest) = times k r.mismatches + times_in k rest

abbrev pub mismatches_in : List Recording → ℕ
mismatches_in [] = 0
mismatches_in (r ∷ rest) = length r.mismatches + mismatches_in rest

-- A response is wrong once, however many mismatches it has.
abbrev pub wrong_one : List MismatchKind → ℕ
wrong_one [] = 0
wrong_one (m ∷ ms) = 1

abbrev pub wrong_in : List Recording → ℕ
wrong_in [] = 0
wrong_in (r ∷ rest) = wrong_one r.mismatches + wrong_in rest

bump_all-count_of :
    (k : MismatchKind) (ms : List MismatchKind) (m : List (MismatchKind × ℕ))
    → count_of k (bump_all ms m) ≡ count_of k m + times k ms
bump_all-count_of k [] m = omega arith
bump_all-count_of k (j ∷ ms) m =
    omega (arith, bump_all-count_of k ms (bump j m), count_of-bump k j m)

bump_all-total :
    (ms : List MismatchKind) (m : List (MismatchKind × ℕ))
    → total (bump_all ms m) ≡ total m + length ms
bump_all-total [] m = omega arith
bump_all-total (j ∷ ms) m = omega (arith, bump_all-total ms (bump j m), total-bump j m)

record Tallied (k : MismatchKind) (c d : Correctness) (e t m : ℕ) : Type 0 where
  errors : d.errors ≡ c.errors + e
  counted : count_of k d.counts ≡ count_of k c.counts + t
  all : total d.counts ≡ total c.counts + m
  samples : length c.error_samples ≡ min c.errors 5 → length d.error_samples ≡ min d.errors 5

pub capped :
    {A : Type 0}
    → (xs : List A) (x : A) (n : ℕ) → length xs ≡ min n 5
    → length (if ltb (length xs) 5 then xs ++ x ∷ [] else xs) ≡ min (n + 1) 5
capped xs x n e =
    if_cases (λ ys. length ys ≡ min (n + 1) 5) (ltb (length xs) 5)
      (λ h. ground (arith, h, e, length-append xs (x ∷ []))) (λ h. ground (arith, h, e))

one_Tallied :
    (k : MismatchKind) (c : Correctness) (id : ℕ) (ty : String) (o n : ℕ) (ms : List MismatchKind)
    → Tallied k c (record_mismatches c id ty o n ms) (wrong_one ms) (times k ms) (length ms)
unfolding record_mismatches
one_Tallied k c id ty o n [] = record {
  errors = omega arith;
  counted = omega arith;
  all = omega arith;
  samples = λ h. h;
}
one_Tallied k c id ty o n (m ∷ ms) = record {
  errors = omega arith;
  counted = bump_all-count_of k (m ∷ ms) c.counts;
  all = bump_all-total (m ∷ ms) c.counts;
  samples = λ h. capped c.error_samples _ c.errors h;
}

record_all-Tallied :
    (k : MismatchKind) (c : Correctness) (rs : List Recording)
    → Tallied k c (record_all c rs) (wrong_in rs) (times_in k rs) (mismatches_in rs)
unfolding record_all
record_all-Tallied k c [] = record {
  errors = omega arith;
  counted = omega arith;
  all = omega arith;
  samples = λ h. h;
}
record_all-Tallied k c (r ∷ rest) =
    let d = record_mismatches c r.session_id r.message_type r.oldest r.newest r.mismatches in
    let one = one_Tallied k c r.session_id r.message_type r.oldest r.newest r.mismatches in
    let more = record_all-Tallied k d rest in
    record {
      errors = omega (arith, one.errors, more.errors);
      counted = omega (arith, one.counted, more.counted);
      all = omega (arith, one.all, more.all);
      samples = λ h. more.samples (one.samples h);
    }

-- After any calls of `record` on a new `Correctness`, by whichever thread and in whatever order, the counter
-- of each kind is the number of times that it was found, the counters add up to the number of mismatches,
-- `errors` is the number of records with at least one, and so many samples are kept, but five at most.
pub record_all-counts :
    (expected : ExpectedConfig) (verify_every : ℕ) (rs : List Recording) (k : MismatchKind)
    → let d = record_all (new_correctness expected verify_every) rs in
      (count_of k d.counts ≡ times_in k rs)
      × (total d.counts ≡ mismatches_in rs)
      × (d.errors ≡ wrong_in rs)
      × (length d.error_samples ≡ min d.errors 5)
unfolding new_correctness count_of total
record_all-counts expected verify_every rs k =
    let t = record_all-Tallied k (new_correctness expected verify_every) rs in
    (omega (arith, t.counted), omega (arith, t.all), omega (arith, t.errors), t.samples refl)
