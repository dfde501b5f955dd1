-- ===== src/Loadgen/Bench/Summary.antt =====
-- loadgen/rust/src/inferbench.rs: what the summary counts, and what the payload is.
use websocket_stt_bench.Common.{
  ℕ, ◌-◌, take, map, append-nil, append_assoc, String, false, none, zero, suc, Bool, true, none,
  some, All, if◌then◌else◌, ◌+◌, ◌*◌, ◌<◌, ◌≡◌, refl, ap, ◌∙◌, sym, arith, List, [], ◌∷◌, ◌++◌, ltb,
  if_cases, length, length-append, Result, ok, err,
}
use websocket_stt_bench.Loadgen.Protocol.{frame_bytes, frame_payload}
use websocket_stt_bench.Loadgen.Protocol.Payload.{frame_payload_range}
use websocket_stt_bench.Loadgen.Verify.{payload_frames, concat_payload}
use websocket_stt_bench.Loadgen.Bench.{
  BenchErrorKind, connect, timeout, http_status, request, BenchErrorCounts, all_errors, BenchError,
  BenchSummary, new_summary, count_kind, record_result, attempted, collect_results, payload_from,
  inference_payload,
}

-- The histogram takes the latency.
abbrev pub Fits : (ℕ → Bool) → Result ℕ BenchError → Type 0
Fits fits (ok us) = fits us ≡ true
Fits fits (err e) = Unit

-- The latencies of the results, and their errors.
abbrev pub latencies : List (Result ℕ BenchError) → List ℕ
latencies [] = []
latencies (ok us ∷ rs) = us ∷ latencies rs
latencies (err e ∷ rs) = latencies rs

abbrev pub errors_of : List (Result ℕ BenchError) → List BenchError
errors_of [] = []
errors_of (ok us ∷ rs) = errors_of rs
errors_of (err e ∷ rs) = e ∷ errors_of rs

length-errors_of :
    (rs : List (Result ℕ BenchError)) → length (latencies rs) + length (errors_of rs) ≡ length rs
length-errors_of [] = omega arith
length-errors_of (ok us ∷ rs) = omega (arith, length-errors_of rs)
length-errors_of (err e ∷ rs) = omega (arith, length-errors_of rs)

-- The number of errors of each kind.
abbrev is_kind : BenchErrorKind → BenchErrorKind → Bool
is_kind connect connect = true
is_kind timeout timeout = true
is_kind http_status http_status = true
is_kind request request = true
is_kind _ _ = false

abbrev one_more : Bool → ℕ → ℕ
one_more true n = n + 1
one_more false n = n

abbrev pub number_of : BenchErrorKind → List BenchError → ℕ
number_of k [] = 0
number_of k (e ∷ es) = one_more (is_kind k e.kind) (number_of k es)

abbrev pub kinds_of : List BenchError → BenchErrorCounts
kinds_of es = record {
  connect = number_of connect es;
  timeout = number_of timeout es;
  http_status = number_of http_status es;
  request = number_of request es;
}

count_kind-kinds_of :
    (e : BenchError) (es : List BenchError) → count_kind e.kind (kinds_of es) ≡ kinds_of (e ∷ es)
count_kind-kinds_of e es = by_kind e.kind
  where
    by_kind :
        (k : BenchErrorKind)
        → count_kind k (kinds_of es) ≡ record {
          connect = one_more (is_kind connect k) (number_of connect es);
          timeout = one_more (is_kind timeout k) (number_of timeout es);
          http_status = one_more (is_kind http_status k) (number_of http_status es);
          request = one_more (is_kind request k) (number_of request es);
        }
    by_kind connect = refl
    by_kind timeout = refl
    by_kind http_status = refl
    by_kind request = refl

abbrev plus : BenchErrorCounts → BenchErrorCounts → BenchErrorCounts
plus c d = record {
  connect = c.connect + d.connect;
  timeout = c.timeout + d.timeout;
  http_status = c.http_status + d.http_status;
  request = c.request + d.request;
}

plus-count_kind :
    (k : BenchErrorKind) (c d : BenchErrorCounts)
    → plus (count_kind k c) d ≡ plus c (count_kind k d)
plus-count_kind connect c d = ap (λ n. record (plus c d) { connect = n }) (omega arith)
plus-count_kind timeout c d = ap (λ n. record (plus c d) { timeout = n }) (omega arith)
plus-count_kind http_status c d = ap (λ n. record (plus c d) { http_status = n }) (omega arith)
plus-count_kind request c d = ap (λ n. record (plus c d) { request = n }) (omega arith)

plus_nothing : (c : BenchErrorCounts) → c ≡ plus c new_summary.errors
plus_nothing c =
    ap (λ n. record c { connect = n }) (omega arith)
    ∙ ap (λ n. record c { connect = c.connect + 0; timeout = n }) (omega arith)
    ∙ ap (λ n. record c { connect = c.connect + 0; timeout = c.timeout + 0; http_status = n })
        (omega arith)
    ∙ ap (λ n. record (plus c new_summary.errors) { request = n }) (omega arith)

plus_none : (c : BenchErrorCounts) → plus new_summary.errors c ≡ c
plus_none c =
    ap (λ n. record (plus new_summary.errors c) { connect = n }) (omega arith)
    ∙ ap (λ n. record (plus new_summary.errors c) { connect = c.connect; timeout = n })
        (omega arith)
    ∙ ap (λ n. record c { http_status = n; request = 0 + c.request }) (omega arith)
    ∙ ap (λ n. record c { request = n }) (omega arith)

-- What the summary has after these results, from what it had before.
record Sums (s t : BenchSummary) (rs : List (Result ℕ BenchError)) : Type 0 where
  completed : t.completed ≡ s.completed + length (latencies rs)
  latency_us : t.latency_us ≡ s.latency_us ++ latencies rs
  errors : t.errors ≡ plus s.errors (kinds_of (errors_of rs))
  samples :
      t.error_samples
      ≡ s.error_samples
        ++ take (5 - length s.error_samples) (map (λ (e : BenchError). e.message) (errors_of rs))

abbrev with_latency : ℕ → BenchSummary → BenchSummary
with_latency us s = record s { completed = s.completed + 1; latency_us = s.latency_us ++ us ∷ [] }

abbrev sampled : List String → String → List String
sampled xs m = if ltb (length xs) 5 then xs ++ m ∷ [] else xs

abbrev with_error : BenchError → BenchSummary → BenchSummary
with_error e s = record s {
  errors = count_kind e.kind s.errors;
  error_samples = sampled s.error_samples e.message;
}

sampled-take :
    (xs : List String) (m : String) (ms : List String)
    → sampled xs m ++ take (5 - length (sampled xs m)) ms ≡ xs ++ take (5 - length xs) (m ∷ ms)
sampled-take xs m ms =
    if_cases (λ ys. ys ++ take (5 - length ys) ms ≡ xs ++ take (5 - length xs) (m ∷ ms))
      (ltb (length xs) 5)
      (λ on.
        let room : 5 - length xs ≡ suc (5 - length (xs ++ m ∷ [])) =
          ground (arith, on, length-append xs (m ∷ [])) in
        append_assoc xs (m ∷ []) (take (5 - length (xs ++ m ∷ [])) ms)
        ∙ ap (λ n. xs ++ take n (m ∷ ms)) (sym room))
      (λ off.
        let full : 5 - length xs ≡ 0 = ground (arith, off) in
        ap (λ n. xs ++ take n ms) full ∙ ap (λ n. xs ++ take n (m ∷ ms)) (sym full))

take_of_nil : (n : ℕ) → ◌≡◌ {A = List String} (take n []) []
take_of_nil zero = refl
take_of_nil (suc n) = refl

collect-Sums :
    (fits : ℕ → Bool) (rs : List (Result ℕ BenchError)) (s : BenchSummary)
    → All (Fits fits) rs
    → (t : BenchSummary) × (collect_results fits rs s ≡ some t) × Sums s t rs
unfolding collect_results record_result
collect-Sums fits [] s h = (
  s,
  refl,
  record {
    completed = omega arith;
    latency_us = sym (append-nil s.latency_us);
    errors = plus_nothing s.errors;
    samples = sym (
        ap (◌++◌ s.error_samples) (take_of_nil (5 - length s.error_samples))
        ∙ append-nil s.error_samples);
  },
)
collect-Sums fits (ok us ∷ rest) s (fit, more) =
    let (t, collected, v) = collect-Sums fits rest (with_latency us s) more in
    (
      t,
      ap
            (λ (b : Bool). elim (if b then some (with_latency us s) else none) [
              | none ↦ none
              | some u ↦ collect_results fits rest u
            ])
            fit
          ∙ collected,
      record {
        completed = omega (arith, v.completed);
        latency_us = v.latency_us ∙ append_assoc s.latency_us (us ∷ []) (latencies rest);
        errors = v.errors;
        samples = v.samples;
      },
    )
collect-Sums fits (err e ∷ rest) s (fit, more) =
    let (t, collected, v) = collect-Sums fits rest (with_error e s) more in
    (
      t,
      collected,
      record {
        completed = v.completed;
        latency_us = v.latency_us;
        errors =
            v.errors
            ∙ plus-count_kind e.kind s.errors (kinds_of (errors_of rest))
            ∙ ap (plus s.errors) (count_kind-kinds_of e (errors_of rest));
        samples =
            v.samples
            ∙ sampled-take s.error_samples e.message
                (map (λ (x : BenchError). x.message) (errors_of rest));
      },
    )

-- The summary has every latency, in order, and a count of them; for each kind the number of errors of it; and the
-- messages of the first five errors.
pub record Counts (s : BenchSummary) (rs : List (Result ℕ BenchError)) : Type 0 where
  pub completed : s.completed ≡ length (latencies rs)
  pub latency_us : s.latency_us ≡ latencies rs
  pub errors : s.errors ≡ kinds_of (errors_of rs)
  pub samples : s.error_samples ≡ take 5 (map (λ (e : BenchError). e.message) (errors_of rs))
  pub all : attempted s ≡ length rs

all_errors-count_kind :
    (k : BenchErrorKind) (c : BenchErrorCounts) → all_errors (count_kind k c) ≡ all_errors c + 1
all_errors-count_kind connect c = omega arith
all_errors-count_kind timeout c = omega arith
all_errors-count_kind http_status c = omega arith
all_errors-count_kind request c = omega arith

all_errors-kinds_of : (es : List BenchError) → all_errors (kinds_of es) ≡ length es
all_errors-kinds_of [] = refl
all_errors-kinds_of (e ∷ es) = omega (
  arith,
  ap all_errors (count_kind-kinds_of e es),
  all_errors-count_kind e.kind (kinds_of es),
  all_errors-kinds_of es,
)

pub collect_results-Counts :
    (fits : ℕ → Bool) (rs : List (Result ℕ BenchError))
    → All (Fits fits) rs
    → (s : BenchSummary) × (collect_results fits rs new_summary ≡ some s) × Counts s rs
collect_results-Counts fits rs h =
    let (s, e, v) = collect-Sums fits rs new_summary h in
    let kinds : s.errors ≡ kinds_of (errors_of rs) =
      v.errors ∙ plus_none (kinds_of (errors_of rs)) in
    (
      s,
      e,
      record {
        completed = omega (arith, v.completed);
        latency_us = v.latency_us;
        errors = kinds;
        samples = v.samples;
        all = omega (
          arith,
          v.completed,
          ap all_errors kinds,
          all_errors-kinds_of (errors_of rs),
          length-errors_of rs,
        );
      },
    )

payload_from-payload_frames : (left seq : ℕ) → payload_from left seq ≡ payload_frames 0 seq left
unfolding payload_frames
payload_from-payload_frames zero seq = refl
payload_from-payload_frames (suc left) seq =
    ap (◌++◌ (frame_payload 0 seq)) (payload_from-payload_frames left (seq + 1))

length-payload_from : (left seq : ℕ) → length (payload_from left seq) ≡ left * frame_bytes
length-payload_from zero seq = omega arith
length-payload_from (suc left) seq = omega (
  arith,
  length-append (frame_payload 0 seq) (payload_from left (seq + 1)),
  (frame_payload_range 0 seq).0,
  length-payload_from left (seq + 1),
)

-- The benchmark's payload of at least one frame is what the verifier rebuilds for the first frames of
-- session 0, and it has 640 bytes for each frame.
pub inference_payload-concat_payload :
    (frames : ℕ)
    → 0 < frames
    → (inference_payload frames ≡ concat_payload 0 1 frames)
      × (length (inference_payload frames) ≡ frames * frame_bytes)
unfolding inference_payload concat_payload
inference_payload-concat_payload frames h = (
  payload_from-payload_frames frames 1
      ∙ if_cases (λ b. payload_frames 0 1 frames ≡ b) (ltb frames 1)
          (λ e. absurd (ground (arith, e, h))) (λ e. ap (payload_frames 0 1) (omega (arith, h))),
  length-payload_from frames 1,
)
