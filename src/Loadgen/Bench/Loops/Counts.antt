-- ===== src/Loadgen/Bench/Loops/Counts.antt =====
-- loadgen/rust/src/bin/stt-inferbench.rs: what the request loops keep, whatever the order of their steps.
use websocket_stt_bench.Common.{
  ℕ, zero, suc, ◌+◌, ◌%◌, ◌≤◌, ◌<◌, ◌≡◌, refl, ap, subst, arith, String, ◌&&◌, Option, none, some,
  List, [], ◌∷◌, ◌++◌, ltb, leb, if_cases, length, length-append, get_elem?, Result,
}
use websocket_stt_bench.Loadgen.Bench.{BenchError, send_infer}
use websocket_stt_bench.Loadgen.Bench.Loops.{
  Start, OpenLoop, OpenStep, spawns, ends, sends, new_open, without, sent, on_open, run_open_loop,
}

length-without :
    {A : Type 0} (i : ℕ) (xs : List A) → i < length xs → length (without i xs) + 1 ≡ length xs
length-without i [] h = absurd (omega (arith, h))
length-without zero (x ∷ xs) h = omega arith
length-without (suc i) (x ∷ xs) h = omega (arith, length-without i xs (omega (arith, h)))

length-get_elem? :
    {A : Type 0} (xs : List A) (i : ℕ) (x : A) → get_elem? xs i ≡ some x → i < length xs
length-get_elem? [] i x e = cc
length-get_elem? (y ∷ ys) zero x e = omega arith
length-get_elem? (y ∷ ys) (suc i) x e = omega (arith, length-get_elem? ys i x e)

-- Each request from the `k`th on went to its client, in turn, and no sooner than it was due.
abbrev pub OnTime : (clients : ℕ) → (ℕ → ℕ) → ℕ → List Start → Type 0
OnTime clients due k [] = Unit
OnTime clients due k (s ∷ ss) =
    (s.client ≡ k % clients) × (due k ≤ s.at) × OnTime clients due (k + 1) ss

OnTime-snoc :
    (clients : ℕ) (due : ℕ → ℕ) (k : ℕ) (ss : List Start) (n at : ℕ)
    → OnTime clients due k ss
    → n ≡ k + length ss
    → due n ≤ at
    → OnTime clients due k (ss ++ record { client = n % clients; at = at } ∷ [])
OnTime-snoc clients due k [] n at h e late =
    let here : n ≡ k = omega (arith, e) in
    (ap (λ m. m % clients) here, subst (λ m. due m ≤ at) here late, tt)
OnTime-snoc clients due k (s ∷ ss) n at (c, d, h) e late =
    (c, d, OnTime-snoc clients due (k + 1) ss n at h (omega (arith, e)) late)

-- Every request that was made holds a permit, has its result yet to send, or has sent it.
pub record IsPaced (clients concurrency requests : ℕ) (due : ℕ → ℕ) (s : OpenLoop) : Type 0 where
  pub permits : s.permits + length s.flying ≡ concurrency
  pub counted : length s.results + length s.sending + length s.flying ≡ s.next
  pub bounded : s.next ≤ requests
  pub made : length s.started ≡ s.next
  pub on_time : OnTime clients due 0 s.started

new_open-IsPaced :
    (clients concurrency requests : ℕ) (due : ℕ → ℕ)
    → IsPaced clients concurrency requests due (new_open concurrency)
new_open-IsPaced clients concurrency requests due = record {
  permits = omega arith;
  counted = omega arith;
  bounded = omega arith;
  made = omega arith;
  on_time = tt;
}

module _ (status_text : ℕ → String) (clients concurrency requests : ℕ) (due : ℕ → ℕ) where
  abbrev pub InPace : OpenLoop → Type 0
  InPace s = IsPaced clients concurrency requests due s

  pub on_open-InPace :
      (e : OpenStep) (s : OpenLoop)
      → InPace s
      → InPace (on_open status_text clients requests due e s)
  unfolding on_open
  on_open-InPace (spawns now) s v =
      if_cases InPace (ltb s.next requests && leb (due s.next) now && ltb 0 s.permits)
        (λ on. record {
          permits = ground (arith, on, v.permits, length-append s.flying (s.next ∷ []));
          counted = omega (arith, v.counted, length-append s.flying (s.next ∷ []));
          bounded = ground (arith, on);
          made = omega (
            arith,
            v.made,
            length-append s.started (record { client = s.next % clients; at = now } ∷ []),
          );
          on_time =
              OnTime-snoc clients due 0 s.started s.next now v.on_time (omega (arith, v.made))
                (ground (arith, on));
        })
        (λ off. v)
  on_open-InPace (ends index reply) s v =
      if_cases InPace (ltb index (length s.flying))
        (λ on.
          let one = length-without index s.flying (ground (arith, on)) in
          record {
            permits = omega (arith, v.permits, one);
            counted = omega (
              arith,
              v.counted,
              one,
              length-append s.sending (send_infer status_text reply ∷ []),
            );
            bounded = v.bounded;
            made = v.made;
            on_time = v.on_time;
          })
        (λ off. v)
  on_open-InPace (sends index) s v = by_sent (get_elem? s.sending index) refl
    where
      by_sent :
          (o : Option (Result ℕ BenchError))
          → get_elem? s.sending index ≡ o
          → InPace (sent o index s)
      by_sent none e = v
      by_sent (some r) e =
          let one = length-without index s.sending (length-get_elem? s.sending index r e) in
          record {
            permits = v.permits;
            counted = omega (arith, v.counted, one, length-append s.results (r ∷ []));
            bounded = v.bounded;
            made = v.made;
            on_time = v.on_time;
          }

  run_open_loop-InPace :
      (es : List OpenStep) (s : OpenLoop)
      → InPace s
      → InPace (run_open_loop status_text clients requests due es s)
  unfolding run_open_loop
  run_open_loop-InPace [] s v = v
  run_open_loop-InPace (e ∷ es) s v =
      run_open_loop-InPace es (on_open status_text clients requests due e s) (on_open-InPace e s v)

  -- Whatever the order of the steps of the open loop and of its tasks: every request that was made holds a permit,
  -- has its result yet to send or has sent it, so at most `concurrency` requests are in flight; request number
  -- k went to client k modulo their number, and no sooner than it was due.
  pub open_loop-IsPaced :
      (es : List OpenStep)
      → IsPaced clients concurrency requests due
          (run_open_loop status_text clients requests due es (new_open concurrency))
  open_loop-IsPaced es =
      run_open_loop-InPace es (new_open concurrency)
        (new_open-IsPaced clients concurrency requests due)
