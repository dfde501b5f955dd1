-- ===== src/Gateway/Text/Numbers.antt =====
-- services/rust-sync/src: the decimal numbers that a gateway writes are read back.
use native.Mathlib.Nat.{pow-suc}
use websocket_stt_bench.Common.{
  ℕ, zero, suc, ◌+◌, ◌-◌, ◌*◌, ◌/◌, ◌%◌, ◌^◌, ◌≤◌, ◌<◌, ◌≡◌, ◌≢◌, refl, sym, ap, ◌∙◌, arith, some,
  List, [], ◌∷◌, ◌++◌, ltb, if◌then◌else◌, if_cases, append_assoc, append-nil, All, All-append,
}
use websocket_stt_bench.Gateway.Text.{digits, checked, parse_unsigned, decimal_up_to, decimal}

abbrev pub IsDigit : ℕ → Type 0
IsDigit c = (48 ≤ c) × (c ≤ 57)

pub digits-digit :
    (v c : ℕ) (cs : List ℕ) → IsDigit c → digits v (c ∷ cs) ≡ digits (v * 10 + (c - 48)) cs
unfolding digits
digits-digit v c cs h = ground (arith, h.0, h.1)

last-IsDigit : (n : ℕ) → IsDigit (48 + n % 10)
last-IsDigit n = (omega arith, omega arith)

-- Reading what was written, whatever digits follow.
digits-decimal_up_to :
    (k n : ℕ) (cs : List ℕ) → n < 10 ^ k → digits 0 (decimal_up_to k n ++ cs) ≡ digits n cs
unfolding decimal_up_to
digits-decimal_up_to zero n cs h = ap (λ v. digits v cs) (omega (arith, h))
digits-decimal_up_to (suc k) n cs h =
    if_cases (λ more. digits 0 ((more ++ (48 + n % 10) ∷ []) ++ cs) ≡ digits n cs) (ltb n 10)
      (λ small.
        digits-digit 0 (48 + n % 10) cs (last-IsDigit n)
        ∙ ap (λ v. digits v cs) (ground (arith, small)))
      (λ large.
        ap (digits 0) (append_assoc (decimal_up_to k (n / 10)) ((48 + n % 10) ∷ []) cs)
        ∙ digits-decimal_up_to k (n / 10) ((48 + n % 10) ∷ cs) (omega (arith, h, pow-suc 10 k))
        ∙ digits-digit (n / 10) (48 + n % 10) cs (last-IsDigit n)
        ∙ ap (λ v. digits v cs) (omega arith))

decimal_up_to-IsDigit : (k n : ℕ) → All IsDigit (decimal_up_to k n)
unfolding decimal_up_to
decimal_up_to-IsDigit zero n = tt
decimal_up_to-IsDigit (suc k) n =
    if_cases (λ more. All IsDigit (more ++ (48 + n % 10) ∷ [])) (ltb n 10)
      (λ small. (last-IsDigit n, tt))
      (λ large.
        All-append IsDigit (decimal_up_to k (n / 10)) ((48 + n % 10) ∷ [])
          (decimal_up_to-IsDigit k (n / 10)) (last-IsDigit n, tt))

pub parse_unsigned-digits :
    (bound : ℕ) (cs : List ℕ)
    → cs ≢ []
    → All IsDigit cs
    → parse_unsigned bound cs ≡ checked bound (digits 0 cs)
unfolding parse_unsigned
parse_unsigned-digits bound [] some_ h = absurd (some_ refl)
parse_unsigned-digits bound (c ∷ []) some_ h = ground (arith, h.0.0)
parse_unsigned-digits bound (c ∷ d ∷ cs) some_ h = ground (arith, h.0.0)

snoc_nonempty : (xs : List ℕ) (x : ℕ) → xs ++ x ∷ [] ≢ []
snoc_nonempty [] x = λ e. cc
snoc_nonempty (y ∷ xs) x = λ e. cc

decimal_up_to_nonempty : (k n : ℕ) → decimal_up_to (suc k) n ≢ []
unfolding decimal_up_to
decimal_up_to_nonempty k n =
    snoc_nonempty (if ltb n 10 then [] else decimal_up_to k (n / 10)) (48 + n % 10)

checked_small : (bound n : ℕ) → n < bound → checked bound (digits n []) ≡ some n
unfolding digits
checked_small bound n h = ground (arith, h)

pub decimal-IsDigit : (n : ℕ) → All IsDigit (decimal n)
unfolding decimal
decimal-IsDigit n = decimal_up_to-IsDigit 20 n

-- Every number that a 64-bit variable holds is read back from its decimal digits, if it is below the bound
-- of the type that it is parsed as.
pub parse_unsigned-decimal :
    (bound n : ℕ) → n < bound → n < 2 ^ 64 → parse_unsigned bound (decimal n) ≡ some n
unfolding decimal
parse_unsigned-decimal bound n small word =
    parse_unsigned-digits bound (decimal_up_to 20 n) (decimal_up_to_nonempty 19 n)
      (decimal_up_to-IsDigit 20 n)
    ∙ ap (checked bound) (
        ap (digits 0) (sym (append-nil (decimal_up_to 20 n)))
        ∙ digits-decimal_up_to 20 n [] (omega (arith, word)))
    ∙ checked_small bound n small
