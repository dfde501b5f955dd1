-- ===== src/Gateway/Text.antt =====
-- Texts as lists of bytes and of Unicode scalar values: what services/rust-sync/src uses of
-- Rust's `str` (`from_utf8`, `split`, `split_once`, `trim`, `parse`, `eq_ignore_ascii_case`) and of `write!`.
pub mod Numbers
mod Tests
use Prim.Native.Char.{code}
use mathlib.Core.Option
use websocket_stt_bench.Common.{
  ℕ, zero, suc, ◌+◌, ◌-◌, ◌*◌, ◌/◌, ◌%◌, String, Bool, true, false, not, ◌&&◌, ◌||◌, Option, none,
  some, List, [], ◌∷◌, ◌++◌, ltb, leb, ◌==◌, if◌then◌else◌,
}

-- The scalar values of a text, and their UTF-8.
abbrev pub chars : String → List ℕ
chars String.[] = []
chars (String.◌∷◌ c s) = code c ∷ chars s

abbrev pub encode_char : ℕ → List ℕ
encode_char c =
    if ltb c 0x80
    then c ∷ []
    else if ltb c 0x800
    then (0xC0 + c / 64) ∷ (0x80 + c % 64) ∷ []
    else if ltb c 0x10000
    then (0xE0 + c / 4096) ∷ (0x80 + c / 64 % 64) ∷ (0x80 + c % 64) ∷ []
    else (0xF0 + c / 262144) ∷ (0x80 + c / 4096 % 64) ∷ (0x80 + c / 64 % 64) ∷ (0x80 + c % 64) ∷ []

abbrev pub encode : List ℕ → List ℕ
encode [] = []
encode (c ∷ cs) = encode_char c ++ encode cs

abbrev pub bytes : String → List ℕ
bytes s = encode (chars s)

-- A decoder's state: the continuation bytes to come, the value so far, and the least value that this
-- length may encode.
record Decoder : Type 0 where
  need : ℕ
  acc : ℕ
  lowest : ℕ

abbrev pub between : ℕ → ℕ → ℕ → Bool
between low high n = leb low n && leb n high

abbrev lead : ℕ → Option (Decoder × List ℕ)
lead b =
    if ltb b 0x80
    then some (record { need = 0; acc = 0; lowest = 0 }, b ∷ [])
    else if between 0xC2 0xDF b
    then some (record { need = 1; acc = b - 0xC0; lowest = 0x80 }, [])
    else if between 0xE0 0xEF b
    then some (record { need = 2; acc = b - 0xE0; lowest = 0x800 }, [])
    else if between 0xF0 0xF4 b
    then some (record { need = 3; acc = b - 0xF0; lowest = 0x10000 }, [])
    else none

abbrev finish : ℕ → ℕ → Option (Decoder × List ℕ)
finish lowest v =
    if between lowest 0x10FFFF v && not (between 0xD800 0xDFFF v)
    then some (record { need = 0; acc = 0; lowest = 0 }, v ∷ [])
    else none

abbrev decode_byte : ℕ → ℕ → ℕ → ℕ → Option (Decoder × List ℕ)
decode_byte zero acc lowest b = lead b
decode_byte (suc left) acc lowest b =
    let v = acc * 64 + (b - 0x80) in
    if not (between 0x80 0xBF b)
    then none
    else if left == 0
    then finish lowest v
    else some (record { need = left; acc = v; lowest = lowest }, [])

-- `str::from_utf8`, as the scalar values of the text.
unfoldable decode : Decoder → List ℕ → Option (List ℕ)
decode d [] = if d.need == 0 then some [] else none
decode d (b ∷ rest) = elim (decode_byte d.need d.acc d.lowest b) [
  | none ↦ none
  | some r ↦ Option.map (λ further. r.1 ++ further) (decode r.0 rest)
]

unfoldable pub from_utf8 : List ℕ → Option (List ℕ)
unfolding decode
from_utf8 bs = decode (record { need = 0; acc = 0; lowest = 0 }) bs

-- `split` at a separator of one value, as the first part and the others.
unfoldable pub split : ℕ → List ℕ → List ℕ × List (List ℕ)
split sep [] = ([], [])
split sep (c ∷ cs) =
    let (first, others) = split sep cs in
    if c == sep then ([], first ∷ others) else (c ∷ first, others)

-- `split("\r\n")`; `after_cr` says that a CR is held back.
unfoldable pub split_lines : Bool → List ℕ → List ℕ × List (List ℕ)
split_lines false [] = ([], [])
split_lines true [] = (13 ∷ [], [])
split_lines false (c ∷ cs) =
    let (first, others) = split_lines (c == 13) cs in
    if c == 13 then (first, others) else (c ∷ first, others)
split_lines true (c ∷ cs) =
    let (first, others) = split_lines (c == 13) cs in
    if c == 10
    then ([], first ∷ others)
    else if c == 13
    then (13 ∷ first, others)
    else (13 ∷ c ∷ first, others)

-- `split_once` at one value.
unfoldable pub split_once : ℕ → List ℕ → Option (List ℕ × List ℕ)
split_once sep [] = none
split_once sep (c ∷ cs) =
    let rest = split_once sep cs in
    if c == sep then some ([], cs) else Option.map (λ r. (c ∷ r.0, r.1)) rest

-- `char::is_whitespace`
abbrev is_whitespace : ℕ → Bool
is_whitespace c =
    between 9 13 c
    || (c == 0x20)
    || (c == 0x85)
    || (c == 0xA0)
    || (c == 0x1680)
    || between 0x2000 0x200A c
    || (c == 0x2028)
    || (c == 0x2029)
    || (c == 0x202F)
    || (c == 0x205F)
    || (c == 0x3000)

unfoldable trim_start : List ℕ → List ℕ
trim_start [] = []
trim_start (c ∷ cs) = let rest = trim_start cs in if is_whitespace c then rest else c ∷ cs

-- Drops the whitespace at the end.
unfoldable trim_end : List ℕ → List ℕ
trim_end [] = []
trim_end (c ∷ cs) = elim (trim_end cs) [
  | [] ↦ if is_whitespace c then [] else c ∷ []
  | d ∷ ds ↦ c ∷ d ∷ ds
]

unfoldable pub trim : List ℕ → List ℕ
unfolding trim_start trim_end
trim cs = trim_end (trim_start cs)

abbrev to_ascii_lowercase : ℕ → ℕ
to_ascii_lowercase c = if between 65 90 c then c + 32 else c

unfoldable pub eq_ignore_ascii_case : List ℕ → List ℕ → Bool
eq_ignore_ascii_case [] [] = true
eq_ignore_ascii_case (a ∷ bs) (b ∷ cs) =
    to_ascii_lowercase a == to_ascii_lowercase b && eq_ignore_ascii_case bs cs
eq_ignore_ascii_case _ _ = false

-- `parse` of an unsigned type whose values are below `bound`: an optional `+`, then at least one digit.
unfoldable pub digits : ℕ → List ℕ → Option ℕ
digits value [] = some value
digits value (c ∷ cs) =
    let rest = digits (value * 10 + (c - 48)) cs in if between 48 57 c then rest else none

abbrev pub checked : ℕ → Option ℕ → Option ℕ
checked bound none = none
checked bound (some n) = if ltb n bound then some n else none

unfoldable pub parse_unsigned : ℕ → List ℕ → Option ℕ
unfolding digits
parse_unsigned bound [] = none
parse_unsigned bound (c ∷ []) = if c == 43 then none else checked bound (digits 0 (c ∷ []))
parse_unsigned bound (c ∷ d ∷ cs) =
    checked bound (digits 0 (if c == 43 then d ∷ cs else c ∷ d ∷ cs))

-- The decimal digits that `write!` gives a number; the first argument bounds how many.
unfoldable pub decimal_up_to : ℕ → ℕ → List ℕ
decimal_up_to zero n = []
decimal_up_to (suc left) n =
    let more = decimal_up_to left (n / 10) in (if ltb n 10 then [] else more) ++ (48 + n % 10) ∷ []

-- A `u64` has at most 20 digits.
unfoldable pub decimal : ℕ → List ℕ
unfolding decimal_up_to
decimal n = decimal_up_to 20 n
