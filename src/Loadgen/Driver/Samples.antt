-- ===== src/Loadgen/Driver/Samples.antt =====
-- loadgen/rust/src/main.rs: the file of samples, as bytes.
use websocket_stt_bench.Common.{
  ℕ, ◌+◌, ◌-◌, ◌*◌, ◌/◌, ◌%◌, ◌^◌, ◌<◌, ◌≡◌, refl, ap, ◌∙◌, arith, String, true, false, Option,
  none, some, List, [], ◌∷◌, ◌++◌, ◌==◌, All, All-append,
}
use websocket_stt_bench.Gateway.Text.{
  bytes, split, split_once, parse_unsigned, digits, checked, decimal,
}
use websocket_stt_bench.Gateway.Text.Numbers.{
  IsDigit, decimal-IsDigit, digits-digit, parse_unsigned-decimal, parse_unsigned-digits,
}
use websocket_stt_bench.Loadgen.Driver.Receive.{Sample}

abbrev header_text : String
header_text =
    "sample_index,session_id,oldest_frame_seq,newest_frame_seq,frames,transcript,audio_bytes,newest_latency_ms,oldest_latency_ms,flush_lateness_ms,received_ms"

unfoldable pub write_samples_csv_header : List ℕ
write_samples_csv_header = bytes header_text ++ 10 ∷ []

-- `{:03}`, below 1000.
abbrev pub padded : ℕ → List ℕ
padded r = (48 + r / 100) ∷ (48 + r / 10 % 10) ∷ (48 + r % 10) ∷ []

unfoldable pub write_millis : ℕ → List ℕ
unfolding decimal
write_millis micros = decimal (micros / 1000) ++ 46 ∷ padded (micros % 1000)

-- A field and its comma, before the rest of the row.
abbrev pub column : List ℕ → List ℕ → List ℕ
column field rest = field ++ 44 ∷ rest

unfoldable pub write_sample_csv_row : ℕ → Sample → List ℕ
unfolding write_millis
write_sample_csv_row sample_index s = column (decimal sample_index) (
    column (decimal s.session_id) (
      column (decimal s.oldest_frame_seq) (
        column (decimal s.newest_frame_seq) (
          column (decimal s.frames) (
            column (bytes s.transcript) (
              column (decimal s.audio_bytes) (
                column (write_millis s.newest_us) (
                  column (write_millis s.oldest_us) (
                    column (write_millis s.flush_lateness_us)
                      (write_millis s.received_us ++ 10 ∷ []))))))))))

-- No byte is the separator.
abbrev pub Lacks : ℕ → List ℕ → Type 0
Lacks sep = All (λ c. (c == sep) ≡ false)

self_test : (sep : ℕ) → (sep == sep) ≡ true
self_test sep = ground arith

split_field :
    (sep : ℕ) (field rest g : List ℕ) (gs : List (List ℕ))
    → Lacks sep field
    → split sep rest ≡ (g, gs)
    → split sep (field ++ sep ∷ rest) ≡ (field, g ∷ gs)
unfolding split
split_field sep [] rest g gs h e = rw (self_test sep) (rw e refl)
split_field sep (c ∷ field) rest g gs h e = rw (split_field sep field rest g gs h.1 e) (rw h.0 refl)

split_last : (sep : ℕ) (field : List ℕ) → Lacks sep field → split sep field ≡ (field, [])
unfolding split
split_last sep [] h = refl
split_last sep (c ∷ field) h = rw (split_last sep field h.1) (rw h.0 refl)

split_once_at :
    (sep : ℕ) (field rest : List ℕ)
    → Lacks sep field
    → (sep == sep) ≡ true
    → split_once sep (field ++ sep ∷ rest) ≡ some (field, rest)
unfolding split_once
split_once_at sep [] rest h e = rw e refl
split_once_at sep (c ∷ field) rest h e = rw (split_once_at sep field rest h.1 e) (rw h.0 refl)

digits-Lacks : (sep : ℕ) (cs : List ℕ) → sep < 48 → All IsDigit cs → Lacks sep cs
digits-Lacks sep [] b h = tt
digits-Lacks sep (c ∷ cs) b h = (ground (arith, h.0.0, b), digits-Lacks sep cs b h.1)

-- A reader of the column: what stands before and behind the point, as thousandths.
abbrev pub join_parts : Option ℕ → Option ℕ → Option ℕ
join_parts (some a) (some b) = some (a * 1000 + b)
join_parts _ _ = none

abbrev pub read_split : Option (List ℕ × List ℕ) → Option ℕ
read_split none = none
read_split (some (whole, part)) =
    join_parts (parse_unsigned (2 ^ 64) whole) (parse_unsigned 1000 part)

unfoldable pub read_millis : List ℕ → Option ℕ
read_millis cs = read_split (split_once 46 cs)

padded-IsDigit : (r : ℕ) → r < 1000 → All IsDigit (padded r)
padded-IsDigit r h =
    ((omega arith, omega arith), ((omega arith, omega arith), ((omega arith, omega arith), tt)))

parse_padded : (r : ℕ) → r < 1000 → parse_unsigned 1000 (padded r) ≡ some r
unfolding digits
parse_padded r h =
    let d = padded-IsDigit r h in
    parse_unsigned-digits 1000 (padded r) (λ e. cc) d
    ∙ ap (checked 1000) (
        digits-digit 0 (48 + r / 100) ((48 + r / 10 % 10) ∷ (48 + r % 10) ∷ []) d.0
        ∙ digits-digit (0 * 10 + (48 + r / 100 - 48)) (48 + r / 10 % 10) ((48 + r % 10) ∷ []) d.1.0
        ∙ digits-digit ((0 * 10 + (48 + r / 100 - 48)) * 10 + (48 + r / 10 % 10 - 48)) (48 + r % 10)
            [] d.1.1.0)
    ∙ ground (arith, h)

-- A duration that the file holds in milliseconds with three decimals is read back to the microsecond, for
-- every number of microseconds below 2 ^ 64.
pub read_millis-write_millis :
    (micros : ℕ) → micros < 2 ^ 64 → read_millis (write_millis micros) ≡ some micros
unfolding read_millis write_millis
read_millis-write_millis micros h =
    ap read_split (
      split_once_at 46 (decimal (micros / 1000)) (padded (micros % 1000))
        (digits-Lacks 46 (decimal (micros / 1000)) (omega arith) (decimal-IsDigit (micros / 1000)))
        refl)
    ∙ rw (parse_unsigned-decimal (2 ^ 64) (micros / 1000) (omega (arith, h)) (omega (arith, h)))
        (rw (parse_padded (micros % 1000) (omega arith)) (ap some (omega arith)))

split_comma :
    (field rest : List ℕ) {g : List ℕ} {gs : List (List ℕ)}
    → Lacks 44 field
    → split 44 rest ≡ (g, gs)
    → split 44 (column field rest) ≡ (field, g ∷ gs)
split_comma field rest {g = g} {gs = gs} h e = split_field 44 field rest g gs h e

comma_free : (n : ℕ) → Lacks 44 (decimal n)
comma_free n = digits-Lacks 44 (decimal n) (omega arith) (decimal-IsDigit n)

millis_comma_free : (n : ℕ) → Lacks 44 (write_millis n)
unfolding write_millis
millis_comma_free n =
    All-append (λ c. (c == 44) ≡ false) (decimal (n / 1000)) (46 ∷ padded (n % 1000))
      (comma_free (n / 1000))
      (
        refl,
        digits-Lacks 44 (padded (n % 1000)) (omega arith) (padded-IsDigit (n % 1000) (omega arith)),
      )

abbrev pub columns : Sample → List (List ℕ)
columns s =
    decimal s.session_id
    ∷ decimal s.oldest_frame_seq
    ∷ decimal s.newest_frame_seq
    ∷ decimal s.frames
    ∷ bytes s.transcript
    ∷ decimal s.audio_bytes
    ∷ write_millis s.newest_us
    ∷ write_millis s.oldest_us
    ∷ write_millis s.flush_lateness_us
    ∷ (write_millis s.received_us ++ 10 ∷ [])
    ∷ []

-- If a sample's transcript has no comma, its row has the eleven columns of the header, each with its value.
pub split-write_sample_csv_row :
    (sample_index : ℕ) (s : Sample)
    → Lacks 44 (bytes s.transcript)
    → split 44 (write_sample_csv_row sample_index s) ≡ (decimal sample_index, columns s)
unfolding write_sample_csv_row
split-write_sample_csv_row sample_index s h =
    split_comma (decimal sample_index) _ (comma_free sample_index) (
      split_comma (decimal s.session_id) _ (comma_free s.session_id) (
        split_comma (decimal s.oldest_frame_seq) _ (comma_free s.oldest_frame_seq) (
          split_comma (decimal s.newest_frame_seq) _ (comma_free s.newest_frame_seq) (
            split_comma (decimal s.frames) _ (comma_free s.frames) (
              split_comma (bytes s.transcript) _ (h) (
                split_comma (decimal s.audio_bytes) _ (comma_free s.audio_bytes) (
                  split_comma (write_millis s.newest_us) _ (millis_comma_free s.newest_us) (
                    split_comma (write_millis s.oldest_us) _ (millis_comma_free s.oldest_us) (
                      split_comma (write_millis s.flush_lateness_us) _
                        (millis_comma_free s.flush_lateness_us)
                        (split_last 44 (write_millis s.received_us ++ 10 ∷ []) (
                          All-append (λ c. (c == 44) ≡ false) (write_millis s.received_us) (10 ∷ [])
                            (millis_comma_free s.received_us) (refl, tt))))))))))))
