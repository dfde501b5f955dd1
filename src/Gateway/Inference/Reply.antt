-- ===== src/Gateway/Inference/Reply.antt =====
-- services/rust-sync/src/inference.rs: `parse_response`, and what errors it gives.
use mathlib.Core.Option
use websocket_stt_bench.Common.{
  ℕ, ◌+◌, ◌^◌, String, Bool, true, false, ◌&&◌, Option, none, some, List, [], ◌∷◌, ltb, leb, ◌==◌,
  if◌then◌else◌, Result, ok, err, length, take,
}
use websocket_stt_bench.Gateway.Protocol.{
  ErrorStage, inference_request, inference_response_parse, ErrorKind, http_5xx, http_429,
  parse_error, InferResponse, Json,
}
use websocket_stt_bench.Gateway.Text.{
  chars, from_utf8, split, split_lines, split_once, trim, eq_ignore_ascii_case, parse_unsigned,
}

abbrev pub classify_status : ℕ → ErrorKind × Bool
classify_status status =
    if status == 429
    then (http_429, true)
    else if leb 500 status && ltb status 600
    then (http_5xx, true)
    else (http_5xx, false)

abbrev pub kind_retryable : ErrorKind → Bool
kind_retryable parse_error = false
kind_retryable _ = true

-- `ParseErr`: the message of a status is its number; that of a JSON error is a text.
pub data Detail : Type 0 where
  returned_status : ℕ → Detail
  json_error : String → Detail

pub record ParseErr : Type 0 where
  pub stage : ErrorStage
  pub kind : ErrorKind
  pub message : Detail
  pub status : Option ℕ

-- What is behind a CR LF CR LF at the start.
abbrev pub behind_blank : List ℕ → Option (List ℕ)
behind_blank (a ∷ b ∷ c ∷ d ∷ rest) =
    if (a == 13) && (b == 10) && (c == 13) && (d == 10) then some rest else none
behind_blank _ = none

abbrev cut_here : Option (List ℕ) → Option (List ℕ × List ℕ) → Option (List ℕ × List ℕ)
cut_here none later = later
cut_here (some rest) later = some (13 ∷ 10 ∷ 13 ∷ 10 ∷ [], rest)

-- The bytes up to the first CR LF CR LF and with it, and those behind it.
unfoldable pub split_head : List ℕ → Option (List ℕ × List ℕ)
split_head [] = none
split_head (b ∷ rest) =
    cut_here (behind_blank (b ∷ rest)) (Option.map (λ r. (b ∷ r.0, r.1)) (split_head rest))

abbrev first_part : List (List ℕ) → Option (List ℕ)
first_part [] = none
first_part (x ∷ xs) = some x

abbrev or_zero : Option ℕ → ℕ
or_zero none = 0
or_zero (some n) = n

abbrev bind : {A B : Type 0} → Option A → (A → Option B) → Option B
bind none f = none
bind (some a) f = f a

-- The status: the second word of the first line, as a `u16`; 0 if there is none.
unfoldable pub status_of : List ℕ → ℕ
status_of line = or_zero (bind (first_part (split 32 line).1) (parse_unsigned (2 ^ 16)))

-- The length that a header line gives, if it is a content length that parses.
unfoldable pub length_in : List ℕ → Option ℕ
length_in line = bind (split_once 58 line) (λ (k, v).
    if eq_ignore_ascii_case (trim k) (chars "content-length")
    then parse_unsigned (2 ^ 64) (trim v)
    else none)

abbrev or_else : Option ℕ → Option ℕ → Option ℕ
or_else none b = b
or_else (some n) b = some n

-- `find_map` over the lines behind the first.
unfoldable pub content_length : List (List ℕ) → Option ℕ
unfolding length_in
content_length [] = none
content_length (line ∷ lines) = or_else (length_in line) (content_length lines)

-- `incomplete` is `None`; `overflows` is the addition of the source leaving `usize`.
pub data Parsed (F : Type 0) : Type 0 where
  incomplete overflows : Parsed F
  complete : Result (InferResponse F) ParseErr → Parsed F

module _ {F T : Type 0} (json : Json F T) where
  abbrev read_body : Option (InferResponse F) → List ℕ → ℕ → Parsed F
  read_body none body status = complete (
      err (record {
        stage = inference_response_parse;
        kind = parse_error;
        message = json_error (json.read_infer_error body);
        status = some status;
      }))
  read_body (some infer) body status = complete (ok infer)

  unfoldable pub read_status : ℕ → List ℕ → Parsed F
  read_status status body =
      if leb 200 status && ltb status 300
      then read_body (json.read_infer body) body status
      else complete (
          err (record {
            stage = inference_request;
            kind = (classify_status status).0;
            message = returned_status status;
            status = some status;
          }))

  unfoldable pub parse_lines : ℕ → List ℕ × List (List ℕ) → List ℕ → Parsed F
  unfolding read_status status_of content_length
  parse_lines head_len (first, others) rest =
      let content_len = or_zero (content_length others) in
      if leb (2 ^ 64) (head_len + content_len)
      then overflows
      else if ltb (length rest) content_len
      then incomplete
      else read_status (status_of first) (take content_len rest)

  abbrev parse_text : ℕ → Option (List ℕ) → List ℕ → Parsed F
  parse_text head_len none rest = incomplete
  parse_text head_len (some text) rest = parse_lines head_len (split_lines false text) rest

  abbrev parse_split : Option (List ℕ × List ℕ) → Parsed F
  parse_split none = incomplete
  parse_split (some (head, rest)) = parse_text (length head) (from_utf8 head) rest

  unfoldable pub parse_response : List ℕ → Parsed F
  unfolding split_head parse_lines
  parse_response buf = parse_split (split_head buf)
