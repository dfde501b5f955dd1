-- ===== src/Gateway/Http.antt =====
-- services/rust-sync/src/http.rs: the upgrade handshake. What the socket gives, and whether the 101 can be
-- written, are arguments; `derive_accept_key` is a parameter, as it is tungstenite's.
pub mod Head
mod Tests
use mathlib.Core.Option
use websocket_stt_bench.Common.{
  ℕ, ◌*◌, Bool, true, false, not, ◌&&◌, Option, none, some, String, List, [], ◌∷◌, ◌++◌, ltb, ◌==◌,
  if◌then◌else◌, length,
}
use websocket_stt_bench.Gateway.Session.{Route, web_socket, handled, need_more}
use websocket_stt_bench.Gateway.Inference.Reply.{behind_blank}
use websocket_stt_bench.Gateway.Text.{
  chars, bytes, encode, decimal, from_utf8, split, split_lines, split_once, trim,
  eq_ignore_ascii_case,
}

abbrev pub max_header_bytes : ℕ
max_header_bytes = 16 * 1024

-- One `read` of at most 1024 bytes; an empty chunk is the end of the stream.
pub data HeadRead : Type 0 where
  head_chunk : List ℕ → HeadRead
  head_blocked head_interrupted head_failed : HeadRead

-- The loop that drains the socket: the buffer, and whether it ended without an error.
unfoldable pub drain : List ℕ → List HeadRead → List ℕ × Bool
drain buf [] = (buf, true)
drain buf (head_blocked ∷ rest) = (buf, true)
drain buf (head_interrupted ∷ rest) = drain buf rest
drain buf (head_failed ∷ rest) = (buf, false)
drain buf (head_chunk [] ∷ rest) = (buf, false)
drain buf (head_chunk (b ∷ bs) ∷ rest) =
    let further = drain (buf ++ b ∷ bs) rest in
    if ltb max_header_bytes (length (buf ++ b ∷ bs)) then (buf ++ b ∷ bs, false) else further

abbrev here : Option (List ℕ) → ℕ → Option (List ℕ) → Option (List ℕ)
here none b later = Option.map (◌∷◌ b) later
here (some rest) b later = some []

-- The bytes before the first CR LF CR LF.
unfoldable pub head_before : List ℕ → Option (List ℕ)
head_before [] = none
head_before (b ∷ rest) = here (behind_blank (b ∷ rest)) b (head_before rest)

abbrev pub eq_chars : List ℕ → List ℕ → Bool
eq_chars [] [] = true
eq_chars (a ∷ bs) (c ∷ cs) = a == c && eq_chars bs cs
eq_chars _ _ = false

abbrev first_or : Option (List ℕ) → Option (List ℕ) → Option (List ℕ)
first_or none later = later
first_or (some v) later = some v

abbrev value_of : Option (List ℕ × List ℕ) → List ℕ → Option (List ℕ)
value_of none name = none
value_of (some (k, v)) name = if eq_ignore_ascii_case (trim k) name then some (trim v) else none

-- `header`, over the lines behind the first.
unfoldable pub header : List (List ℕ) → List ℕ → Option (List ℕ)
header [] name = none
header (line ∷ lines) name = first_or (value_of (split_once 58 line) name) (header lines name)

-- What `feed` leaves: the buffer, the route (`none` for its error), and what it wrote.
pub record Fed : Type 0 where
  pub buf : List ℕ
  pub route : Option Route
  pub wrote : List ℕ

unfoldable pub write_simple : ℕ → String → List ℕ
write_simple code reason =
    bytes "HTTP/1.1 "
    ++ decimal code
    ++ bytes " "
    ++ bytes reason
    ++ bytes "\r\nContent-Length: 0\r\nConnection: close\r\n\r\n"

abbrev pub second : List (List ℕ) → List ℕ
second [] = []
second (x ∷ xs) = x

abbrev health_body : List ℕ
health_body = bytes "{\"ok\":true,\"runtime\":\"rust-sync\"}"

module _ (derive_accept_key : List ℕ → List ℕ) (can_write : Bool) where
  abbrev pub upgrade : List ℕ → Option (List ℕ) → Fed
  upgrade buf none = record {
    buf = buf;
    route = some handled;
    wrote = write_simple 400 "Bad Request";
  }
  upgrade buf (some key) = record {
    buf = buf;
    route = if can_write then some web_socket else none;
    wrote =
        if can_write
        then bytes
            "HTTP/1.1 101 Switching Protocols\r\nUpgrade: websocket\r\nConnection: Upgrade\r\nSec-WebSocket-Accept: "
          ++ derive_accept_key (encode key)
          ++ bytes "\r\n\r\n"
        else [];
  }

  unfoldable pub route_request : List ℕ → List ℕ × List (List ℕ) → List (List ℕ) → Fed
  unfolding write_simple header
  route_request buf (method, parts) lines =
      if not (eq_chars method (chars "GET"))
      then record { buf = buf; route = some handled; wrote = write_simple 405 "Method Not Allowed" }
      else if eq_chars (second parts) (chars "/health")
      then record {
        buf = buf;
        route = some handled;
        wrote =
            bytes "HTTP/1.1 200 OK\r\nContent-Type: application/json\r\nContent-Length: "
            ++ decimal (length health_body)
            ++ bytes "\r\nConnection: close\r\n\r\n"
            ++ health_body;
      }
      else if eq_chars (second parts) (chars "/ws/stt")
      then upgrade buf (header lines (chars "sec-websocket-key"))
      else record { buf = buf; route = some handled; wrote = write_simple 404 "Not Found" }

  abbrev pub route_lines : List ℕ → List ℕ × List (List ℕ) → Fed
  route_lines buf (first, lines) = route_request buf (split 32 first) lines

  abbrev pub route_text : List ℕ → Option (List ℕ) → Fed
  route_text buf none = record { buf = buf; route = none; wrote = [] }
  route_text buf (some text) = route_lines buf (split_lines false text)

  abbrev pub route_head : List ℕ → Option (List ℕ) → Fed
  route_head buf none = record { buf = buf; route = some need_more; wrote = [] }
  route_head buf (some head) = route_text buf (from_utf8 head)

  abbrev pub after_drain : List ℕ × Bool → Fed
  after_drain (buf, false) = record { buf = buf; route = none; wrote = [] }
  after_drain (buf, true) = route_head buf (head_before buf)

  unfoldable pub feed : List ℕ → List HeadRead → Fed
  unfolding drain head_before route_request
  feed buf reads = after_drain (drain buf reads)
