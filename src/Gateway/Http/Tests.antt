-- ===== src/Gateway/Http/Tests.antt =====
-- services/rust-sync/src/http.rs: requests fed in one and in two pieces.
use websocket_stt_bench.Common.{ℕ, ◌≡◌, refl, true, some, List, [], ◌∷◌}
use websocket_stt_bench.Gateway.Session.{need_more, web_socket, handled}
use websocket_stt_bench.Gateway.Text.{
  bytes, from_utf8, split, split_lines, split_once, eq_ignore_ascii_case, trim,
}
use websocket_stt_bench.Gateway.Http.{head_chunk, head_blocked, feed}

abbrev request_head : List ℕ
request_head = bytes "GET /ws/stt HTTP/1.1\r\nSec-WebSocket-Key:  abc \r\n\r\n"

upgrade_test : (feed (λ key. key) true [] (head_chunk request_head ∷ [])).route ≡ some web_socket
unfolding feed from_utf8 split split_lines split_once eq_ignore_ascii_case trim
upgrade_test = refl

missing_key_test :
    (feed (λ key. key) true [] (head_chunk (bytes "GET /ws/stt HTTP/1.1\r\n\r\n") ∷ [])).route
    ≡ some handled
unfolding feed from_utf8 split split_lines
missing_key_test = refl

partial_head_test :
    (feed
      (λ key. key)
      true
      []
      (head_chunk (bytes "GET /ws/stt HTTP/1.1\r\nHo") ∷ head_blocked ∷ [])).route
    ≡ some need_more
unfolding feed
partial_head_test = refl
