-- ===== src/Gateway/Session/Cases.antt =====
-- services/rust-sync/src/session.rs: case rules for the handlers of a connection.
use websocket_stt_bench.Common.{
  ℕ, ◌≡◌, refl, ap, Bool, true, false, not, ◌&&◌, ◌==◌, if◌then◌else◌, ◌∙◌, [], ◌∷◌, Option, none,
  some, List, length, String, arith,
}
use websocket_stt_bench.Gateway.Config.{
  frame_bytes, reason_need_start, reason_text_after_start, reason_bad_frame_size,
}
use websocket_stt_bench.Gateway.Session.{
  Pending, Conn, Message, text_message, binary, close_message, ping, pong, raw_frame, go,
  close_frame, close_reply, send, close_with, accept_frame, on_message, Flush, flushed, blocked,
  broken, Interest, readable, readable_writable, flush_outcome, flush_open, flush_ws, proceed, Flow,
  stop, Sent, Read, received, would_block, failed, read_loop, Route, need_more, handled, web_socket,
  handshake, Io, read_open, on_readable, on_ready, Outcome,
}

-- Every message starts the session, is an accepted frame, closes the connection, or changes nothing.
module _ {ℓ} {F T : Type 0} (P : Conn F T → Type ℓ) (is_start : String → Bool) (c : Conn F T)
    (now : ℕ) where
  pub on_message_cases :
      (m : Message)
      → P c
      → P (record c { started = true })
      → ((p : List ℕ) → length p ≡ frame_bytes → P (accept_frame c now p))
      → ((code : ℕ) (reason : String) → P (send c (close_frame code reason)))
      → P (send c close_reply)
      → P (on_message is_start c now m).0
  unfolding on_message
  on_message_cases (text_message t) same start frame closed reply =
      elim c.started
        as (λ b.
          P
            (if not b
              then (if is_start t
                  then (record c { started = true }, go)
                  else close_with c 1002 reason_need_start)
              else close_with c 1002 reason_text_after_start).0) [
                | true ↦ closed 1002 reason_text_after_start
                | false ↦
                    elim (is_start t)
                      as (λ b.
                        P
                          (if b
                            then (record c { started = true }, go)
                            else close_with c 1002 reason_need_start).0) [
                              | true ↦ start
                              | false ↦ closed 1002 reason_need_start
                            ]
              ]
  on_message_cases (binary p) same start frame closed reply =
      (elim (c.started && length p == frame_bytes)
          as (λ b.
            (c.started && length p == frame_bytes) ≡ b
            → P
                (if b
                  then (accept_frame c now p, go)
                  else if not c.started
                  then close_with c 1002 reason_need_start
                  else close_with c 1003 reason_bad_frame_size).0) [
                    | true ↦ λ e. frame p (ground arith)
                    | false ↦ λ e.
                        elim c.started
                          as (λ b.
                            P
                              (if not b
                                then close_with c 1002 reason_need_start
                                else close_with c 1003 reason_bad_frame_size).0) [
                                  | true ↦ closed 1003 reason_bad_frame_size
                                  | false ↦ closed 1002 reason_need_start
                                ]
                  ])
        refl
  on_message_cases close_message same start frame closed reply = reply
  on_message_cases ping same start frame closed reply = same
  on_message_cases pong same start frame closed reply = same
  on_message_cases raw_frame same start frame closed reply = same

-- A flush leaves a connection, or changes its interest alone.
module _ {ℓ} {F T : Type 0} (P : Conn F T → Type ℓ) (c : Conn F T) where
  pub flush_ws_cases :
      (r : Flush)
      → P c
      → ((w : Bool) (i : Interest) → P (record c { ws_writable = w; registered = i }))
      → P (flush_ws c r).0
  unfolding flush_ws
  flush_ws_cases r same changed = by_socket c.ws
    where
      by_result : (r : Flush) → P (flush_outcome c r).0
      by_result flushed =
          elim c.ws_writable
            as (λ b. P (if b then record c { ws_writable = false; registered = readable } else c)) [
              | true ↦ changed false readable
              | false ↦ same
            ]
      by_result blocked =
          elim c.ws_writable
            as (λ b.
              P (
                if b then c else record c { ws_writable = true; registered = readable_writable })) [
                  | true ↦ same
                  | false ↦ changed true readable_writable
                ]
      by_result broken = same

      by_socket : (o : Option (List (Sent T))) → P (flush_open o c r).0
      by_socket none = same
      by_socket (some out) = by_result r

-- Either way of going on.
pub proceed_cases {ℓ κ} :
    {A : Type ℓ} (P : A → Type κ) (f : Flow) {a b : A} → P a → P b → P (proceed f a b)
proceed_cases P go pa pb = pa
proceed_cases P stop pa pb = pb

-- What the timer of a connection depends on: the batch in flight and the next flush.
abbrev pub clock : {F T : Type 0} → Conn F T → Option (Pending F) × ℕ
clock c = (c.pending, c.next_flush)

-- Reading and writing never touch the clock, nor the batch in flight.
module _ {F T : Type 0} (is_start : String → Bool) where
  on_message-clock :
      (c : Conn F T) (now : ℕ) (m : Message) → clock (on_message is_start c now m).0 ≡ clock c
  unfolding accept_frame
  on_message-clock c now m =
      on_message_cases (λ d. clock d ≡ clock c) is_start c now m refl refl (λ p e. refl)
        (λ code reason. refl) refl

  read_loop-clock :
      (c : Conn F T) (reads : List (ℕ × Read)) → clock (read_loop is_start c reads).0 ≡ clock c
  unfolding read_loop
  read_loop-clock c [] = refl
  read_loop-clock c ((now, would_block) ∷ rest) = refl
  read_loop-clock c ((now, failed) ∷ rest) = refl
  read_loop-clock c ((now, received m) ∷ rest) =
      proceed_cases {A = Conn F T × Flow} (λ r. clock r.0 ≡ clock c) (on_message is_start c now m).1
        (read_loop-clock (on_message is_start c now m).0 rest ∙ on_message-clock c now m)
        (on_message-clock c now m)

  pub flush_ws-clock : (c : Conn F T) (r : Flush) → clock (flush_ws c r).0 ≡ clock c
  flush_ws-clock c r = flush_ws_cases (λ d. clock d ≡ clock c) c r refl (λ w i. refl)

  handshake-clock :
      (c : Conn F T) (buf : List ℕ) (route : Option Route)
      → clock (handshake c buf route).0 ≡ clock c
  unfolding handshake
  handshake-clock c buf none = refl
  handshake-clock c buf (some need_more) = refl
  handshake-clock c buf (some handled) = refl
  handshake-clock c buf (some web_socket) = refl

  read_open-clock :
      (o : Option (List (Sent T))) (c : Conn F T) (io : Io)
      → clock (read_open o is_start c io).0 ≡ clock c
  unfolding read_open
  read_open-clock none c io = handshake-clock c io.head io.route
  read_open-clock (some out) c io =
      proceed_cases {A = Conn F T × Outcome} (λ r. clock r.0 ≡ clock c)
        (read_loop is_start c io.reads).1
        (flush_ws-clock (read_loop is_start c io.reads).0 io.flush ∙ read_loop-clock c io.reads)
        (read_loop-clock c io.reads)

  pub on_ready-clock :
      (c : Conn F T) (can_read can_write : Bool) (io : Io)
      → clock (on_ready is_start c can_read can_write io).0 ≡ clock c
  unfolding on_ready on_readable
  on_ready-clock c true w io = read_open-clock c.ws c io
  on_ready-clock c false true io = flush_ws-clock c io.flush
  on_ready-clock c false false io = refl

  pub on_ready-pending :
      (c : Conn F T) (can_read can_write : Bool) (io : Io)
      → (on_ready is_start c can_read can_write io).0.pending ≡ c.pending
  on_ready-pending c can_read can_write io =
      ap (λ (k : Option (Pending F) × ℕ). k.0) (on_ready-clock c can_read can_write io)
