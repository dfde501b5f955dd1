-- ===== src/Gateway/Tick/Accounting.antt =====
-- services/rust-sync/src/session.rs: every operation of a connection keeps its ledger.
use mathlib.Core.List
use mathlib.Core.Option
use websocket_stt_bench.Common.{
  ℕ, ◌+◌, ◌≡◌, refl, sym, ap, ◌∙◌, Bool, true, false, Option, none, some, List, [], ◌∷◌, ◌++◌,
  arith, length, String, length-append, append-nil,
}
use websocket_stt_bench.Gateway.Config.{frame_bytes}
use websocket_stt_bench.Gateway.Session.{
  FrameMeta, Sent, Conn, accept_frame, on_message, read_loop, Read, Message, Flow, send,
  close_frame, close_reply, received, would_block, failed, Flush, flush_ws, Io, Route, need_more,
  handled, web_socket, handshake, read_open, on_readable, on_ready, Outcome,
}
use websocket_stt_bench.Gateway.Session.Cases.{on_message_cases, flush_ws_cases, proceed_cases}
use websocket_stt_bench.Gateway.Wire.{response, range_of, ranges}
use websocket_stt_bench.Loadgen.Protocol.{ServerMessage}
use websocket_stt_bench.Loadgen.Verify.Coverage.{end_of}
use websocket_stt_bench.Gateway.Tick.Ledger.{
  Consecutive-snoc, Books, books, IsAccounted, Ledger, reported, ranges-append, taken,
}

abbrev pub is_open : {T : Type 0} → Option (List (Sent T)) → Bool
is_open none = false
is_open (some out) = true

module _ {F T : Type 0} where
  accept_frame-IsAccounted :
      (rs : List (ℕ × ℕ)) (c : Conn F T) (now : ℕ) (p : List ℕ)
      → length p ≡ frame_bytes
      → is_open c.ws ≡ true
      → IsAccounted rs (books c)
      → IsAccounted rs (books (accept_frame c now p))
  unfolding accept_frame
  accept_frame-IsAccounted rs c now p size open_ v = record {
    tiles = v.tiles;
    flight = v.flight;
    buffered =
        Consecutive-snoc (taken (end_of 0 rs) c.pending) c.meta m v.buffered
          (omega (arith, v.counted));
    counted = omega (arith, v.counted, length-append c.meta (m ∷ []));
    sized = omega (arith, v.sized, size, length-append c.pcm p, length-append c.meta (m ∷ []));
    unopened = λ e. ground arith;
  }
    where
      m : FrameMeta
      m = record { seq = c.seq + 1; received_at = now }

  module _ (from_str : T → Option (ServerMessage F)) where
    pub reported-send :
        (o : Option (List (Sent T))) (m : Sent T)
        → is_open o ≡ true
        → reported from_str (Option.map (λ out. out ++ m ∷ []) o)
          ≡ reported from_str o ++ List.map range_of (response from_str m)
    reported-send none m h = cc
    reported-send (some out) m h =
        ranges-append from_str out (m ∷ [])
        ∙ ap (λ (r : List (ServerMessage F)). ranges from_str out ++ List.map range_of r)
            (append-nil (response from_str m))

    reported-silent :
        (o : Option (List (Sent T))) (m : Sent T)
        → response from_str m ≡ []
        → reported from_str (Option.map (λ out. out ++ m ∷ []) o) ≡ reported from_str o
    reported-silent none m h = refl
    reported-silent (some out) m h =
        reported-send (some out) m refl
        ∙ ap (λ (r : List (ServerMessage F)). ranges from_str out ++ List.map range_of r) h
        ∙ append-nil (ranges from_str out)

    -- The ledger of a connection that has been upgraded.
    pub record Open (rs : List (ℕ × ℕ)) (b : Books F T) : Type 0 where
      pub ledger : Ledger from_str rs b
      pub is_opened : is_open b.ws ≡ true

    -- A message that is no response leaves the ledger alone.
    send-Open :
        (rs : List (ℕ × ℕ)) (c : Conn F T) (m : Sent T)
        → response from_str m ≡ []
        → Open rs (books c)
        → Open rs (books (send c m))
    send-Open rs c m silent v = record {
      ledger = record {
        reports = reported-silent c.ws m silent ∙ v.ledger.reports;
        accounts = record {
          tiles = v.ledger.accounts.tiles;
          flight = v.ledger.accounts.flight;
          buffered = v.ledger.accounts.buffered;
          counted = v.ledger.accounts.counted;
          sized = v.ledger.accounts.sized;
          unopened = λ e. ground (arith, v.is_opened);
        };
      };
      is_opened = ground (arith, v.is_opened);
    }

    frame-Open :
        (rs : List (ℕ × ℕ)) (c : Conn F T) (now : ℕ) (p : List ℕ)
        → length p ≡ frame_bytes
        → Open rs (books c)
        → Open rs (books (accept_frame c now p))
    unfolding accept_frame
    frame-Open rs c now p size v = record {
      ledger = record {
        reports = v.ledger.reports;
        accounts = accept_frame-IsAccounted rs c now p size v.is_opened v.ledger.accounts;
      };
      is_opened = v.is_opened;
    }

    on_message-Open :
        (is_start : String → Bool) (rs : List (ℕ × ℕ)) (c : Conn F T) (now : ℕ) (m : Message)
        → Open rs (books c)
        → Open rs (books (on_message is_start c now m).0)
    on_message-Open is_start rs c now m v =
        on_message_cases (λ d. Open rs (books d)) is_start c now m v v
          (λ p size. frame-Open rs c now p size v)
          (λ code reason. send-Open rs c (close_frame code reason) refl v)
          (send-Open rs c close_reply refl v)

    read_loop-Open :
        (is_start : String → Bool) (rs : List (ℕ × ℕ)) (c : Conn F T) (reads : List (ℕ × Read))
        → Open rs (books c)
        → Open rs (books (read_loop is_start c reads).0)
    unfolding read_loop
    read_loop-Open is_start rs c [] v = v
    read_loop-Open is_start rs c ((now, would_block) ∷ rest) v = v
    read_loop-Open is_start rs c ((now, failed) ∷ rest) v = v
    read_loop-Open is_start rs c ((now, received m) ∷ rest) v =
        proceed_cases {A = Conn F T × Flow} (λ r. Open rs (books r.0))
          (on_message is_start c now m).1
          (read_loop-Open is_start rs (on_message is_start c now m).0 rest
            (on_message-Open is_start rs c now m v))
          (on_message-Open is_start rs c now m v)

    pub flush_ws-Ledger :
        (rs : List (ℕ × ℕ)) (c : Conn F T) (r : Flush)
        → Ledger from_str rs (books c)
        → Ledger from_str rs (books (flush_ws c r).0)
    flush_ws-Ledger rs c r v = flush_ws_cases (λ d. Ledger from_str rs (books d)) c r v (λ w i. v)

    -- An upgrade starts with an empty ledger.
    handshake-Ledger :
        (rs : List (ℕ × ℕ)) (c : Conn F T) (buf : List ℕ) (route : Option Route)
        → c.ws ≡ none
        → Ledger from_str rs (books c)
        → Ledger from_str rs (books (handshake c buf route).0)
    unfolding handshake
    handshake-Ledger rs c buf none e v = v
    handshake-Ledger rs c buf (some need_more) e v = v
    handshake-Ledger rs c buf (some handled) e v = v
    handshake-Ledger rs c buf (some web_socket) e v = record {
      reports = sym (ap (reported from_str) e) ∙ v.reports;
      accounts = record {
        tiles = v.accounts.tiles;
        flight = v.accounts.flight;
        buffered = v.accounts.buffered;
        counted = v.accounts.counted;
        sized = v.accounts.sized;
        unopened = λ h. cc;
      };
    }

    read_open-Ledger :
        (is_start : String → Bool) (rs : List (ℕ × ℕ)) (c : Conn F T) (io : Io)
        (o : Option (List (Sent T)))
        → c.ws ≡ o
        → Ledger from_str rs (books c)
        → Ledger from_str rs (books (read_open o is_start c io).0)
    unfolding read_open
    read_open-Ledger is_start rs c io none e v = handshake-Ledger rs c io.head io.route e v
    read_open-Ledger is_start rs c io (some out) e v =
        proceed_cases {A = Conn F T × Outcome} (λ r. Ledger from_str rs (books r.0))
          (read_loop is_start c io.reads).1
          (flush_ws-Ledger rs (read_loop is_start c io.reads).0 io.flush after.ledger) after.ledger
      where
        after : Open rs (books (read_loop is_start c io.reads).0)
        after =
            read_loop-Open is_start rs c io.reads (record { ledger = v; is_opened = ap is_open e })

    pub on_ready-Ledger :
        (is_start : String → Bool) (rs : List (ℕ × ℕ)) (c : Conn F T) (can_read can_write : Bool)
        (io : Io)
        → Ledger from_str rs (books c)
        → Ledger from_str rs (books (on_ready is_start c can_read can_write io).0)
    unfolding on_ready on_readable
    on_ready-Ledger is_start rs c true w io v = read_open-Ledger is_start rs c io c.ws refl v
    on_ready-Ledger is_start rs c false true io v = flush_ws-Ledger rs c io.flush v
    on_ready-Ledger is_start rs c false false io v = v
