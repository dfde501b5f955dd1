-- ===== src/Gateway/Tick/Content.antt =====
-- services/rust-sync/src/main.rs and session.rs: what becomes of the bytes of the frames.
use websocket_stt_bench.Common.{
  ℕ, ◌≡◌, refl, sym, ap, ◌∙◌, String, Bool, true, false, not, ◌&&◌, ◌==◌, if◌then◌else◌, if_cases,
  Option, none, some, List, [], ◌∷◌, ◌++◌, ltb, length, append-nil, append_assoc, Result, err,
}
use websocket_stt_bench.Common.Float.{Float64}
use websocket_stt_bench.Gateway.Config.{
  Config, frame_bytes, reason_need_start, reason_bad_frame_size,
}
use websocket_stt_bench.Gateway.Protocol.{InferResponse, Json}
use websocket_stt_bench.Gateway.Inference.{Cmd, submit, abort, InferError, timeout_error}
use websocket_stt_bench.Gateway.Session.{
  FrameMeta, Pending, Sent, Conn, Message, text_message, binary, close_message, ping, pong,
  raw_frame, Flow, go, stop, send, text, close_with, accept_frame, on_message, Read, received,
  would_block, failed, read_loop, proceed, Flush, flush_ws, Route, need_more, handled, web_socket,
  handshake, Io, read_open, on_readable, on_ready, Outcome, keep, close, Tick, expired, due,
  flush_due, check_timeout, on_timer, begin_pending, write_response, response_text, deliver_to,
  deliver, match_tag, on_done, tag,
}
use websocket_stt_bench.Gateway.Session.Cases.{flush_ws_cases}
use websocket_stt_bench.Gateway.Tick.{
  Advanced, Event, ready, done, timer, act, tick_conn, step, run,
}

abbrev pub bytes_of : List (List ℕ) → List ℕ
bytes_of [] = []
bytes_of (p ∷ ps) = p ++ bytes_of ps

bytes_of-append : (ps qs : List (List ℕ)) → bytes_of (ps ++ qs) ≡ bytes_of ps ++ bytes_of qs
bytes_of-append [] qs = refl
bytes_of-append (p ∷ ps) qs =
    ap (◌++◌ p) (bytes_of-append ps qs) ∙ sym (append_assoc p (bytes_of ps) (bytes_of qs))

-- The audio of the batches that the inference thread was given.
abbrev pub submitted_bytes : List Cmd → List ℕ
submitted_bytes [] = []
submitted_bytes (submit id t pcm passes ∷ cmds) = pcm ++ submitted_bytes cmds
submitted_bytes (abort id ∷ cmds) = submitted_bytes cmds

submitted_bytes-append :
    (xs ys : List Cmd) → submitted_bytes (xs ++ ys) ≡ submitted_bytes xs ++ submitted_bytes ys
submitted_bytes-append [] ys = refl
submitted_bytes-append (submit id t pcm passes ∷ xs) ys =
    ap (◌++◌ pcm) (submitted_bytes-append xs ys)
    ∙ sym (append_assoc pcm (submitted_bytes xs) (submitted_bytes ys))
submitted_bytes-append (abort id ∷ xs) ys = submitted_bytes-append xs ys

module _ {F T : Type 0} (is_start : String → Bool) where
  -- The frame in a message, if the session has started: a binary message of 640 bytes.
  abbrev pub frame_of : Conn F T → Message → List (List ℕ)
  frame_of c (binary p) = if c.started && length p == frame_bytes then p ∷ [] else []
  frame_of c _ = []

  -- The frames among what the socket gives, in order, up to a message that ends the reading.
  unfoldable pub frames_read : Conn F T → List (ℕ × Read) → List (List ℕ)
  unfolding on_message
  frames_read c [] = []
  frames_read c ((now, would_block) ∷ rest) = []
  frames_read c ((now, failed) ∷ rest) = []
  frames_read c ((now, received m) ∷ rest) =
      let (c', flow) = on_message is_start c now m in
      let further = frames_read c' rest in frame_of c m ++ elim flow [ go ↦ further | stop ↦ [] ]

  on_message-pcm :
      (c : Conn F T) (now : ℕ) (m : Message)
      → (on_message is_start c now m).0.pcm ≡ c.pcm ++ bytes_of (frame_of c m)
  unfolding on_message accept_frame
  on_message-pcm c now (text_message t) =
      if_cases (λ (r : Conn F T × Flow). r.0.pcm ≡ c.pcm ++ []) (not c.started)
        (λ on.
          if_cases (λ (r : Conn F T × Flow). r.0.pcm ≡ c.pcm ++ []) (is_start t)
            (λ x. sym (append-nil c.pcm)) (λ x. sym (append-nil c.pcm)))
        (λ off. sym (append-nil c.pcm))
  on_message-pcm c now (binary p) =
      elim (c.started && length p == frame_bytes)
        as (λ b.
          (if b
            then (accept_frame c now p, go)
            else if not c.started
            then close_with c 1002 reason_need_start
            else close_with c 1003 reason_bad_frame_size).0.pcm
          ≡ c.pcm ++ bytes_of (if b then p ∷ [] else [])) [
            | true ↦ ap (◌++◌ c.pcm) (sym (append-nil p))
            | false ↦
                if_cases (λ (r : Conn F T × Flow). r.0.pcm ≡ c.pcm ++ []) (not c.started)
                  (λ x. sym (append-nil c.pcm)) (λ x. sym (append-nil c.pcm))
          ]
  on_message-pcm c now close_message = sym (append-nil c.pcm)
  on_message-pcm c now ping = sym (append-nil c.pcm)
  on_message-pcm c now pong = sym (append-nil c.pcm)
  on_message-pcm c now raw_frame = sym (append-nil c.pcm)

  read_loop-pcm :
      (c : Conn F T) (reads : List (ℕ × Read))
      → (read_loop is_start c reads).0.pcm ≡ c.pcm ++ bytes_of (frames_read c reads)
  unfolding read_loop frames_read
  read_loop-pcm c [] = sym (append-nil c.pcm)
  read_loop-pcm c ((now, would_block) ∷ rest) = sym (append-nil c.pcm)
  read_loop-pcm c ((now, failed) ∷ rest) = sym (append-nil c.pcm)
  read_loop-pcm c ((now, received m) ∷ rest) =
      elim (on_message is_start c now m).1
        as (λ flow.
          (proceed flow (read_loop is_start d rest) (d, stop)).0.pcm
          ≡ c.pcm ++ bytes_of (frame_of c m ++ elim flow [ go ↦ frames_read d rest | stop ↦ [] ])) [
            | go ↦
                read_loop-pcm d rest
                ∙ ap (λ p. p ++ bytes_of (frames_read d rest)) (on_message-pcm c now m)
                ∙ append_assoc c.pcm (bytes_of (frame_of c m)) (bytes_of (frames_read d rest))
                ∙ ap (◌++◌ c.pcm) (sym (bytes_of-append (frame_of c m) (frames_read d rest)))
            | stop ↦
                on_message-pcm c now m
                ∙ ap (λ (fs : List (List ℕ)). c.pcm ++ bytes_of fs)
                    (sym (append-nil (frame_of c m)))
          ]
    where
      d : Conn F T
      d = (on_message is_start c now m).0

  flush_ws-pcm : (c : Conn F T) (r : Flush) → (flush_ws c r).0.pcm ≡ c.pcm
  flush_ws-pcm c r = flush_ws_cases (λ d. d.pcm ≡ c.pcm) c r refl (λ w i. refl)

  handshake-pcm :
      (c : Conn F T) (buf : List ℕ) (route : Option Route) → (handshake c buf route).0.pcm ≡ c.pcm
  unfolding handshake
  handshake-pcm c buf none = refl
  handshake-pcm c buf (some need_more) = refl
  handshake-pcm c buf (some handled) = refl
  handshake-pcm c buf (some web_socket) = refl

  abbrev pub frames_open : Option (List (Sent T)) → Conn F T → Io → List (List ℕ)
  frames_open none c io = []
  frames_open (some out) c io = frames_read c io.reads

  read_open-pcm :
      (o : Option (List (Sent T))) (c : Conn F T) (io : Io)
      → (read_open o is_start c io).0.pcm ≡ c.pcm ++ bytes_of (frames_open o c io)
  unfolding read_open
  read_open-pcm none c io = handshake-pcm c io.head io.route ∙ sym (append-nil c.pcm)
  read_open-pcm (some out) c io =
      elim (read_loop is_start c io.reads).1
        as (λ flow.
          (proceed flow (flush_ws d io.flush) (d, close)).0.pcm
          ≡ c.pcm ++ bytes_of (frames_read c io.reads)) [
            | go ↦ flush_ws-pcm d io.flush ∙ read_loop-pcm c io.reads
            | stop ↦ read_loop-pcm c io.reads
          ]
    where
      d : Conn F T
      d = (read_loop is_start c io.reads).0

module _ {F T : Type 0} (fl : Float64 F) (json : Json F T) (config : Config) where
  -- The frames that a connection accepts of an event, in order.
  abbrev pub frames_in : Conn F T → Event F → List (List ℕ)
  frames_in c (ready true w io) = frames_open json.is_start c.ws c io
  frames_in c (ready false w io) = []
  frames_in c (done t result now r) = []
  frames_in c (timer now r) = []

  -- And of a run.
  unfoldable pub frames_run : Conn F T → List (Event F) → List (List ℕ)
  unfolding step frames_read
  frames_run c [] = []
  frames_run c (e ∷ rest) =
      let a = step fl json config c e in
      let further = frames_run a.conn rest in
      frames_in c e ++ elim a.outcome [ keep ↦ further | close ↦ [] ]

  write_response-pcm :
      (c : Conn F T) (o : Option T) (r : Flush) → (write_response fl json c o r).0.pcm ≡ c.pcm
  unfolding write_response
  write_response-pcm c none r = refl
  write_response-pcm c (some t) r = flush_ws-pcm json.is_start (send c (text t)) r

  deliver_to-pcm :
      (o : Option (Pending F)) (c : Conn F T) (result : Result (InferResponse F) (InferError F))
      (now : ℕ) (r : Flush)
      → (deliver_to fl json o c result now config r).0.pcm ≡ c.pcm
  unfolding deliver_to
  deliver_to-pcm none c result now r = refl
  deliver_to-pcm (some p) c result now r =
      write_response-pcm (record c { pending = none })
        (response_text fl json p.batch result now config) r

  deliver-pcm :
      (c : Conn F T) (result : Result (InferResponse F) (InferError F)) (now : ℕ) (r : Flush)
      → (deliver fl json c result now config r).0.pcm ≡ c.pcm
  unfolding deliver
  deliver-pcm c result now r = deliver_to-pcm c.pending c result now r

  match_tag-pcm :
      (o : Option (Pending F)) (c : Conn F T) (t : ℕ)
      (result : Result (InferResponse F) (InferError F)) (now : ℕ) (r : Flush)
      → (match_tag fl json o c t result now config r).0.pcm ≡ c.pcm
  unfolding match_tag
  match_tag-pcm none c t result now r = refl
  match_tag-pcm (some p) c t result now r =
      if_cases (λ (x : Conn F T × Outcome). x.0.pcm ≡ c.pcm) (tag p.batch == t)
        (λ on. deliver-pcm c result now r) (λ off. refl)

  -- Every byte of the buffer stays there, or goes to the inference thread.
  Kept : List ℕ → Advanced F T → Type 0
  Kept pcm a = pcm ≡ submitted_bytes a.cmds ++ a.conn.pcm

  act_on : Conn F T × Tick F → ℕ → Flush → Advanced F T
  act_on (c, t) now r = act fl json config c t now r

  due-Kept :
      (o : Option (Pending F)) (ms : List FrameMeta) (c d : Conn F T) (lateness : F) (now : ℕ)
      (r : Flush)
      → Kept d.pcm (act fl json config d (due fl o ms c lateness) now r)
  unfolding Kept due act begin_pending
  due-Kept (some p) ms c d lateness now r = refl
  due-Kept none [] c d lateness now r = refl
  due-Kept none (first ∷ rest) c d lateness now r =
      sym (append-nil (d.pcm ++ []) ∙ append-nil d.pcm)

  flush_due-Kept :
      (c : Conn F T) (now : ℕ) (r : Flush) → Kept c.pcm (act_on (flush_due fl c now config) now r)
  unfolding flush_due act_on
  flush_due-Kept c now r =
      if_cases (λ (x : Conn F T × Tick F). Kept c.pcm (act_on x now r)) (ltb now c.next_flush)
        (λ on. unfold Kept act in refl) (λ off. due-Kept c.pending c.meta c _ _ now r)

  expired-Kept :
      (c : Conn F T) (elapsed_ms : F) (now : ℕ) (r : Flush)
      → Kept c.pcm (act_on (c, expired elapsed_ms) now r)
  unfolding Kept act act_on
  expired-Kept c elapsed_ms now r = sym (deliver-pcm c (err (timeout_error elapsed_ms)) now r)

  check_timeout-Kept :
      (o : Option (Pending F)) (c : Conn F T) (now : ℕ) (r : Flush)
      → Kept c.pcm (act_on (check_timeout fl o c now config) now r)
  unfolding check_timeout act_on
  check_timeout-Kept none c now r = flush_due-Kept c now r
  check_timeout-Kept (some p) c now r =
      if_cases (λ (x : Conn F T × Tick F). Kept c.pcm (act_on x now r)) _
        (λ on. expired-Kept c _ now r) (λ off. flush_due-Kept c now r)

  step-pcm :
      (c : Conn F T) (e : Event F)
      → let a = step fl json config c e in
        c.pcm ++ bytes_of (frames_in c e) ≡ submitted_bytes a.cmds ++ a.conn.pcm
  unfolding step on_ready on_readable
  step-pcm c (ready true w io) = sym (read_open-pcm json.is_start c.ws c io)
  step-pcm c (ready false true io) = append-nil c.pcm ∙ sym (flush_ws-pcm json.is_start c io.flush)
  step-pcm c (ready false false io) = append-nil c.pcm
  step-pcm c (done t result now r) =
      append-nil c.pcm ∙ sym (unfold on_done in match_tag-pcm c.pending c t result now r)
  step-pcm c (timer now r) =
      append-nil c.pcm
      ∙ (unfold tick_conn on_timer Kept act_on in check_timeout-Kept c.pending c now r)

  pub run-pcm :
      (c : Conn F T) (es : List (Event F))
      → let (d, cmds) = run fl json config c es in
        c.pcm ++ bytes_of (frames_run c es) ≡ submitted_bytes cmds ++ d.pcm
  unfolding run frames_run
  run-pcm c [] = append-nil c.pcm
  run-pcm c (e ∷ es) =
      elim a.outcome
        as (λ (o : Outcome).
          let (d, cmds) = (elim o as (λ _. Conn F T × List Cmd) [
            | keep ↦ (further.0, a.cmds ++ further.1)
            | close ↦ (a.conn, a.cmds)
          ]) in
          c.pcm ++ bytes_of (frames_in c e ++ elim o [ keep ↦ frames_run a.conn es | close ↦ [] ])
          ≡ submitted_bytes cmds ++ d.pcm) [
            | keep ↦
                ap (◌++◌ c.pcm) (bytes_of-append (frames_in c e) (frames_run a.conn es))
                ∙ sym (
                    append_assoc c.pcm (bytes_of (frames_in c e)) (bytes_of (frames_run a.conn es)))
                ∙ ap (λ p. p ++ bytes_of (frames_run a.conn es)) (step-pcm c e)
                ∙ append_assoc (submitted_bytes a.cmds) a.conn.pcm (bytes_of (frames_run a.conn es))
                ∙ ap (◌++◌ (submitted_bytes a.cmds)) (run-pcm a.conn es)
                ∙ sym (
                    append_assoc (submitted_bytes a.cmds) (submitted_bytes further.1) further.0.pcm)
                ∙ ap (λ p. p ++ further.0.pcm) (sym (submitted_bytes-append a.cmds further.1))
            | close ↦
                ap (λ (fs : List (List ℕ)). c.pcm ++ bytes_of fs) (append-nil (frames_in c e))
                ∙ step-pcm c e
          ]
    where
      a : Advanced F T
      a = step fl json config c e

      further : Conn F T × List Cmd
      further = run fl json config a.conn es
