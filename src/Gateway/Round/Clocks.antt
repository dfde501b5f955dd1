-- ===== src/Gateway/Round/Clocks.antt =====
-- services/rust-sync/src/session.rs: what each handler of a connection does to its deadline.
use websocket_stt_bench.Common.{
  ℕ, ◌+◌, ◌-◌, ◌≤◌, ◌<◌, ◌≡◌, refl, sym, ap, subst, ◌∙◌, arith, String, Bool, Option, none, some,
  List, [], ◌∷◌, ltb, leb, ◌==◌, if_cases, ltb→lt, Result, min, err,
}
use websocket_stt_bench.Common.Float.{Float64, millis_f64}
use websocket_stt_bench.Gateway.Config.{Config, inference_timeout}
use websocket_stt_bench.Gateway.Protocol.{InferResponse, Json}
use websocket_stt_bench.Gateway.Inference.{InferError, timeout_error}
use websocket_stt_bench.Gateway.Session.{
  FrameMeta, Pending, Conn, Tick, Flush, Outcome, Io, tag, deadline, make_batch, begin_pending, due,
  flush_due, check_timeout, on_timer, write_response, deliver_to, deliver, match_tag, on_done,
  on_ready,
}
use websocket_stt_bench.Gateway.Session.Cases.{clock, flush_ws-clock, on_ready-clock}
use websocket_stt_bench.Gateway.Tick.{act, tick_conn}
use websocket_stt_bench.Gateway.Round.{overdue}

abbrev pub due_at : {F : Type 0} → Option (Pending F) × ℕ → ℕ
due_at (none, n) = n
due_at (some p, n) = min (p.started + inference_timeout) n

abbrev owed_at : {F : Type 0} → Option (Pending F) × ℕ → ℕ → ℕ
owed_at k now = (now + 1 - k.1) + overdue k.0 now

-- One firing at `now` leaves less to do at `now`, or a deadline behind it.
abbrev pub Calms : {F : Type 0} → ℕ → Option (Pending F) × ℕ → Option (Pending F) × ℕ → Type 0
Calms now k k' =
    (owed_at k' now ≤ owed_at k now) × (due_at k' ≤ now → owed_at k' now < owed_at k now)

due_at-none : {F : Type 0} (o : Option (Pending F)) (n : ℕ) → due_at (o, n) ≤ n
due_at-none none n = omega arith
due_at-none (some p) n = omega arith

due_at-calm :
    {F : Type 0} (o : Option (Pending F)) (n now : ℕ)
    → overdue o now ≡ 0
    → now < n
    → now < due_at (o, n)
due_at-calm none n now calm h = h
due_at-calm (some p) n now calm h = ground arith

module _ {F T : Type 0} where
  pub deadline-clock : (c : Conn F T) → deadline c ≡ due_at (clock c)
  unfolding deadline
  deadline-clock c = by_pending c.pending
    where
      by_pending :
          (o : Option (Pending F))
          → elim o [
            | none ↦ c.next_flush
            | some p ↦ min (p.started + inference_timeout) c.next_flush
          ]
            ≡ due_at (o, c.next_flush)
      by_pending none = refl
      by_pending (some p) = refl

  pub on_ready-deadline :
      (is_start : String → Bool) (c : Conn F T) (can_read can_write : Bool) (io : Io)
      → deadline (on_ready is_start c can_read can_write io).0 ≡ deadline c
  on_ready-deadline is_start c can_read can_write io =
      deadline-clock (on_ready is_start c can_read can_write io).0
      ∙ ap due_at (on_ready-clock is_start c can_read can_write io)
      ∙ sym (deadline-clock c)

module _ {F T : Type 0} (fl : Float64 F) (json : Json F T) (config : Config) where
  write_response-clock :
      (c : Conn F T) (o : Option T) (r : Flush) → clock (write_response fl json c o r).0 ≡ clock c
  unfolding write_response
  write_response-clock c none r = refl
  write_response-clock c (some t) r = flush_ws-clock json.is_start _ r

  deliver_to-clock :
      (o : Option (Pending F)) (c : Conn F T) (result : Result (InferResponse F) (InferError F))
      (now : ℕ) (r : Flush)
      → c.pending ≡ o
      → clock (deliver_to fl json o c result now config r).0 ≡ (none, c.next_flush)
  unfolding deliver_to
  deliver_to-clock none c result now r e = ap (λ (o : Option (Pending F)). (o, c.next_flush)) e
  deliver_to-clock (some p) c result now r e =
      write_response-clock (record c { pending = none }) _ r

  -- A result never brings the deadline forward.
  pub on_done-deadline :
      (c : Conn F T) (t : ℕ) (result : Result (InferResponse F) (InferError F)) (now : ℕ)
      (r : Flush)
      → deadline c ≤ deadline (on_done fl json c t result now config r).0
  unfolding on_done match_tag deliver
  on_done-deadline c t result now r = by_pending c.pending refl
    where
      delivered : deadline c ≤ deadline (deliver_to fl json c.pending c result now config r).0
      delivered =
          rw (deadline-clock c) rw
            (deadline-clock (deliver_to fl json c.pending c result now config r).0) rw
            (deliver_to-clock c.pending c result now r refl) (due_at-none c.pending c.next_flush)

      by_pending :
          (o : Option (Pending F))
          → c.pending ≡ o
          → deadline c ≤ deadline (match_tag fl json o c t result now config r).0
      by_pending none e = omega arith
      by_pending (some p) e =
          if_cases {A = Conn F T × Outcome} (λ d. deadline c ≤ deadline d.0) (tag p.batch == t)
            (λ on. delivered) (λ off. omega arith)

  due-Calms :
      (o : Option (Pending F)) (ms : List FrameMeta) (c : Conn F T) (lateness : F) (now : ℕ)
      (r : Flush)
      → 0 < config.flush_interval
      → c.pending ≡ o
      → overdue o now ≡ 0
      → c.next_flush ≤ now
      → Calms now (clock c) (
          clock
            (act fl json config
              (record c { next_flush = c.next_flush + config.flush_interval })
              (due fl o ms c lateness)
              now
              r).conn)
  unfolding due act begin_pending make_batch
  due-Calms (some p) ms c lateness now r pos e calm late = omega arith
  due-Calms none [] c lateness now r pos e calm late = omega arith
  due-Calms none (first ∷ rest) c lateness now r pos e calm late = ground arith

  flush_due-Calms :
      (c : Conn F T) (now : ℕ) (r : Flush)
      → 0 < config.flush_interval
      → overdue c.pending now ≡ 0
      → let (c', t) = flush_due fl c now config in
        Calms now (clock c) (clock (act fl json config c' t now r).conn)
  unfolding flush_due act
  flush_due-Calms c now r pos calm =
      if_cases {A = Conn F T × Tick F}
        (λ d. Calms now (clock c) (clock (act fl json config d.0 d.1 now r).conn))
        (ltb now c.next_flush)
        (λ on. (
          omega arith,
          λ h.
              absurd
                (omega (arith, h, due_at-calm c.pending c.next_flush now calm (ltb→lt _ _ on))),
        ))
        (λ off.
          due-Calms c.pending c.meta c (millis_f64 fl (now - c.next_flush)) now r pos refl calm
            (ground (arith, off)))

  check_timeout-Calms :
      (o : Option (Pending F)) (c : Conn F T) (now : ℕ) (r : Flush)
      → 0 < config.flush_interval
      → c.pending ≡ o
      → let (c', t) = check_timeout fl o c now config in
        Calms now (clock c) (clock (act fl json config c' t now r).conn)
  unfolding check_timeout act deliver
  check_timeout-Calms none c now r pos e = flush_due-Calms c now r pos (rw e refl)
  check_timeout-Calms (some p) c now r pos e =
      if_cases {A = Conn F T × Tick F}
        (λ d. Calms now (clock c) (clock (act fl json config d.0 d.1 now r).conn))
        (leb (p.started + inference_timeout) now)
        (λ on.
          subst (Calms now (clock c))
            (sym (
              deliver_to-clock c.pending c (err (timeout_error (millis_f64 fl (now - p.started))))
                now r refl))
            (rw e (rw on (omega arith, λ h. omega arith))))
        (λ off. flush_due-Calms c now r pos (rw e (rw off refl)))

  -- A firing leaves less to do at its instant.
  pub tick_conn-Calms :
      (c : Conn F T) (now : ℕ) (r : Flush)
      → 0 < config.flush_interval
      → Calms now (clock c) (clock (tick_conn fl json config c now r).conn)
  unfolding tick_conn on_timer
  tick_conn-Calms c now r pos = check_timeout-Calms c.pending c now r pos refl
