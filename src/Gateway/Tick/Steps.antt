-- ===== src/Gateway/Tick/Steps.antt =====
-- services/rust-sync/src/main.rs: every step of a connection keeps the ledger, whatever the event.
use websocket_stt_bench.Common.{
  ℕ, ◌+◌, ◌-◌, ◌≡◌, refl, sym, ap, subst, ◌∙◌, Bool, true, false, Option, none, some, List, [], ◌∷◌,
  length, append-nil, if◌then◌else◌, ltb, leb, Result, err, ◌==◌,
}
use websocket_stt_bench.Common.Float.{Float64, millis_f64}
use websocket_stt_bench.Gateway.Config.{Config, inference_timeout}
use websocket_stt_bench.Gateway.Protocol.{InferResponse, Json}
use websocket_stt_bench.Gateway.Inference.{abort, InferError, timeout_error}
use websocket_stt_bench.Gateway.Session.{
  FrameMeta, Pending, Conn, Flush, keep, Tick, idle, expired, tag, make_batch, begin_pending, due,
  flush_due, check_timeout, on_timer, deliver_to, deliver, match_tag, on_done, Io, on_ready,
}
use websocket_stt_bench.Gateway.Wire.{RoundTrip}
use websocket_stt_bench.Gateway.Session.Cases.{on_ready-pending}
use websocket_stt_bench.Loadgen.Protocol.{ServerMessage}
use websocket_stt_bench.Gateway.Tick.{Event, ready, done, timer, act, tick_conn, step, advanced}
use websocket_stt_bench.Gateway.Tick.Accounting.{on_ready-Ledger}
use websocket_stt_bench.Gateway.Tick.Ledger.{books, IsAccounted, Ledger}
use websocket_stt_bench.Gateway.Tick.Answers.{
  Advances, Advances-idle, begin-IsAccounted, deliver_to-Advances,
}

module _ {F T : Type 0} (fl : Float64 F) (json : Json F T) (config : Config)
    (from_str : T → Option (ServerMessage F)) (wire : RoundTrip json from_str) where
  match_tag-Advances :
      (rs : List (ℕ × ℕ)) (c : Conn F T) (o : Option (Pending F)) (t : ℕ)
      (result : Result (InferResponse F) (InferError F)) (now : ℕ) (r : Flush)
      → c.pending ≡ o
      → Ledger from_str rs (books c)
      → Advances fl json config from_str wire rs c.pending
          (advanced (match_tag fl json o c t result now config r))
  unfolding match_tag deliver
  match_tag-Advances rs c none t result now r e v =
      Advances-idle fl json config from_str wire rs (record { conn = c; cmds = []; outcome = keep })
        refl v
  match_tag-Advances rs c (some p) t result now r e v =
      elim (tag p.batch == t)
        as (λ b. Advances fl json config from_str wire rs c.pending (
          advanced (if b then deliver_to fl json c.pending c result now config r else (c, keep)))) [
            | true ↦
                deliver_to-Advances fl json config from_str wire rs c c.pending result now r [] refl
                  refl v
            | false ↦
                Advances-idle fl json config from_str wire rs
                  (record { conn = c; cmds = []; outcome = keep }) refl v
          ]

  -- Whatever the timer decides is carried out within the ledger.
  due-Advances :
      (rs : List (ℕ × ℕ)) (c : Conn F T) (o : Option (Pending F)) (ms : List FrameMeta)
      (lateness : F) (n now : ℕ) (r : Flush)
      → c.pending ≡ o
      → c.meta ≡ ms
      → Ledger from_str rs (books c)
      → Advances fl json config from_str wire rs c.pending
          (act fl json config (record c { next_flush = n }) (due fl o ms c lateness) now r)
  unfolding due act begin_pending make_batch
  due-Advances rs c (some p) ms lateness n now r e em v =
      Advances-idle fl json config from_str wire rs
        (record { conn = record c { next_flush = n }; cmds = []; outcome = keep }) refl
        (record { reports = v.reports; accounts = v.accounts })
  due-Advances rs c none [] lateness n now r e em v =
      Advances-idle fl json config from_str wire rs
        (record { conn = record c { next_flush = n }; cmds = []; outcome = keep }) refl
        (record { reports = v.reports; accounts = v.accounts })
  due-Advances rs c none (first ∷ rest) lateness n now r e em v = record {
    reports = [];
    ledger = record {
      reports = v.reports ∙ sym (append-nil rs);
      accounts = rw (append-nil rs) (
          begin-IsAccounted fl json config from_str wire rs c.ws c.pcm c.seq first rest
            (record { batch = make_batch c first rest lateness; started = now }) refl refl
            (ap length em) refl
            (subst
              (λ ms.
                IsAccounted {F = F} {T = T} rs
                  (record { ws = c.ws; pending = none; pcm = c.pcm; meta = ms; seq = c.seq }))
              em
              (subst
                (λ o.
                  IsAccounted {F = F} {T = T} rs
                    (record { ws = c.ws; pending = o; pcm = c.pcm; meta = c.meta; seq = c.seq }))
                e v.accounts)));
    };
    balance = rw e refl;
  }

  flush_due-Advances :
      (rs : List (ℕ × ℕ)) (c : Conn F T) (now : ℕ) (r : Flush)
      → Ledger from_str rs (books c)
      → let (c', t) = flush_due fl c now config in
        Advances fl json config from_str wire rs c.pending (act fl json config c' t now r)
  unfolding flush_due act
  flush_due-Advances rs c now r v =
      elim (ltb now c.next_flush)
        as (λ b.
          let (c', t) =
            if◌then◌else◌ {A = Conn F T × Tick F} b (c, idle)
              (
                record c { next_flush = c.next_flush + config.flush_interval },
                due fl c.pending c.meta c (millis_f64 fl (now - c.next_flush)),
              ) in
          Advances fl json config from_str wire rs c.pending (act fl json config c' t now r)) [
            | true ↦
                Advances-idle fl json config from_str wire rs
                  (record { conn = c; cmds = []; outcome = keep }) refl v
            | false ↦
                due-Advances rs c c.pending c.meta (millis_f64 fl (now - c.next_flush))
                  (c.next_flush + config.flush_interval) now r refl refl v
          ]

  check_timeout-Advances :
      (rs : List (ℕ × ℕ)) (c : Conn F T) (o : Option (Pending F)) (now : ℕ) (r : Flush)
      → Ledger from_str rs (books c)
      → let (c', t) = check_timeout fl o c now config in
        Advances fl json config from_str wire rs c.pending (act fl json config c' t now r)
  unfolding check_timeout act deliver
  check_timeout-Advances rs c none now r v = flush_due-Advances rs c now r v
  check_timeout-Advances rs c (some p) now r v =
      elim (leb (p.started + inference_timeout) now)
        as (λ b.
          let (c', t) =
            if◌then◌else◌ {A = Conn F T × Tick F} b (c, expired (millis_f64 fl (now - p.started)))
              (flush_due fl c now config) in
          Advances fl json config from_str wire rs c.pending (act fl json config c' t now r)) [
            | true ↦
                deliver_to-Advances fl json config from_str wire rs c c.pending
                  (err (timeout_error (millis_f64 fl (now - p.started)))) now r (abort c.id ∷ [])
                  refl refl v
            | false ↦ flush_due-Advances rs c now r v
          ]

  -- Reading and writing leave the batch in flight alone.
  on_ready-Advances :
      (rs : List (ℕ × ℕ)) (c : Conn F T) (can_read can_write : Bool) (io : Io)
      → Ledger from_str rs (books c)
      → Advances fl json config from_str wire rs c.pending
          (advanced (on_ready json.is_start c can_read can_write io))
  on_ready-Advances rs c can_read can_write io v =
      subst
        (λ o.
          Advances fl json config from_str wire rs o
            (advanced (on_ready json.is_start c can_read can_write io)))
        (on_ready-pending json.is_start c can_read can_write io)
        (Advances-idle fl json config from_str wire rs
          (advanced (on_ready json.is_start c can_read can_write io)) refl
          (on_ready-Ledger from_str json.is_start rs c can_read can_write io v))

  pub step-Advances :
      (rs : List (ℕ × ℕ)) (c : Conn F T) (e : Event F)
      → Ledger from_str rs (books c)
      → Advances fl json config from_str wire rs c.pending (step fl json config c e)
  unfolding step tick_conn on_timer on_done
  step-Advances rs c (ready can_read can_write io) v =
      on_ready-Advances rs c can_read can_write io v
  step-Advances rs c (done t result now r) v =
      match_tag-Advances rs c c.pending t result now r refl v
  step-Advances rs c (timer now r) v = check_timeout-Advances rs c c.pending now r v
