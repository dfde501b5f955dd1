-- ===== src/Gateway/Round/Tests.antt =====
-- services/rust-sync/src/main.rs: rounds of the loop with two connections. One streams a frame, which is
-- flushed and never answered; the other is closed by its client.
use websocket_stt_bench.Common.{
  ℕ, zero, suc, ◌-◌, ◌≤◌, ◌≡◌, refl, arith, true, false, none, some, List, [], ◌∷◌,
}
use websocket_stt_bench.Common.Float.{unit_floats}
use websocket_stt_bench.Gateway.Text.{chars}
use websocket_stt_bench.Gateway.Config.{Config}
use websocket_stt_bench.Gateway.Protocol.{Json}
use websocket_stt_bench.Gateway.Inference.{Cmd, abort}
use websocket_stt_bench.Gateway.Session.{
  Conn, new, on_ready, on_timer, begin_pending, deliver, web_socket, need_more, received,
  would_block, text_message, binary, close_message, flushed, deadline,
}
use websocket_stt_bench.Gateway.Loop.{Loop, stream, accept_ended, accept, new_loop}
use websocket_stt_bench.Gateway.Round.{
  poll_timeout, Wake, listening, socket, Round, find, rounds, round,
}
use websocket_stt_bench.Gateway.Round.Timers.{HasTimer}
use websocket_stt_bench.Gateway.Round.Deadlines.{rounds_wake_in_time}

abbrev codec : Json Unit Unit
codec = record {
  is_start = λ t. true;
  write_partial = λ m. some tt;
  write_error = λ m. some tt;
  read_infer = λ bytes. none;
  read_infer_error = λ bytes. "";
}

abbrev config : Config
config = record {
  port = 10000;
  inference_host = chars "inference-server";
  inference_port = 9000;
  inference_path = chars "/infer";
  inference_clients = 2;
  cpu_passes = 4;
  model_delay_ms = 75;
  flush_interval = 1000000000;
  flush_phase_jitter = 0;
}

abbrev zeros : ℕ → List ℕ
zeros zero = []
zeros (suc n) = 0 ∷ zeros n

abbrev upgrade : ℕ → Wake Unit
upgrade id =
    socket id true false
      (record { head = []; route = some web_socket; reads = []; flush = flushed })

abbrev one_frame : Wake Unit
one_frame = socket 2 true false (record {
  head = [];
  route = some need_more;
  reads =
      (3, received (text_message "start"))
      ∷ (4, received (binary (zeros 640)))
      ∷ (5, would_block)
      ∷ [];
  flush = flushed;
})

abbrev closed : Wake Unit
closed = socket 3 true false (record {
  head = [];
  route = some need_more;
  reads = (6, received close_message) ∷ [];
  flush = flushed;
})

-- Both connect; the first streams; at its first flush the second closes.
abbrev earlier_rounds : List (Round Unit)
earlier_rounds =
    record {
      wakes =
          listening (stream true 0 0 ∷ stream true 1 0 ∷ accept_ended ∷ [])
          ∷ upgrade 2
          ∷ upgrade 3
          ∷ [];
      now = 2;
      flushes = λ i. flushed;
    }
    ∷ record { wakes = one_frame ∷ []; now = 5; flushes = λ i. flushed }
    ∷ record { wakes = closed ∷ []; now = 1000000000; flushes = λ i. flushed }
    ∷ []

-- The server does not answer in time, and the loop woke late: the timeout and two flushes are due.
abbrev late_round : Round Unit
late_round = record { wakes = []; now = 3500000000; flushes = λ i. flushed }

rounds_wake_in_time_example :
    (l : Loop Unit Unit) × (rounds unit_floats codec config new_loop earlier_rounds ≡ some l)
    × ((i : ℕ) (c : Conn Unit Unit) (now : ℕ)
        → find i l.conns ≡ some c
        → HasTimer l i c × (poll_timeout l.timers now ≤ deadline c - now))
rounds_wake_in_time_example =
    rounds_wake_in_time unit_floats codec config (omega arith) earlier_rounds

abbrev cmds_of : List (Round Unit) → List Cmd
cmds_of rs = elim (rounds unit_floats codec config new_loop rs) [
  | none ↦ []
  | some l ↦ elim (round unit_floats codec config l late_round) [
    | none ↦ []
    | some (l', cmds) ↦ cmds
  ]
]

-- The late round aborts the request that timed out, for the connection that is left.
late_cmds : cmds_of earlier_rounds ≡ abort 2 ∷ []
unfolding rounds round new_loop accept new deadline on_ready on_timer begin_pending deliver
late_cmds = refl
