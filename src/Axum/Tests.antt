-- ===== src/Axum/Tests.antt =====
-- services/rust-axum/src: connections run on concrete events, with a wire that keeps only ranges.
use websocket_stt_bench.Common.{
  ℕ, All, ◌+◌, ◌≤◌, ◌≡◌, refl, arith, String, true, false, none, some, List, [], ◌∷◌, map, length,
  str_eq, ok,
}
use websocket_stt_bench.Common.Float.{unit_floats}
use websocket_stt_bench.Loadgen.Protocol.{frame_payload}
use websocket_stt_bench.Loadgen.Protocol.Payload.{frame_payload_range}
use websocket_stt_bench.Loadgen.Verify.{continuity_start, rms_matches, verify_partial}
use websocket_stt_bench.Loadgen.Verify.Coverage.{Tiles, observe_all, end_of}
use websocket_stt_bench.Gateway.Text.{decimal}
use websocket_stt_bench.InferenceServer.Tests.{limited, default_limit, limited-ExtractsUpTo}
use websocket_stt_bench.InferenceServer.{infer}
use websocket_stt_bench.InferenceServer as Server
use websocket_stt_bench.Axum.Protocol.{PartialMessage, Json}
use websocket_stt_bench.Axum.Inference.{
  Reply, AppContext, Request, body_of, responded, failed, request_partial, make_error,
}
use websocket_stt_bench.Axum.Session.{
  Conn, Event, turn, tick, answered, channel_polled, text, binary, streaming, requesting, new_conn,
  run, step, start_turn, classify_first_message, handle_inbound, flush_tick, partial_channel_depth,
}
use websocket_stt_bench.Axum.Session.Ledger.{Readable, inflight, busy, answers}
use websocket_stt_bench.Axum.Session.Progress.{Serves, Quiet, streaming_progress}
use websocket_stt_bench.Axum.Session.Contract.{ContractStep, step-ContractStep}
use websocket_stt_bench.Axum.Session.Client.{observe_all-run, streaming_conserves}
use websocket_stt_bench.Axum.Session.Content.{DeliversAll}
use websocket_stt_bench.Axum.EndToEnd.{infer_read, partial_read, honest_run}

abbrev ranges_only : Json Unit (ℕ × ℕ)
ranges_only = record {
  is_start = λ t. str_eq t "start";
  write_partial = λ p. some (p.oldest_frame_seq, p.newest_frame_seq);
  write_error = λ e. some (e.oldest_frame_seq, e.newest_frame_seq);
}

abbrev same_range : ℕ × ℕ → ℕ × ℕ
same_range r = r

ranges_only-Readable : Readable ranges_only same_range
ranges_only-Readable = record { partials = λ p. refl; errors = λ e. refl }

abbrev context : AppContext
context = record { cpu_passes = 4; model_delay_ms = 75; flush_interval = 1000000000 }

abbrev no_text : ℕ → String
no_text status = "inference returned status"

-- One frame is received and requested; the request times out; and the error is sent.
abbrev one_frame : List (Event Unit)
one_frame =
    turn true (some (text "start")) 0 0
    ∷ turn true (some (binary (frame_payload 0 1))) 500 0
    ∷ tick 1000000500
    ∷ []

abbrev answered_frame : List (Event Unit)
answered_frame =
    turn true (some (text "start")) 0 0
    ∷ turn true (some (binary (frame_payload 0 1))) 500 0
    ∷ tick 1000000500
    ∷ answered 3000000500 (
        failed
          (record { is_timeout = true; is_connect = false; is_decode = false; text = "timeout" }))
    ∷ channel_polled
    ∷ turn true none 3000000600 0
    ∷ []

abbrev one_request : Request Unit
one_request = record {
  oldest = record { seq = 1; payload = frame_payload 0 1; received_at = 500 };
  others = [];
  flush_lateness_ms = tt;
  started_at = 1000000500;
}

abbrev run_of : List (Event Unit) → Conn Unit (ℕ × ℕ)
run_of es = run unit_floats ranges_only no_text context es new_conn

requested : (run_of one_frame).flusher ≡ requesting one_request
unfolding run step start_turn classify_first_message handle_inbound flush_tick
requested = rw (frame_payload_range 0 1).0 refl

sent_range : (run_of answered_frame).sent ≡ (1, 1) ∷ []
unfolding run step start_turn classify_first_message handle_inbound flush_tick request_partial
    make_error
sent_range = rw (frame_payload_range 0 1).0 refl

still_streaming : (run_of answered_frame).phase ≡ streaming
unfolding run step start_turn classify_first_message handle_inbound flush_tick request_partial
    make_error
still_streaming = rw (frame_payload_range 0 1).0 refl

observe_all-run_example :
    (observe_all continuity_start (map same_range (run_of answered_frame).sent)).1 ≡ []
observe_all-run_example =
    observe_all-run unit_floats ranges_only no_text context same_range ranges_only-Readable
      answered_frame

streaming_conserves_example :
    let y = run_of answered_frame in
    (y.seq
      ≡ end_of 0 (answers same_range y)
        + (length (inflight same_range y.flusher) + length y.buffer))
    × (y.permits + busy same_range y.flusher ≡ 1)
    × (length y.channel ≤ partial_channel_depth)
streaming_conserves_example =
    streaming_conserves unit_floats ranges_only no_text context same_range ranges_only-Readable
      answered_frame still_streaming

close_enough : rms_matches unit_floats tt tt ≡ true
unfolding rms_matches
close_enough = refl

delivered : DeliversAll unit_floats ranges_only no_text context same_range 0 new_conn one_frame
unfolding step start_turn classify_first_message
delivered = (tt, (refl, (tt, tt)))

honest_run_example :
    (x : Server.InferResponse Unit) × (infer unit_floats limited 4 (record {
      header = some (decimal 4);
      body = body_of one_request;
      slot_acquired = true;
      task_ended = true;
    })
      ≡ ok x)
    × (p : PartialMessage Unit) × (request_partial unit_floats no_text context one_request
          1075000500 0
          (responded 200 (ok (infer_read x)))
        ≡ ok p)
    × (verify_partial unit_floats 0
          (partial_read tt p)
          (record { cpu_passes = 4; model_delay_ms = 75 })
        ≡ [])
honest_run_example =
    honest_run unit_floats ranges_only same_range no_text context limited default_limit 0 4
      one_frame one_request 1075000500 0 tt ranges_only-Readable (omega arith) delivered requested
      (omega arith) limited-ExtractsUpTo (omega arith) close_enough

one_frame_streams : (run_of one_frame).phase ≡ streaming
unfolding run step start_turn classify_first_message handle_inbound flush_tick
one_frame_streams = rw (frame_payload_range 0 1).0 refl

abbrev no_connection : Reply Unit
no_connection =
    failed (record { is_timeout = false; is_connect = true; is_decode = false; text = "refused" })

streaming_progress_example :
    let c = run_of one_frame in
    (gs : List (Event Unit)) × All (Serves no_connection) gs
    × Quiet c.seq (run unit_floats ranges_only no_text context gs c)
    × Tiles 0 (map same_range (run unit_floats ranges_only no_text context gs c).sent)
    × (end_of 0 (map same_range (run unit_floats ranges_only no_text context gs c).sent) ≡ c.seq)
streaming_progress_example =
    streaming_progress unit_floats ranges_only no_text context no_connection same_range one_frame
      ranges_only-Readable one_frame_streams

step-ContractStep_example :
    let c = run_of one_frame in
    let d = step unit_floats ranges_only no_text context (answered 5 no_connection) c in
    ContractStep c.seq (map same_range c.sent) d.seq (map same_range d.sent)
step-ContractStep_example =
    step-ContractStep unit_floats ranges_only no_text context same_range ranges_only-Readable
      one_frame (answered 5 no_connection)
