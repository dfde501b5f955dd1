-- ===== src/Gateway/Tick/Tests.antt =====
-- services/rust-sync/src/session.rs and main.rs: a session run on concrete events, with a wire that
-- keeps the messages themselves in place of JSON.
use mathlib.Core.List
use websocket_stt_bench.Common.{
  ℕ, zero, suc, ◌≡◌, refl, arith, true, false, none, some, List, [], ◌∷◌, ◌++◌, ◌+◌, ◌*◌, length,
  str_eq, ok,
}
use websocket_stt_bench.Common.Float.{unit_floats}
use websocket_stt_bench.Gateway.Text.{chars}
use websocket_stt_bench.Gateway.Config.{Config, frame_bytes}
use websocket_stt_bench.Gateway.Protocol.{InferResponse, Json}
use websocket_stt_bench.Gateway.Session.{
  Conn, new, web_socket, need_more, received, would_block, text_message, binary, flushed, keep,
  on_done, on_ready, on_timer, begin_pending,
}
use websocket_stt_bench.Gateway.Wire.{RoundTrip, as_partial, as_error}
use websocket_stt_bench.Loadgen.Protocol.{ServerMessage, partial, error}
use websocket_stt_bench.Loadgen.Verify.{continuity_start, observe}
use websocket_stt_bench.Loadgen.Verify.Coverage.{observe_all}
use websocket_stt_bench.Gateway.Tick.{Event, ready, done, timer, run}
use websocket_stt_bench.Gateway.Tick.Answers.{submitted, awaited}
use websocket_stt_bench.Gateway.Tick.Content.{bytes_of, submitted_bytes, frames_run}
use websocket_stt_bench.Gateway.Tick.Ledger.{reported}
use websocket_stt_bench.Gateway.Tick.Sessions.{
  frames_held, run_contiguous, run_answers, run_conserves, late_result_dropped,
}

abbrev codec : Json Unit (ServerMessage Unit)
codec = record {
  is_start = λ t. str_eq t "start";
  write_partial = λ m. some (partial (as_partial m));
  write_error = λ m. some (error (as_error m));
  read_infer = λ bytes. none;
  read_infer_error = λ bytes. "";
}

codec_wire : RoundTrip codec some
codec_wire = record {
  partial_back = λ m tag. (partial (as_partial m), refl, as_partial m, refl, refl, refl);
  error_back = λ m tag. (error (as_error m), refl, as_error m, refl, refl, refl);
}

abbrev config : Config
config = record {
  port = 10000;
  inference_host = chars "inference-server";
  inference_port = 9000;
  inference_path = chars "/infer";
  inference_clients = 1;
  cpu_passes = 4;
  model_delay_ms = 75;
  flush_interval = 1000000000;
  flush_phase_jitter = 0;
}

abbrev zeros : ℕ → List ℕ
zeros zero = []
zeros (suc n) = 0 ∷ zeros n

abbrev answer : InferResponse Unit
answer = record {
  rms = tt;
  zero_crossings = 0;
  checksum = 7;
  samples = 320;
  transcript = "go";
  audio_bytes = 640;
}

abbrev upgrade : Event Unit
upgrade =
    ready true false (record { head = []; route = some web_socket; reads = []; flush = flushed })

-- Start and two frames, a flush that is answered, a third frame, and a flush that times out.
abbrev events : List (Event Unit)
events =
    upgrade
    ∷ ready true false (record {
      head = [];
      route = some need_more;
      reads =
          (10, received (text_message "start"))
          ∷ (11, received (binary (zeros 640)))
          ∷ (12, received (binary (zeros 640)))
          ∷ (13, would_block)
          ∷ [];
      flush = flushed;
    })
    ∷ timer 1000000000 flushed
    ∷ done 1 (ok answer) 1000000100 flushed
    ∷ ready true false (record {
      head = [];
      route = some need_more;
      reads = (1000000200, received (binary (zeros 640))) ∷ [];
      flush = flushed;
    })
    ∷ timer 2000000000 flushed
    ∷ timer 4000000000 flushed
    ∷ []

abbrev ended : Conn Unit (ServerMessage Unit)
ended = (run unit_floats codec config (new 2 0 0 config) events).0

reported_test : reported some ended.ws ≡ (1, 2) ∷ (3, 3) ∷ []
unfolding new run on_ready on_timer on_done begin_pending
reported_test = refl

run_contiguous_example : (observe_all continuity_start (reported some ended.ws)).1 ≡ []
run_contiguous_example = run_contiguous unit_floats codec config some codec_wire 2 0 0 events

run_answers_example :
    submitted (run unit_floats codec config (new 2 0 0 config) events).1
    ≡ List.map (λ r. r.0) (reported some ended.ws) ++ awaited ended.pending
run_answers_example = run_answers unit_floats codec config some codec_wire 2 0 0 events

run_conserves_example :
    (ended.seq
      ≡ (observe_all continuity_start (reported some ended.ws)).0.last_newest
        + frames_held ended.pending
        + length ended.meta)
    × (length ended.pcm ≡ length ended.meta * frame_bytes)
    × (bytes_of (frames_run unit_floats codec config (new 2 0 0 config) events)
        ≡ submitted_bytes (run unit_floats codec config (new 2 0 0 config) events).1 ++ ended.pcm)
run_conserves_example = run_conserves unit_floats codec config some codec_wire 2 0 0 events

last_test : (observe_all continuity_start (reported some ended.ws)).0.last_newest ≡ 3
unfolding new run observe_all on_ready on_timer on_done begin_pending observe
last_test = refl

late_result_dropped_example :
    on_done unit_floats codec ended 3 (ok answer) 4000000500 config flushed ≡ (ended, keep)
late_result_dropped_example =
    late_result_dropped unit_floats codec config some codec_wire 2 0 0 events 3 (ok answer)
      4000000500 flushed (omega (arith, last_test))
