-- ===== src/Gateway/Inference/Pool.antt =====
-- services/rust-sync/src/inference.rs: the pool of keep-alive sockets. What a socket answers while one
-- event is handled is an argument; the interest registered with `mio` is not modelled.
use websocket_stt_bench.Common.{
  ℕ, ◌+◌, ◌-◌, String, Bool, true, false, not, ◌&&◌, Option, none, some, List, [], ◌∷◌, ◌++◌, ltb,
  ◌==◌, if◌then◌else◌, Result, ok, err, length,
}
use websocket_stt_bench.Common.Float.{Float64, millis_f64}
use websocket_stt_bench.Gateway.Config.{Config}
use websocket_stt_bench.Gateway.Protocol.{connection_reset, InferResponse, Json}
use websocket_stt_bench.Gateway.Inference.{InferError, transport_error}
use websocket_stt_bench.Gateway.Inference.Reply.{
  ParseErr, Detail, returned_status, json_error, kind_retryable, Parsed, incomplete, overflows,
  complete, parse_response,
}
use websocket_stt_bench.Gateway.Text.{bytes, encode, decimal}

pub data State : Type 0 where
  disconnected connecting idle : State
  sending : (off : ℕ) → State
  receiving : State

pub record Slot : Type 0 where
  pub sock : Bool
  pub state : State
  pub owner : Option ℕ
  pub tag : ℕ
  pub req : List ℕ
  pub resp : List ℕ
  pub started : ℕ
  pub retried : Bool
  pub dialed : Bool
  pub registered : Bool

-- `Slot::new`
unfoldable pub new_slot : ℕ → Slot
new_slot now = record {
  sock = false;
  state = disconnected;
  owner = none;
  tag = 0;
  req = [];
  resp = [];
  started = now;
  retried = false;
  dialed = false;
  registered = false;
}

unfoldable pub ensure_registered : Slot → Slot
ensure_registered s = record s { dialed = false; registered = s.sock }

unfoldable pub deregister : Slot → Slot
deregister s = record s { registered = false }

-- The request, as `write!` and `extend_from_slice` make it.
unfoldable pub request : Config → List ℕ → ℕ → List ℕ
request config body cpu_passes =
    bytes "POST "
    ++ encode config.inference_path
    ++ bytes " HTTP/1.1\r\nHost: "
    ++ encode config.inference_host
    ++ bytes "\r\nx-cpu-passes: "
    ++ decimal cpu_passes
    ++ bytes "\r\nContent-Length: "
    ++ decimal (length body)
    ++ bytes "\r\nConnection: keep-alive\r\n\r\n"
    ++ body

unfoldable pub build : Slot → Config → List ℕ → ℕ → ℕ → Slot
unfolding request
build s config body cpu_passes now = record s {
  started = now;
  retried = false;
  resp = [];
  req = request config body cpu_passes;
}

-- `dial` where the connect can be started; a connect that fails at once leaves the slot alone.
unfoldable pub dial : Slot → Slot
dial s = record s { sock = true; state = connecting; dialed = true }

-- What a socket answers: `take_error` and `peer_addr`, one `write`, one `read`.
pub data Connect : Type 0 where
  connected in_progress : Connect
  connect_failed : String → Connect

pub data Write : Type 0 where
  wrote : ℕ → Write
  write_blocked write_interrupted : Write
  write_failed : String → Write

pub data Read : Type 0 where
  chunk : List ℕ → Read
  read_blocked read_interrupted : Read
  read_failed : String → Read

-- What one event finds: `closed` is that the probe reads an end of file; the texts of two errors that
-- `io::ErrorKind` has; `redial` is that a new connect can be started.
pub record SlotIo : Type 0 where
  pub connect : Connect
  pub writes : List Write
  pub reads : List Read
  pub closed : Bool
  pub write_zero : String
  pub unexpected_eof : String
  pub redial : Bool
  pub now : ℕ

-- `io::Result<Step>` of `run`; `panicked` is the `expect` on a missing socket, and the overflow.
pub data Ran (F : Type 0) : Type 0 where
  pending : Ran F
  finished : Result (InferResponse F) (InferError F) → Ran F
  io_error : String → Ran F
  panicked : Ran F

pub data Step (F : Type 0) : Type 0 where
  step_pending redial : Step F
  step_done : Result (InferResponse F) (InferError F) → Step F
  step_panicked : Step F

-- The inner loop of `Sending`: how far it got and whether it goes on.
pub data Written : Type 0 where
  all_written : Written
  stopped_at : ℕ → Written
  broke : String → Written

unfoldable pub write_all : ℕ → String → ℕ → List Write → Written
write_all size write_zero off [] = if ltb off size then stopped_at off else all_written
write_all size write_zero off (write_blocked ∷ ws) =
    if ltb off size then stopped_at off else all_written
write_all size write_zero off (write_interrupted ∷ ws) = write_all size write_zero off ws
write_all size write_zero off (write_failed e ∷ ws) = if ltb off size then broke e else all_written
write_all size write_zero off (wrote n ∷ ws) =
    let further = write_all size write_zero (off + n) ws in
    if not (ltb off size) then all_written else if n == 0 then broke write_zero else further

-- The inner loop of `Receiving`.
unfoldable pub read_all : List ℕ → String → List Read → List ℕ × Option String
read_all resp eof [] = (resp, none)
read_all resp eof (read_blocked ∷ rs) = (resp, none)
read_all resp eof (read_interrupted ∷ rs) = read_all resp eof rs
read_all resp eof (read_failed e ∷ rs) = (resp, some e)
read_all resp eof (chunk [] ∷ rs) = (resp, some eof)
read_all resp eof (chunk (b ∷ bs) ∷ rs) = read_all (resp ++ b ∷ bs) eof rs

module _ {F T : Type 0} (fl : Float64 F) (json : Json F T) (status_text : ℕ → String) where
  -- `status_text` is the format of a returned status.
  abbrev pub message_of : Detail → String
  message_of (returned_status n) = status_text n
  message_of (json_error e) = e

  unfoldable pub error_from : ParseErr → F → InferError F
  error_from e elapsed_ms = record {
    stage = e.stage;
    kind = e.kind;
    message = message_of e.message;
    status = e.status;
    retryable = kind_retryable e.kind;
    elapsed_ms = elapsed_ms;
  }

  abbrev pub finish_reply : Slot → Parsed F → F → Slot × Ran F
  finish_reply s incomplete elapsed_ms = (s, pending)
  finish_reply s overflows elapsed_ms = (s, panicked)
  finish_reply s (complete (ok infer)) elapsed_ms = (record s { state = idle }, finished (ok infer))
  finish_reply s (complete (err e)) elapsed_ms =
      (record s { state = idle }, finished (err (error_from e elapsed_ms)))

  abbrev pub after_read : Slot → List ℕ × Option String → ℕ → Slot × Ran F
  after_read s (resp, some e) now = (record s { resp = resp }, io_error e)
  after_read s (resp, none) now =
      finish_reply (record s { resp = resp }) (parse_response json resp)
        (millis_f64 fl (now - s.started))

  unfoldable pub run_receiving : Slot → SlotIo → Slot × Ran F
  unfolding error_from
  run_receiving s io = after_read s (read_all s.resp io.unexpected_eof io.reads) io.now

  abbrev pub after_write : Slot → Written → SlotIo → Slot × Ran F
  after_write s all_written io = run_receiving (record s { state = receiving }) io
  after_write s (stopped_at off) io = (record s { state = sending off }, pending)
  after_write s (broke e) io = (s, io_error e)

  unfoldable pub run_sending : Slot → ℕ → SlotIo → Slot × Ran F
  unfolding run_receiving
  run_sending s off io = after_write s (write_all (length s.req) io.write_zero off io.writes) io

  unfoldable pub run_connecting : Slot → Connect → SlotIo → Slot × Ran F
  unfolding run_sending
  run_connecting s connected io = run_sending (record s { state = sending 0 }) 0 io
  run_connecting s in_progress io = (s, pending)
  run_connecting s (connect_failed e) io = (s, io_error e)

  -- `run`: a state that needs the socket panics without one.
  unfoldable pub run_state : Slot → State → Bool → Bool → SlotIo → Slot × Ran F
  unfolding run_connecting
  run_state s disconnected has writable io = (s, pending)
  run_state s idle true false io =
      (if io.closed then record s { sock = false; state = disconnected } else s, pending)
  run_state s idle true true io = (s, pending)
  run_state s idle false true io = (s, pending)
  run_state s idle false false io = (s, panicked)
  run_state s connecting true writable io = run_connecting s io.connect io
  run_state s connecting false writable io = (s, panicked)
  run_state s (sending off) true writable io = run_sending s off io
  run_state s (sending off) false writable io = (s, panicked)
  run_state s receiving true writable io = run_receiving s io
  run_state s receiving false writable io = (s, panicked)

  unfoldable pub retry_or_fail : Slot → String → ℕ → Slot × Step F
  retry_or_fail s e now =
      if not s.retried && s.sock
      then (record s { retried = true; resp = []; state = sending 0; sock = false }, redial)
      else (
        record s { sock = false; state = disconnected },
        step_done (err (transport_error connection_reset e (millis_f64 fl (now - s.started)))),
      )

  abbrev pub settle : Slot × Ran F → ℕ → Slot × Step F
  settle (s, pending) now = (s, step_pending)
  settle (s, finished r) now = (s, step_done r)
  settle (s, io_error e) now = retry_or_fail s e now
  settle (s, panicked) now = (s, step_panicked)

  unfoldable pub drive : Slot → Bool → SlotIo → Slot × Step F
  unfolding run_state retry_or_fail
  drive s writable io = settle (run_state s s.state s.sock writable io) io.now
