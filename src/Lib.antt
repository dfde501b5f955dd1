-- ===== src/Lib.antt =====
-- A verification library for the Rust code of the streaming speech-to-text benchmark: the deterministic
-- stub, the load generator with its payloads, checks and counters, the evented and the asynchronous
-- gateway, and the inference server's handler.
--
-- The program. The load generator (loadgen/rust) opens WebSocket sessions with a gateway, sends PCM frames
-- of 640 bytes that `frame_payload` makes from the session and frame number, and checks every response:
-- the range of frames it reports must continue the last one (`Continuity::observe`), and its values must
-- be those of the stub over exactly these frames (`verify_partial`). The gateway (services/rust-sync)
-- buffers the frames of each connection, hands the buffer to an inference thread once an interval, with at
-- most one batch in flight, and writes one response for each batch: a partial, or an error after a failure
-- or a timeout of two seconds. The inference thread sends each batch to the inference server over a pool of
-- keep-alive sockets. The asynchronous gateway (services/rust-axum) does the same with two tasks for each
-- connection, which share a buffer, a semaphore of one permit and a channel of four texts. The server
-- (services/inference-server) runs the stub (crates/stt-stub). The load generator's driver counts what its
-- sessions find and lets a verifier thread, behind a bounded queue, recompute the values.
--
-- Files and code:
--   Common      native integers, floats as a parameter, lists, xor and shifts; no code of the repository.
--   Stub        crates/stt-stub/src/lib.rs. Bounds: ranges and counts; Detect: what the checksum detects.
--   Loadgen/Protocol    loadgen/rust/src/protocol.rs: messages, `validate`, `mix64`, `frame_payload`.
--   Loadgen/Verify      loadgen/rust/src/verify.rs. Values: `verify_partial`; Coverage: `observe`, `check_tail`.
--   Loadgen/Driver      loadgen/rust/src/main.rs. Receive: `process_inbound`, `submit_verify` and the verifier;
--                       System: all sessions and the verifier interleaved, Verdict: what a clean run shows;
--                       Correctness and Outcomes: the counters; Task: `run_session` with its two loops; Send: the
--                       timer of its send loop; Schedule: the start delays; Samples: the rows of the sample file.
--   Loadgen/Conformance loadgen/rust/src/bin/stt-conformance.rs. Replies and Cases: the cases, on what their sockets
--                       give; Paced, Cadence and Schema: what they find out; Service and Verdict: `run_service`,
--                       `main`, and what a service has done that passes.
--   Loadgen/Bench       loadgen/rust/src/inferbench.rs and bin/stt-inferbench.rs: the summary, the payload;
--                       Loops: the request loops as steps of their tasks (Ends, Outcome).
--   Axum                services/rust-axum/src. Session: `handle_socket`, `handle_inbound` and `flush_loop` as
--                       steps of one connection (Ledger and Steps have the invariant, Content what the frames
--                       hold, Contract the abstract view); Inference: `request_partial`; Config: settings;
--                       EndToEnd: gateway, inference server and load generator together.
--   InferenceServer     services/inference-server/src/main.rs: `infer`, `sample_latency`.
--   Gateway/Config, Gateway/Protocol   services/rust-sync/src/config.rs and protocol.rs: settings, wire types.
--   Gateway/Session     services/rust-sync/src/session.rs: `Conn` and its operations, each under its name.
--   Gateway/Tick        services/rust-sync/src/main.rs: the arms of the loop that advance one connection, and
--                       runs of a connection. Ledger, Accounting and Answers have the invariant, Content the bytes.
--   Gateway/Loop         services/rust-sync/src/main.rs: tokens, `accept` and closing.
--   Gateway/Round        services/rust-sync/src/main.rs: a whole round of the loop of `main`: events, due timers,
--                       closing. Ends: the loop over the due timers ends; Deadlines: none is overslept.
--   Gateway/Http         services/rust-sync/src/http.rs: `feed`. Head: its bounds.
--   Gateway/Wire        how the client reads what the gateway writes.
--   Gateway/Inference   services/rust-sync/src/inference.rs: errors and commands. Reply: `parse_response`;
--                       Pool: `Slot`; Lending: `InferencePool` (`submit` is `submit_to`); Thread: `run`; Statuses.
--   Gateway/Text        the `str` functions that the gateways, the server and the sample file use. Numbers:
--                       decimal numbers.
--
-- Conventions. A mutable struct is a record that each operation returns; `on_ready` and the like return
-- the connection and the outcome. `Tick::Keep` and `Tick::Timeout` are `idle` and `expired`. Durations and
-- instants of the evented gateway are numbers of nanoseconds, those of the load generator's protocol and
-- checks of milliseconds. What sockets, `tungstenite` and the clock answer is an argument of the
-- operation. What is written to a WebSocket is a list in the state. In the driver and the asynchronous
-- gateway an event carries what it meets: the message, the instant, the reply of the server, whether a
-- send succeeds. The instants and durations of the driver and of the asynchronous gateway are numbers of
-- nanoseconds. `f64` is a carrier with its operations (Common.Float), of which nothing is assumed. JSON is
-- `serde_json`'s: the record `Json` is what the gateway calls, and `RoundTrip` states that the client's
-- parser finds in a message that was written with its tag the range of its frames. A panic (a missing
-- socket, an index out of range, an overflowing length) is a result of its own. The extractors of `axum`
-- are a parameter of the inference server's handler: it takes bodies up to a limit, 2 MiB by default.
--
-- Bounds and fuel. All loops are structural recursions, over the bytes, samples, passes, reads, writes or
-- events, but that over the due timers of a round, which has fuel: `work` counts how often the timers in
-- the heap can still be due at the round's instant, and each turn of the loop lowers it.
-- `decimal` writes at most 20 digits, which every 64-bit number fits. Machine integers wrap where the
-- source wraps (`mix64`, the checksum); counters are unbounded numbers.
--
-- Not modelled: sockets, `mio` registrations beyond the flags that the code keeps, the operating system's
-- threads and channels; the texts of error details; the load generator's command line and the output of
-- its `main` (which copies the counters that are modelled, and percentiles of a library's histogram); what
-- the conformance cases that only read have sent before; the printing of the tools; the routes of the
-- servers and their start. These are calls of libraries. All code in other languages is left out too.
pub mod Common
pub mod Stub
pub mod Loadgen
pub mod Gateway
pub mod Axum
pub mod InferenceServer
