-- ===== src/Loadgen/Driver.antt =====
-- loadgen/rust/src/main.rs: the driver. A session's task and the verifier thread share counters behind
-- atomics and mutexes; here they are fields of one state that each operation returns. Counters are
-- unbounded; what is only logged is left out.
pub mod Outcomes
pub mod Correctness
pub mod Receive
pub mod System
pub mod Send
pub mod Task
pub mod Schedule
pub mod Samples
mod Tests
