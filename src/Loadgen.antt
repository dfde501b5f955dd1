-- ===== src/Loadgen.antt =====
-- loadgen/rust: the load generator, which streams deterministic PCM and checks every response.
pub mod Protocol
pub mod Verify
pub mod Driver
pub mod Conformance
pub mod Bench
