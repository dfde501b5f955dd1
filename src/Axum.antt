-- ===== src/Axum.antt =====
-- services/rust-axum/src: the asynchronous gateway, one task for the socket and one for the flushes of
-- each connection.
pub mod Protocol
pub mod Inference
pub mod Config
pub mod Session
pub mod EndToEnd
mod Tests
