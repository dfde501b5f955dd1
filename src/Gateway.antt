-- ===== src/Gateway.antt =====
-- services/rust-sync: the evented gateway. A WebSocket loop owns the connections; a second loop owns
-- the pool of inference sockets; they exchange commands and results.
pub mod Config
pub mod Protocol
pub mod Text
pub mod Inference
pub mod Session
pub mod Http
pub mod Wire
pub mod Tick
mod Loop
mod Round
