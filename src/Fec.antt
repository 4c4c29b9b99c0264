-- ===== src/Fec.antt =====
-- internal/fec: forward error correction of the UDP transport.
pub mod Xor
pub mod Shards
pub mod Encoder
pub mod Block
pub mod Decoder
pub mod Flush
pub mod Pipe
pub mod StandIn
mod Tests
