-- ===== src/Crypto.antt =====
-- internal/crypto/crypto.go: packet encryption and the replay window.
pub mod Replay
pub mod Packet
pub mod Keys
mod Tests
pub mod Plain
