-- ===== src/Fragment.antt =====
-- internal/fragment/fragment.go: frames that are too long for a datagram.
pub mod Split
pub mod Reassembler
mod Tests
