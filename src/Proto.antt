-- ===== src/Proto.antt =====
-- internal/proto/packet.go: the wire format of supervpn packets.
pub mod Header
pub mod Seq
pub mod Auth
pub mod HubList
mod Tests
