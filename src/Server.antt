-- ===== src/Server.antt =====
-- cmd/supervpn-server/main.go: sessions, the packets of clients, and what is sent to them.
pub mod State
pub mod Range
pub mod Outgoing
pub mod Incoming
pub mod Lifecycle
pub mod Admission
pub mod Dispatch
pub mod Bans
pub mod Members
pub mod Start
pub mod Removal
mod Tests
