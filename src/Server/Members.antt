-- ===== src/Server/Members.antt =====
-- cmd/supervpn-server/main.go: what a handler keeps of the sessions, and where the packets go that a hub
-- sends through them.
pub mod Sending
pub mod Forwarding
pub mod Invariant
pub mod Packets
pub mod Ends
pub mod Handlers
pub mod Steps
