-- ===== src/Client.antt =====
-- internal/vpnclient/client.go: the client's session.
pub mod Log
pub mod Address
pub mod Login
pub mod Connect
pub mod State
pub mod Outgoing
pub mod Incoming
mod Tests
