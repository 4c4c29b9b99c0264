-- ===== src/EndToEnd.antt =====
-- internal/vpnclient/client.go and cmd/supervpn-server/main.go together: what one end makes of the packets
-- of the other.
pub mod Entry
pub mod Handshake
pub mod Upstream
pub mod Downstream
pub mod Keepalive
mod Tests
