-- ===== src/Bridge.antt =====
-- internal/bridge: the client's Ethernet bridge.
pub mod Mss
pub mod Loops
mod Tests
