-- ===== src/Hub.antt =====
-- internal/hub/hub.go: one layer-2 switch, and the set of switches of a server.
pub mod Switch
pub mod Learning
pub mod Clients
pub mod Delivery
pub mod Targets
pub mod Manager
mod Tests
