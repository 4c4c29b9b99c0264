-- ===== src/Update.antt =====
-- The in-band update: internal/update/inband.go on the client and handleUpdateGet on the server.
pub mod Inband
pub mod Transfer
mod Tests
