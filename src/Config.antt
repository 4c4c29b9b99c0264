-- ===== src/Config.antt =====
-- internal/config/config.go: the defaults, the validation and the migration of the configuration. A string is the list of
-- its bytes, and an int is a whole number.
pub mod Defaults
pub mod Redundancy
pub mod Ports
mod Tests
