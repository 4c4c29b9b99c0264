-- ===== src/Battery.antt =====
-- internal/bmwbattery: the battery monitor.
pub mod Voltage
pub mod Search
pub mod Frame
pub mod Status
pub mod Plausible
pub mod Held
mod Tests
