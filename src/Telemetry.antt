-- ===== src/Telemetry.antt =====
-- src/telemetry and include/psu_usb_to_pmbus/telemetry: the shared measurements.
pub mod Snapshot
pub mod Power
pub mod Store
