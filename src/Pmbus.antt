-- ===== src/Pmbus.antt =====
-- src/pmbus and include/psu_usb_to_pmbus/pmbus: the PMBus side of the bridge.
pub mod Pec
pub mod Linear
pub mod Commands
pub mod Server
