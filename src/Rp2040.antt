-- ===== src/Rp2040.antt =====
-- src/platform/rp2040: the parts of the platform code that keep state of their own.
pub mod I2cTarget
pub mod UsbHostTransport
