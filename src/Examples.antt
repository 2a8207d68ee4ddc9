-- ===== src/Examples.antt =====
-- Runs of the model on concrete inputs, and the theorems at such inputs.
pub mod Server
pub mod Bus
pub mod Codes
pub mod Supply
mod Telemetry
mod Store
mod Linear
mod Polling
mod Bench
mod Descriptors
mod Readings
