-- ===== src/Scull/Tests.antt =====
-- The theorems on the scull device at concrete devices and calls.
pub mod Devices
mod Transfers
mod Files
mod Pipes
mod Opens
mod Modules
