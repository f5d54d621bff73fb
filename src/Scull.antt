-- ===== src/Scull.antt =====
-- The scull character devices: scull/main.c with scull/scull.h.
pub mod Device
pub mod Transfer
pub mod Ioctl
pub mod File
pub mod History
pub mod Pipe
pub mod Access
pub mod Module
mod Tests
