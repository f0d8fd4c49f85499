-- ===== src/Tun.antt =====
-- engine/crates/gravital-tun: the device over a file descriptor, and its opening on Linux.
pub mod Errors
pub mod Device
pub mod Platform
