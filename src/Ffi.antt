-- ===== src/Ffi.antt =====
-- engine/crates/gravital-ffi: the C interface.
pub mod CApi
pub mod JniApi
