-- ===== src/Http.antt =====
-- engine/crates/gravital-http: the HTTP CONNECT proxy.
pub mod Errors
pub mod Target
pub mod Server
