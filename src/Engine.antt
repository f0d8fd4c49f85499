-- ===== src/Engine.antt =====
-- engine/crates/gravital-engine: the session automaton, the DNS reply packets and the engine.
pub mod Errors
pub mod Session
pub mod Backoff
pub mod Reply
pub mod Dns
pub mod LeakCheck
pub mod Tun
pub mod Poll
pub mod Loop
pub mod Relay
pub mod Config
pub mod Json
pub mod Runner
pub mod FfiCode
pub mod Jni
