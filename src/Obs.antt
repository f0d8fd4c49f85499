-- ===== src/Obs.antt =====
-- engine/crates/gravital-obs: events, their sinks and the diagnostic endpoint.
pub mod Event
pub mod Sink
pub mod Mcp
