-- ===== src/Stack.antt =====
-- engine/crates/gravital-stack: the NAT table, the packet rewriting and the userspace stack.
pub mod Errors
pub mod Nat
pub mod Rewrite
pub mod Device
pub mod State
pub mod Core
