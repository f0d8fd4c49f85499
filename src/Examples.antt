-- ===== src/Examples.antt =====
-- The theorems at concrete packets, tables, sessions and streams.
mod Packets
mod Segments
mod Tables
mod Flows
mod Protocols
mod Proxy
mod Running
mod Endpoint
