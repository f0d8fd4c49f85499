-- ===== src/Socks.antt =====
-- engine/crates/gravital-socks: the SOCKS5 protocol, its server side and its client.
pub mod Stream
pub mod Proto
pub mod Datagram
pub mod Offsets
pub mod RoundTrip
pub mod Client
pub mod Server
pub mod Udp
