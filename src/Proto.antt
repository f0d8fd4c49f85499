-- ===== src/Proto.antt =====
-- engine/crates/gravital-proto: checksums, and the views over IPv4, IPv6, TCP, UDP and ICMP.
pub mod Errors
pub mod Checksum
pub mod Ipv4
pub mod Ipv6
pub mod Ip
pub mod Tcp
pub mod Udp
pub mod Icmp
pub mod Segments
pub mod Dispatch
