-- ===== src/UdpGw.antt =====
-- engine/crates/gravital-udpgw: the frames of UDP over TCP, and the table of associations.
pub mod Frame
pub mod Mux
