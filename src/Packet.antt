-- ===== src/Packet.antt =====
-- src/packet: the headers that the raw modes build and parse. Each builder gives the bytes that the
-- code appends to its output.
pub mod Checksum
pub mod Ip
pub mod Udp
pub mod Pseudo
pub mod Tests
pub mod Icmp
pub mod Tcp
