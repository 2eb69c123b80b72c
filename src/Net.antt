-- ===== src/Net.antt =====
-- services/net: the wire formats, the checksum and the TCP endpoint of the network service.
pub mod Base
pub mod Eth
pub mod Arp
pub mod Checksum
pub mod Ip
pub mod Udp
pub mod Tcp
pub mod Host
pub mod Ring
pub mod Dhcp
mod Tests
