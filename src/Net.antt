-- ===== src/Net.antt =====
-- The network stack of mckrnl/net.
pub mod Wire
pub mod Checksum
pub mod Ipv4
pub mod Ether
pub mod Arp
pub mod Icmp
pub mod Sockets
pub mod Dns
pub mod Udp
pub mod Tcp
mod Tests
