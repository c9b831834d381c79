-- ===== src/Net.antt =====
-- The network stack (src/net): frames, IPv4, UDP, DNS, ARP, ICMP.
pub mod Bytes
pub mod Ethernet
pub mod Ipv4
pub mod Udp
pub mod Dns
pub mod Arp
pub mod Icmp
pub mod Dhcp
