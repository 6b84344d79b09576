-- ===== src/Nic.antt =====
-- The network examples under nic/: nic/nic.c makes a device, nic/tcp.c and nic/udp.c send one packet
-- that they build themselves, and nic/garp.c announces the addresses of a device.
pub mod Skb
pub mod Packet
pub mod Parse
pub mod Tcp
pub mod Udp
pub mod Garp
pub mod Device
mod Tests
