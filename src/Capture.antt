-- ===== src/Capture.antt =====
-- The packet capture module, netlink/netlink.c, and its user program, netlink/user_client.c.
pub mod Users
pub mod Rate
pub mod Buffers
pub mod State
pub mod Hooks
pub mod Daemon
pub mod Receive
pub mod Session
pub mod Overlap
pub mod Samples
pub mod Start
pub mod Client
