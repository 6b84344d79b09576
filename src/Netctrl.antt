-- ===== src/Netctrl.antt =====
-- The control module, netctrl/netctrl.c, and its user program, netctrl/app.c.
pub mod Kernel
pub mod App
pub mod Roundtrip
pub mod CommandLine
mod Samples
mod Tests
