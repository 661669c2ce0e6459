-- ===== src/Tun.antt =====
-- The UDP side of the TUN device.
pub mod Ports
pub mod Flows
mod Tests
