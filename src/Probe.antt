-- ===== src/Probe.antt =====
-- The probes of the quality of an upstream.
pub mod Dns
pub mod Tcp
mod Tests
