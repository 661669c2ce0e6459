-- ===== src/Config.antt =====
-- The configuration.
pub mod HostPort
pub mod Defaults
mod Tests
