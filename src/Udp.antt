-- ===== src/Udp.antt =====
-- The UDP session of an upstream.
pub mod Session
pub mod Association
mod Tests
