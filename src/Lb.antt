-- ===== src/Lb.antt =====
-- The load balancer: internal/lb.go and internal/util.go.
pub mod State
pub mod Health
pub mod Select
pub mod Slots
pub mod Start
mod Tests
