-- ===== src/Socks.antt =====
-- SOCKS addresses: internal/socksaddr.go, and the address keys of internal/outline_udp_session.go.
pub mod Addr
pub mod Server
mod Tests
