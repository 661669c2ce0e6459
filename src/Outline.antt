-- ===== src/Outline.antt =====
-- TCP over an Outline connection, internal/outline_tcp.go, internal/outline_tcp_common.go and
-- internal/outline_dial.go, and the packets of internal/ws_packet_conn.go.
pub mod Conn
pub mod Relay
mod Tests
