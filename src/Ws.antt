-- ===== src/Ws.antt =====
-- The WebSocket layer: internal/ws_h2.go, internal/ws_api.go, and `wsAliveCheck` of
-- internal/warm_standby.go.
pub mod Frame
pub mod Sink
pub mod Conn
pub mod Alive
pub mod Dial
pub mod Uri
pub mod RawH2
mod Tests
