-- ===== src/H3.antt =====
-- The HTTP/3 layer: internal/ws_h3.go and internal/ws_h3_qpack_min.go.
pub mod Varint
pub mod Stream
pub mod Frames
pub mod Control
pub mod Request
pub mod Dial
pub mod Qpack
mod Tests
