-- ===== src/H3/Qpack.antt =====
-- The QPACK subset of internal/ws_h3_qpack_min.go: integers, strings and header fields.
pub mod Table
pub mod Ints
pub mod Fields
