-- ===== src/Kv.antt =====
-- store/kv and internal/data.go: rows of a FoundationDB transaction, the stores stacked on it.
pub mod Data
pub mod Fdb
pub mod KeyValue
pub mod Chunk
pub mod Compression
pub mod Listed
mod Tests
