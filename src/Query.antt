-- ===== src/Query.antt =====
-- query/: the plans by which a filter reads the database.
pub mod Filter
pub mod Plan
pub mod Strict
pub mod Range
pub mod KeyBuilder
pub mod Match
mod Tests
