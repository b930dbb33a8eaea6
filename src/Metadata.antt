-- ===== src/Metadata.antt =====
-- server/metadata: the queue of background work, the dictionary of names, and the versions of schemas.
pub mod Queue
pub mod Subspace
pub mod Entries
pub mod Dictionary
pub mod Namespaces
pub mod Schemas
pub mod Versioning
mod Tests
