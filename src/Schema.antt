-- ===== src/Schema.antt =====
-- schema: the types of fields, and the changes between versions of a schema.
pub mod FieldType
pub mod Field
pub mod Migration
pub mod Convert
pub mod Update
pub mod Rules
mod Tests
