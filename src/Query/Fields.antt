-- ===== src/Query/Fields.antt =====
-- crates/scour-query/src/fields.rs: the table of fields, and which values a field can use.
pub mod Table
pub mod Accepts
pub use Table.{Takes, Field}
unfoldable pub use Table.{fields, lookup}
