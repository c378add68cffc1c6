-- ===== src/Source.antt =====
-- crates/scour-source-fs: the file system as a source of entries.
pub mod Revisit
pub mod Rules
