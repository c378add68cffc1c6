-- ===== src/Query.antt =====
-- crates/scour-query: the query language.
pub mod Glob
pub mod Fields
pub mod Value
pub mod Time
pub mod Tokens
pub mod Terms
pub mod Parse
pub mod Samples
pub mod Tests
