-- ===== src/Core.antt =====
-- crates/scour-core: the parts of the contract that compute.
pub mod Fold
pub mod Kind
pub mod Ast
pub mod Prefix
pub mod Entry
pub mod Tests
