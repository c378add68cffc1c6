-- ===== src/Index.antt =====
-- crates/scour-index-native: the codecs and the row arithmetic of the index.
pub mod Varint
pub mod Words
pub mod Sort
pub mod Trigram
pub mod DirectoryBytes
pub mod Ids
pub mod Order
pub mod Plan
pub mod Narrowing
pub mod Rank
pub mod Tests
