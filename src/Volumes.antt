-- ===== src/Volumes.antt =====
-- crates/scour-volumes: what is mounted, and which of it is a disk.
pub mod Mounts
pub mod Classify
pub mod Tests
