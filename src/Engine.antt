-- ===== src/Engine.antt =====
-- crates/scour-engine: when a source is walked again.
pub mod Pulses
