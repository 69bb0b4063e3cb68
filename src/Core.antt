-- ===== src/Core.antt =====
-- crates/oikade-core
pub mod Model
pub mod Runtime
