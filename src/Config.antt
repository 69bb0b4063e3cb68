-- ===== src/Config.antt =====
-- crates/oikade-config: the configuration of the daemon.
pub mod Types
pub mod Validate
pub mod ValidateLaws
pub mod Examples
