-- ===== src/Plugin.antt =====
-- crates/oikade-plugin-api and crates/oikade-plugin-host: what plugins announce, and their manifests.
pub mod Wire
pub mod Convert
pub mod ConvertLaws
pub mod Manifest
pub mod Examples
