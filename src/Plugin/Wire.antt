-- ===== src/Plugin/Wire.antt =====
-- crates/oikade-plugin-api/src/v1.rs: devices as a plugin announces them. Its `Value` and `Permissions`
-- have the fields of those of the adapter protocol, and are the same records here.
use oikade.Prelude.{ℕ, String, List}
use oikade.Adapter.Wire.{ApiPermissions, ApiValue}

abbrev pub version : ℕ
version = 1

pub record PluginCapability : Type 0 where
  pub id : String
  pub capability_type : String
  pub name : String
  pub kind : String
  pub permissions : ApiPermissions
  pub initial_value : ApiValue

pub record PluginDevice : Type 0 where
  pub id : String
  pub name : String
  pub manufacturer : String
  pub model : String
  pub capabilities : List PluginCapability
