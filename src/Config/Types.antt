-- ===== src/Config/Types.antt =====
-- crates/oikade-config/src/lib.rs: the configuration. A path is its text, and a JSON value too.
use Prim.Native.String.{[] as str_nil}
use oikade.Prelude.{ℕ, String, Bool, false, Option, none, List, []}
use oikade.Prelude.Maps.{Map}
use oikade.Core.Model.{ModelError}

abbrev pub current_version : ℕ
current_version = 1

-- `ConfigError::Invalid`: each text is a constructor with what the text prints.
pub data ConfigError : Type 0 where
  unsupported_version : ℕ → ConfigError
  bad_log_level padded_path : String → ConfigError
  bad_switch_id bad_plugin_id : ℕ → ModelError → ConfigError
  bad_switch_name missing_artifact : ℕ → ConfigError
  duplicate_switch duplicate_plugin : ℕ → String → ConfigError
  passcode_required discriminator_required : ConfigError
  passcode_digits passcode_range passcode_prohibited : ConfigError
  discriminator_range : ConfigError

pub record RuntimeConfig : Type 0 where
  pub log_level : String
  pub state_dir : String
  pub admin_socket : String

pub record VirtualSwitchConfig : Type 0 where
  pub id : String
  pub name : String
  pub initial_on : Bool

pub record PluginConfig : Type 0 where
  pub id : String
  pub artifact : String
  pub config : Map String String

pub record MatterCommissioningConfig : Type 0 where
  pub setup_passcode : String
  pub discriminator : Option ℕ

pub record MatterAdapterConfig : Type 0 where
  pub enabled : Bool
  pub executable : String
  pub log_level : String
  pub commissioning : MatterCommissioningConfig

-- `integrations.virtual.switches` and `adapters.matter` without the records between.
pub record Config : Type 0 where
  pub version : ℕ
  pub runtime : RuntimeConfig
  pub switches : List VirtualSwitchConfig
  pub plugins : List PluginConfig
  pub matter : MatterAdapterConfig

-- `Config::default`
abbrev pub default_config : Config
default_config = record {
  version = current_version;
  runtime = record { log_level = "info"; state_dir = str_nil; admin_socket = str_nil };
  switches = [];
  plugins = [];
  matter = record {
    enabled = false;
    executable = str_nil;
    log_level = "info";
    commissioning = record { setup_passcode = str_nil; discriminator = none };
  };
}
