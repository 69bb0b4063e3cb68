-- ===== src/Config/Validate.antt =====
-- crates/oikade-config/src/lib.rs: `validate`, which also brings the log levels into their normal form.
use Prim.Native.Char.{Char, code}
use Prim.Native.String.{◌∷◌ as str_cons, [] as str_nil}
use text.Mathlib.Text.{◌==◌ as str_eq}
use oikade.Prelude.{
  ℕ, ◌+◌, ◌-◌, ◌*◌, String, Bool, true, false, not, ◌&&◌, ◌||◌, Option, none, some, List, [], ◌∷◌,
  ◌==◌, leb, ltb, length, all, any, if◌then◌else◌,
}
use oikade.Prelude.Result.{Result, ok, err, fail_if, map_err, ◌>>=◌, ◌>>◌}
use oikade.Prelude.Text.{as_bytes, trim}
use oikade.Prelude.Utf8.{from_u32}
use oikade.Core.Model.{validate_identifier}
use oikade.Config.Types.{
  ConfigError, unsupported_version, bad_log_level, padded_path, bad_switch_id, bad_plugin_id,
  bad_switch_name, missing_artifact, duplicate_switch, duplicate_plugin, passcode_required,
  discriminator_required, passcode_digits, passcode_range, passcode_prohibited, discriminator_range,
  VirtualSwitchConfig, PluginConfig, MatterCommissioningConfig, Config, current_version,
}

abbrev or_else : Option Char → Char → Char
or_else none c = c
or_else (some d) c = d

-- `char::to_ascii_lowercase` and `str::to_ascii_lowercase`
abbrev pub lower : Char → Char
lower c = if leb 0x41 (code c) && leb (code c) 0x5a then or_else (from_u32 (code c + 0x20)) c else c

unfoldable pub to_ascii_lowercase : String → String
unfolding from_u32
to_ascii_lowercase str_nil = str_nil
to_ascii_lowercase (str_cons c s) = str_cons (lower c) (to_ascii_lowercase s)

unfoldable pub normalized_log_level : String → String → List String → Result ConfigError String
unfolding to_ascii_lowercase
normalized_log_level value path accepted =
    let lowered = to_ascii_lowercase (trim value) in
    if any (str_eq lowered) accepted then ok lowered else err (bad_log_level path)

unfoldable pub validate_unpadded_path : String → String → Result ConfigError (Unit {0})
validate_unpadded_path path name = fail_if (not (str_eq path (trim path))) (padded_path name)

abbrev pub is_ascii_digit : ℕ → Bool
is_ascii_digit b = leb 0x30 b && leb b 0x39

-- `str::parse` of decimal digits.
abbrev pub decimal : ℕ → List ℕ → ℕ
decimal acc [] = acc
decimal acc (b ∷ bytes) = decimal (acc * 10 + (b - 0x30)) bytes

abbrev pub prohibited : List ℕ
prohibited =
    11111111 ∷ 22222222 ∷ 33333333 ∷ 44444444 ∷ 55555555 ∷ 66666666 ∷ 77777777 ∷ 88888888 ∷ 12345678
    ∷ 87654321 ∷ []

unfoldable pub validate_commissioning : String → ℕ → Result ConfigError (Unit {0})
validate_commissioning passcode discriminator = do
  fail_if (not (length (as_bytes passcode) == 8 && all is_ascii_digit (as_bytes passcode)))
      passcode_digits
  fail_if (decimal 0 (as_bytes passcode) == 0 || ltb 99999998 (decimal 0 (as_bytes passcode)))
      passcode_range
  fail_if (any (◌==◌ (decimal 0 (as_bytes passcode))) prohibited) passcode_prohibited
  fail_if (ltb 4095 discriminator) discriminator_range
  ok tt

unfoldable pub validate_switches :
    ℕ → List String → List VirtualSwitchConfig → Result ConfigError (Unit {0})
validate_switches index seen [] = ok tt
validate_switches index seen (switch ∷ switches) = do
  map_err (bad_switch_id index) (validate_identifier switch.id)
  fail_if (str_eq (trim switch.name) "" || not (str_eq switch.name (trim switch.name)))
      (bad_switch_name index)
  fail_if (any (str_eq switch.id) seen) (duplicate_switch index switch.id)
  validate_switches (index + 1) (switch.id ∷ seen) switches

unfoldable pub validate_plugins :
    ℕ → List String → List PluginConfig → Result ConfigError (Unit {0})
validate_plugins index seen [] = ok tt
validate_plugins index seen (plugin ∷ plugins) = do
  map_err (bad_plugin_id index) (validate_identifier plugin.id)
  fail_if (str_eq plugin.artifact "") (missing_artifact index)
  validate_unpadded_path plugin.artifact "artifact"
  fail_if (any (str_eq plugin.id) seen) (duplicate_plugin index plugin.id)
  validate_plugins (index + 1) (plugin.id ∷ seen) plugins

abbrev pub is_none : Option ℕ → Bool
is_none none = true
is_none (some n) = false

abbrev pub unwrap_or : ℕ → Option ℕ → ℕ
unwrap_or d none = d
unwrap_or d (some n) = n

abbrev pub validate_codes : Bool → MatterCommissioningConfig → Result ConfigError (Unit {0})
validate_codes true c = fail_if (ltb 4095 (unwrap_or 0 c.discriminator)) discriminator_range
validate_codes false c = validate_commissioning c.setup_passcode (unwrap_or 0 c.discriminator)

-- The checks of the passcode and the discriminator.
unfoldable pub validate_matter : Bool → MatterCommissioningConfig → Result ConfigError (Unit {0})
validate_matter enabled c = do
  fail_if (enabled && str_eq c.setup_passcode "") passcode_required
  fail_if (enabled && is_none c.discriminator) discriminator_required
  validate_codes (str_eq c.setup_passcode "") c

abbrev pub runtime_levels : List String
runtime_levels = "debug" ∷ "info" ∷ "warn" ∷ "error" ∷ []

abbrev pub matter_levels : List String
matter_levels = "none" ∷ "error" ∷ "info" ∷ "debug" ∷ []

-- `validate`, which returns the configuration that it leaves.
unfoldable pub validate : Config → Result ConfigError Config
validate config = do
  fail_if (not (config.version == current_version)) (unsupported_version config.version)
  runtime_level ← normalized_log_level config.runtime.log_level "runtime.log_level" runtime_levels
  validate_unpadded_path config.runtime.state_dir "runtime.state_dir"
  validate_unpadded_path config.runtime.admin_socket "runtime.admin_socket"
  validate_switches 0 [] config.switches
  validate_plugins 0 [] config.plugins
  validate_unpadded_path config.matter.executable "adapters.matter.executable"
  matter_level ←
      normalized_log_level config.matter.log_level "adapters.matter.log_level" matter_levels
  validate_matter config.matter.enabled config.matter.commissioning
  ok (record config {
    runtime = record config.runtime { log_level = runtime_level };
    matter = record config.matter { log_level = matter_level };
  })
