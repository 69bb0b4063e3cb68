-- ===== src/Config/Examples.antt =====
-- The theorem about configurations at a concrete one.
use oikade.Core.Model.{validate_identifier}
use oikade.Prelude.Text.{trim, as_bytes}
use oikade.Prelude.{◌≡◌, refl, true, false, some, [], ◌∷◌}
use oikade.Prelude.Result.{ok, err}
use oikade.Config.Types.{Config, default_config, passcode_prohibited}
use oikade.Config.Validate.{
  validate, validate_commissioning, normalized_log_level, validate_unpadded_path, validate_switches,
  validate_plugins, validate_matter,
}
use oikade.Config.ValidateLaws.{IsValid, validate-IsValid}

-- A level that is not in its normal form, and a switch.
abbrev written : Config
written = record default_config {
  runtime = record { log_level = " Debug"; state_dir = "/var/lib/oikade"; admin_socket = "" };
  switches = record { id = "lamp"; name = "Lamp"; initial_on = false } ∷ [];
  matter = record {
    enabled = true;
    executable = "";
    log_level = "info";
    commissioning = record { setup_passcode = "20202021"; discriminator = some 3840 };
  };
}

abbrev normal : Config
normal = record written {
  runtime = record { log_level = "debug"; state_dir = "/var/lib/oikade"; admin_socket = "" };
}

written-normal : validate written ≡ ok normal
unfolding validate normalized_log_level trim validate_unpadded_path validate_switches
    validate_identifier as_bytes validate_plugins validate_matter validate_commissioning
written-normal = refl

validate-IsValid_example : IsValid normal
validate-IsValid_example = validate-IsValid written normal written-normal

prohibited_passcode : validate_commissioning "12345678" 1 ≡ err passcode_prohibited
unfolding validate_commissioning as_bytes
prohibited_passcode = refl
