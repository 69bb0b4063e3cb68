-- ===== src/Core/Model/Examples.antt =====
-- The validation of identifiers and devices at a concrete identifier and device.
use oikade.Prelude.{◌≡◌, ◌↔◌}
use oikade.Prelude.Result.{ok}
use oikade.Prelude.Text.{as_bytes}
use oikade.Core.Model.Identifier.{validate_identifier}
use oikade.Core.Model.IdentifierLaws.{IsIdentifier, validate_identifier_iff}
use oikade.Core.Model.Types.{Device, bool, bool_kind}
use oikade.Core.Model.Validate.{validate_device}
use oikade.Core.Model.DeviceLaws.{IsValidDevice, validate_device_iff}
use oikade.Prelude.{false, true, [], ◌∷◌}

validate_identifier_iff_example :
    (validate_identifier "living-room.lamp_2" ≡ ok tt)
    ↔ IsIdentifier (as_bytes "living-room.lamp_2")
validate_identifier_iff_example = validate_identifier_iff "living-room.lamp_2"

abbrev door : Device
door = record {
  id = "door";
  name = "Door";
  manufacturer = "";
  model = "";
  capabilities =
      record {
        id = "open";
        capability_type = "oikade.sensor.contact-open";
        name = "Open";
        kind = bool_kind;
        permissions = record { read = true; write = false; observe = true };
        initial_value = bool false;
      }
      ∷ [];
}

validate_device_iff_example : (validate_device door ≡ ok tt) ↔ IsValidDevice door
validate_device_iff_example = validate_device_iff door
