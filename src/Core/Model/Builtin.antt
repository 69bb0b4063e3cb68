-- ===== src/Core/Model/Builtin.antt =====
-- crates/oikade-core/src/model.rs: the registry of built-in capabilities.
use text.Mathlib.Text.{◌==◌ as str_eq}
use oikade.Prelude.{Bool, false, not, ◌&&◌, List, [], ◌∷◌, map, Option, none, some, if◌then◌else◌}
use oikade.Prelude.Result.{Result, fail_if, ◌>>◌}
use oikade.Prelude.Float.{F64, of_ℕ, in_range}
use oikade.Core.Model.Types.{
  CapabilityType, ValueKind, bool_kind, number_kind, kind_eq, Value, number, kind, ModelError,
  type_requires_kind, not_a_percentage, validate_value,
}

abbrev pub capability_switch_on : CapabilityType
capability_switch_on = "oikade.switch.on"

abbrev pub capability_light_on : CapabilityType
capability_light_on = "oikade.light.on"

abbrev pub capability_light_level : CapabilityType
capability_light_level = "oikade.light.level"

abbrev pub capability_outlet_on : CapabilityType
capability_outlet_on = "oikade.outlet.on"

abbrev pub capability_temperature : CapabilityType
capability_temperature = "oikade.sensor.temperature"

abbrev pub capability_relative_humidity : CapabilityType
capability_relative_humidity = "oikade.sensor.relative-humidity"

abbrev pub capability_contact_open : CapabilityType
capability_contact_open = "oikade.sensor.contact-open"

abbrev pub capability_occupancy_detected : CapabilityType
capability_occupancy_detected = "oikade.sensor.occupancy-detected"

abbrev pub light_level_minimum : F64
light_level_minimum = of_ℕ 0

abbrev pub light_level_maximum : F64
light_level_maximum = of_ℕ 100

pub data CapabilityRole : Type 0 where
  actuator sensor : CapabilityRole

pub record BuiltinCapability : Type 0 where
  pub capability_type : CapabilityType
  pub kind : ValueKind
  pub role : CapabilityRole

abbrev is_bad_level : CapabilityType → Value → Bool
is_bad_level t (number level) =
    str_eq t capability_light_level && not (in_range light_level_minimum light_level_maximum level)
is_bad_level t _ = false

abbrev level_of : Value → F64
level_of (number level) = level
level_of _ = light_level_minimum

-- `BuiltinCapability::validate_value`
unfoldable pub validate_builtin : BuiltinCapability → Value → Result ModelError (Unit {0})
unfolding validate_value kind_eq in_range
validate_builtin b value = do
  validate_value value
  fail_if (not (kind_eq (kind value) b.kind))
      (type_requires_kind b.capability_type b.kind (kind value))
  fail_if (is_bad_level b.capability_type value)
      (not_a_percentage b.capability_type (level_of value))

abbrev entry : CapabilityType × ValueKind × CapabilityRole → BuiltinCapability
entry (t, k, r) = record { capability_type = t; kind = k; role = r }

unfoldable pub builtin_capabilities : List BuiltinCapability
builtin_capabilities = map entry table
  where
    table : List (CapabilityType × ValueKind × CapabilityRole)
    table =
        (capability_switch_on, bool_kind, actuator)
        ∷ (capability_light_on, bool_kind, actuator)
        ∷ (capability_light_level, number_kind, actuator)
        ∷ (capability_outlet_on, bool_kind, actuator)
        ∷ (capability_temperature, number_kind, sensor)
        ∷ (capability_relative_humidity, number_kind, sensor)
        ∷ (capability_contact_open, bool_kind, sensor)
        ∷ (capability_occupancy_detected, bool_kind, sensor)
        ∷ []

pub find_type : CapabilityType → List BuiltinCapability → Option BuiltinCapability
find_type t [] = none
find_type t (b ∷ bs) = if str_eq b.capability_type t then some b else find_type t bs

unfoldable pub lookup_builtin_capability : CapabilityType → Option BuiltinCapability
unfolding builtin_capabilities find_type
lookup_builtin_capability t = find_type t builtin_capabilities
