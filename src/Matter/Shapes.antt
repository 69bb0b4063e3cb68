-- ===== src/Matter/Shapes.antt =====
-- apps/oikade-matter-adapter/src/projection.rs: the parts of a projection that a value gives, and the
-- readings of a value.
use text.Mathlib.Text.{◌==◌ as str_eq}
use oikade.Prelude.{
  ◌*◌, ◌^◌, String, Bool, true, false, ◌&&◌, Option, none, some, List, if◌then◌else◌,
}
use oikade.Prelude.Maps.{string_key}
use oikade.Prelude.Float.{F64, finite, is_finite, in_range}
use oikade.Adapter.Wire.{ApiValue}

-- The capability types with a mapping.
abbrev pub switch_on : String
switch_on = "oikade.switch.on"

abbrev pub light_on : String
light_on = "oikade.light.on"

abbrev pub light_level : String
light_level = "oikade.light.level"

abbrev pub outlet_on : String
outlet_on = "oikade.outlet.on"

abbrev pub temperature_type : String
temperature_type = "oikade.sensor.temperature"

abbrev pub humidity_type : String
humidity_type = "oikade.sensor.relative-humidity"

abbrev pub contact_open : String
contact_open = "oikade.sensor.contact-open"

abbrev pub occupancy_type : String
occupancy_type = "oikade.sensor.occupancy-detected"

pub data Profile : Type 0 where
  on_off_light dimmable_light outlet temperature humidity contact occupancy : Profile

-- What `build` finds of a capability: the parts of its projection that its value gives.
pub record Shape : Type 0 where
  pub profile : Profile
  pub on : Option Bool
  pub level : Option F64
  pub sensor : Option F64
  pub binary_sensor : Option Bool
  pub level_id : Option String

pub record Diagnostic : Type 0 where
  pub severity : String
  pub code : String
  pub message : String
  pub device_id : Option String
  pub capability_id : Option String

-- `some`
abbrev pub not_empty : String → Option String
not_empty String.[] = none
not_empty (String.◌∷◌ c s) = some (String.◌∷◌ c s)

-- `diagnostic`
abbrev pub diagnostic : String → String → String → Option String → Option String → Diagnostic
diagnostic severity code message device_id capability_id = record {
  severity = severity;
  code = code;
  message = message;
  device_id = device_id;
  capability_id = capability_id;
}

-- The diagnostics that are pushed, and the shape unless the loop goes on to the next capability.
abbrev pub Verdict : Type 0
Verdict = List Diagnostic × Option Shape

unfoldable pub wire_bool : ApiValue → Option Bool
wire_bool value = if str_eq value.kind "bool" then value.bool else none

unfoldable pub wire_number : ApiValue → Option F64
wire_number value = if str_eq value.kind "number" then value.number else none

-- `filter(|v| v.is_finite() && (low..=high).contains(v))`
abbrev pub number_within : F64 → F64 → Option F64 → Option F64
number_within low high none = none
number_within low high (some v) = if is_finite v && in_range low high v then some v else none

-- The doubles nearest to -273.15 and 327.66.
abbrev pub lowest_temperature : F64
lowest_temperature = finite true (2402652809016115 * 2 ^ 1031)

abbrev pub highest_temperature : F64
highest_temperature = finite false (5764255679313347 * 2 ^ 1030)

abbrev pub on_off : Profile → Bool → Shape
on_off profile v = record {
  profile = profile;
  on = some v;
  level = none;
  sensor = none;
  binary_sensor = none;
  level_id = none;
}

abbrev pub measured : Profile → F64 → Shape
measured profile v = record {
  profile = profile;
  on = none;
  level = none;
  sensor = some v;
  binary_sensor = none;
  level_id = none;
}

abbrev pub detected : Profile → Bool → Shape
detected profile v = record {
  profile = profile;
  on = none;
  level = none;
  sensor = none;
  binary_sensor = some v;
  level_id = none;
}

abbrev pub dimmable : Bool → F64 → String → Shape
dimmable on level level_id = record {
  profile = Profile.dimmable_light;
  on = some on;
  level = some level;
  sensor = none;
  binary_sensor = none;
  level_id = some level_id;
}
