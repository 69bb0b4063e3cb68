-- ===== src/Matter/Classify.antt =====
-- apps/oikade-matter-adapter/src/projection.rs: what a capability becomes in Matter, as the body of the
-- loop of `ProjectionBuilder::build` decides it.
use text.Mathlib.Text.{◌==◌ as str_eq}
use oikade.Prelude.{String, Bool, not, ◌&&◌, ◌||◌, Option, none, some, List, [], ◌∷◌, if◌then◌else◌}
use oikade.Prelude.Maps.{Map, get, insert, string_key}
use oikade.Prelude.Float.{F64, of_ℕ}
use oikade.Adapter.Wire.{ApiPermissions, ApiCapability, ApiValue, ApiCapabilityState}
use oikade.Matter.Shapes.{
  switch_on, light_on, light_level, outlet_on, temperature_type, humidity_type, contact_open,
  occupancy_type, Profile, Shape, Diagnostic, not_empty, diagnostic, Verdict, wire_bool,
  wire_number, number_within, lowest_temperature, highest_temperature, on_off, measured, detected,
  dimmable,
}

abbrev pub can_actuate : ApiPermissions → Bool
can_actuate p = p.read && p.write && p.observe

abbrev pub can_observe : ApiPermissions → Bool
can_observe p = p.read && not p.write && p.observe

abbrev pub is_bool_type : String → Bool
is_bool_type t =
    str_eq t switch_on
    || str_eq t light_on
    || str_eq t outlet_on
    || str_eq t contact_open
    || str_eq t occupancy_type

abbrev pub expected_kind : String → Option String
expected_kind t =
    if is_bool_type t
    then some "bool"
    else if str_eq t temperature_type || str_eq t humidity_type
    then some "number"
    else none

abbrev pub is_actuator : String → Bool
is_actuator t = str_eq t switch_on || str_eq t light_on || str_eq t outlet_on

abbrev pub permitted : String → ApiPermissions → Bool
permitted t p = if is_actuator t then can_actuate p else can_observe p

-- The capabilities of a type.
unfoldable pub of_type : String → List ApiCapability → List ApiCapability
of_type t [] = []
of_type t (c ∷ cs) =
    let rest = of_type t cs in if str_eq c.capability_type t then c ∷ rest else rest

-- The values of a device: the last one of a capability stays.
unfoldable pub value_map : List ApiCapabilityState → Map String ApiValue → Map String ApiValue
value_map [] values = values
value_map (entry ∷ entries) values =
    value_map entries (insert entry.capability_id entry.value values)

module _ (dev : String) (values : Map String ApiValue) (lights levels : List ApiCapability) where
  abbrev pub report : String → String → String → String → Diagnostic
  report severity code message id = diagnostic severity code message (not_empty dev) (not_empty id)

  abbrev pub refuse : String → String → String → String → Verdict
  refuse severity code message id = (report severity code message id ∷ [], none)

  abbrev pub shaped : Shape → Verdict
  shaped s = ([], some s)

  -- A light level is part of the light that it belongs to.
  abbrev pub level_verdict : List ApiCapability → String → Verdict
  level_verdict [] id =
      refuse "warning" "missing_composed_light_on_off"
        "light level requires one light on/off capability" id
  level_verdict (light ∷ []) id = ([], none)
  level_verdict (light ∷ other ∷ more) id =
      refuse "warning" "ambiguous_composed_light"
        "light level has multiple light on/off capabilities" id

  abbrev pub switched : Profile → Option Bool → String → Verdict
  switched profile none id = refuse "error" "invalid_on_off" "on/off state must be boolean" id
  switched profile (some v) id = shaped (on_off profile v)

  -- A light whose level cannot be used is an on/off light.
  abbrev pub plain : Bool → Diagnostic → Verdict
  plain on d = (d ∷ [], some (on_off Profile.on_off_light on))

  abbrev pub with_level : Bool → Option F64 → String → Verdict
  with_level on (some level) level_id = shaped (dimmable on level level_id)
  with_level on none level_id = plain on (
      report "error" "invalid_light_level" "light level must be a number from 0 through 100"
        level_id)

  abbrev pub level_number : Option ApiValue → Option F64
  level_number none = none
  level_number (some v) = number_within (of_ℕ 0) (of_ℕ 100) (wire_number v)

  abbrev pub composed : Bool → ApiCapability → Verdict
  composed on level =
      if not (str_eq level.kind "number")
      then plain on
          (report "error" "invalid_capability_kind" "composed light level must be numeric" level.id)
      else if not (can_actuate level.permissions)
      then plain on (
          report "warning" "unsupported_permissions"
            "light level permissions cannot be represented safely" level.id)
      else with_level on (level_number (get level.id values)) level.id

  abbrev pub lit : Bool → List ApiCapability → String → Verdict
  lit on [] id = shaped (on_off Profile.on_off_light on)
  lit on (level ∷ []) id = composed on level
  lit on (level ∷ other ∷ more) id =
      plain on
        (report "warning" "ambiguous_light_level" "light on/off has multiple level capabilities" id)

  abbrev pub light_verdict : Option Bool → String → Verdict
  light_verdict none id = refuse "error" "invalid_on_off" "on/off state must be boolean" id
  light_verdict (some on) id = lit on levels id

  abbrev pub measuring : Profile → Option F64 → String → String → String → Verdict
  measuring profile none code message id = refuse "error" code message id
  measuring profile (some v) code message id = shaped (measured profile v)

  abbrev pub contact_verdict : Option Bool → String → Verdict
  contact_verdict none id = refuse "error" "invalid_sensor_state" "contact state must be boolean" id
  contact_verdict (some v) id = shaped (detected Profile.contact v)

  abbrev pub occupancy_verdict : Option Bool → String → Verdict
  occupancy_verdict none id =
      refuse "error" "invalid_sensor_state" "occupancy state must be boolean" id
  occupancy_verdict (some v) id = (
    report "warning" "assumed_occupancy_modality" "occupancy is projected as a PIR sensor" id ∷ [],
    some (detected Profile.occupancy v),
  )

  -- The `match` on the type of a capability that has a value of its kind.
  unfoldable pub value_verdict : String → ApiValue → String → Verdict
  unfolding wire_bool wire_number
  value_verdict t value id =
      if str_eq t switch_on
      then switched Profile.on_off_light (wire_bool value) id
      else if str_eq t light_on
      then light_verdict (wire_bool value) id
      else if str_eq t outlet_on
      then switched Profile.outlet (wire_bool value) id
      else if str_eq t temperature_type
      then measuring Profile.temperature
          (number_within lowest_temperature highest_temperature (wire_number value))
          "invalid_temperature" "temperature must be between -273.15 and 327.66 °C" id
      else if str_eq t humidity_type
      then measuring Profile.humidity (number_within (of_ℕ 0) (of_ℕ 100) (wire_number value))
          "invalid_relative_humidity" "relative humidity must be between 0 and 100 percent" id
      else if str_eq t contact_open
      then contact_verdict (wire_bool value) id
      else occupancy_verdict (wire_bool value) id

  abbrev pub found_verdict : Option ApiValue → ApiCapability → Verdict
  found_verdict none c =
      refuse "error" "missing_capability_state" "capability has no current value" c.id
  found_verdict (some value) c = value_verdict c.capability_type value c.id

  abbrev pub kind_verdict : Option String → ApiCapability → Verdict
  kind_verdict none c =
      refuse "info" "unsupported_capability" "capability has no Matter mapping" c.id
  kind_verdict (some kind) c =
      if not (str_eq c.kind kind)
      then refuse "error" "invalid_capability_kind"
          "capability kind does not match its Matter mapping" c.id
      else if not (permitted c.capability_type c.permissions)
      then refuse "warning" "unsupported_permissions"
          "capability permissions cannot be represented safely" c.id
      else found_verdict (get c.id values) c

  unfoldable pub classify : ApiCapability → Verdict
  unfolding value_verdict
  classify c =
      if str_eq c.capability_type light_level
      then level_verdict lights c.id
      else kind_verdict (expected_kind c.capability_type) c
