-- ===== src/Matter/Build.antt =====
-- apps/oikade-matter-adapter/src/projection.rs: `ProjectionBuilder::build`. The file of the mappings is
-- a parameter.
use text.Mathlib.Text.{◌==◌ as str_eq}
use oikade.Prelude.{
  ℕ, String, Bool, true, false, ◌||◌, Option, none, some, List, [], ◌∷◌, ◌++◌, length, ltb,
  if◌then◌else◌,
}
use oikade.Prelude.Result.{Result, ok, err, fail_if, ◌>>=◌, ◌>>◌}
use oikade.Prelude.Maps.{Map, string_key}
use oikade.Prelude.Float.{F64}
use oikade.Adapter.Wire.{ApiCapability, ApiDevice, ApiValue, ApiDeviceState}
use oikade.Matter.Endpoints.{EndpointMappings, AllocateError, exhausted, allocate}
use oikade.Matter.Shapes.{
  Profile, Shape, Diagnostic, Verdict, diagnostic, not_empty, light_on, light_level,
}
use oikade.Matter.Naming.{truncate_utf8, mapping_key, unique_id}
use oikade.Matter.Classify.{classify, of_type, value_map}

abbrev pub max_dynamic_endpoints : ℕ
max_dynamic_endpoints = 16

pub record Projection : Type 0 where
  pub endpoint : ℕ
  pub device_id : String
  pub primary_capability_id : String
  pub level_capability_id : Option String
  pub name : String
  pub unique_id : String
  pub profile : Profile
  pub on : Option Bool
  pub level : Option F64
  pub sensor : Option F64
  pub binary_sensor : Option Bool

pub record ProjectionRef : Type 0 where
  pub device_id : String
  pub capability_id : String

-- An `io::Error` is its text.
pub data SyncError : Type 0 where
  capacity : ℕ → SyncError
  persistence : String → SyncError

-- The variables of `build`.
pub record Building : Type 0 where
  pub mappings : EndpointMappings
  pub result : List Projection
  pub refs : List ProjectionRef
  pub diagnostics : List Diagnostic

abbrev pub level_refs : String → Option String → List ProjectionRef
level_refs device_id none = []
level_refs device_id (some id) = record { device_id = device_id; capability_id = id } ∷ []

abbrev pub projection : ApiDevice → String → Shape → ℕ → Projection
projection device id shape endpoint = record {
  endpoint = endpoint;
  device_id = device.id;
  primary_capability_id = id;
  level_capability_id = shape.level_id;
  name = truncate_utf8 device.name 32;
  unique_id = unique_id device.id id;
  profile = shape.profile;
  on = shape.on;
  level = shape.level;
  sensor = shape.sensor;
  binary_sensor = shape.binary_sensor;
}

abbrev pub add_allocated :
    ApiDevice
    → String
    → Shape
    → Result AllocateError ℕ × EndpointMappings
    → Building
    → Result SyncError Building
add_allocated device id shape (err exhausted, mappings) b =
    err (persistence "Matter endpoint IDs exhausted")
add_allocated device id shape (ok endpoint, mappings) b = ok (record {
  mappings = mappings;
  result = b.result ++ projection device id shape endpoint ∷ [];
  refs =
      b.refs
      ++ (record { device_id = device.id; capability_id = id }
          ∷ level_refs device.id shape.level_id);
  diagnostics = b.diagnostics;
})

abbrev pub add_shape : ApiDevice → String → Option Shape → Building → Result SyncError Building
add_shape device id none b = ok b
add_shape device id (some shape) b =
    add_allocated device id shape (allocate (mapping_key device.id id) b.mappings) b

abbrev pub add_verdict : ApiDevice → String → Verdict → Building → Result SyncError Building
add_verdict device id (diagnostics, shape) b =
    add_shape device id shape (record b { diagnostics = b.diagnostics ++ diagnostics })

unfoldable pub add_capabilities :
    ApiDevice → Map String ApiValue → List ApiCapability → Building → Result SyncError Building
unfolding of_type classify
add_capabilities device values [] b = ok b
add_capabilities device values (c ∷ cs) b = do
  b ←
      add_verdict device c.id
        (classify device.id values (of_type light_on device.capabilities)
          (of_type light_level device.capabilities) c)
        b
  add_capabilities device values cs b

abbrev pub is_empty : {A : Type 0} → List A → Bool
is_empty [] = true
is_empty (x ∷ xs) = false

abbrev pub push : Diagnostic → Building → Building
push d b = record b { diagnostics = b.diagnostics ++ d ∷ [] }

unfoldable pub add_device : ApiDeviceState → Building → Result SyncError Building
unfolding add_capabilities value_map
add_device state b =
    if str_eq state.device.id "" || str_eq state.device.name ""
    then ok (
        push
          (diagnostic "error" "invalid_device" "device ID and name are required"
            (not_empty state.device.id) none)
          b)
    else if is_empty state.device.capabilities
    then ok (
        push
          (diagnostic "info" "unsupported_device" "device has no capabilities to project"
            (not_empty state.device.id) none)
          b)
    else add_capabilities state.device (value_map state.values []) state.device.capabilities b

unfoldable pub add_devices : List ApiDeviceState → Building → Result SyncError Building
unfolding add_device
add_devices [] b = ok b
add_devices (state ∷ states) b = do b ← add_device state b; add_devices states b

abbrev pub BuiltProjection : Type 0
BuiltProjection = List Projection × List ProjectionRef × List Diagnostic

abbrev pub new_building : EndpointMappings → Building
new_building mappings = record { mappings = mappings; result = []; refs = []; diagnostics = [] }

-- `save` writes the mappings to their file.
module _ (save : EndpointMappings → Result String (Unit {0})) where
  abbrev pub save_mappings : Result String (Unit {0}) → Result SyncError (Unit {0})
  save_mappings (ok u) = ok u
  save_mappings (err e) = err (persistence e)

  unfoldable pub build_all : EndpointMappings → List ApiDeviceState → Result SyncError Building
  build_all mappings devices = do
    b ← add_devices devices (new_building mappings)
    fail_if (ltb max_dynamic_endpoints (length b.result)) (capacity (length b.result))
    save_mappings (save b.mappings)
    ok b

  abbrev pub built :
      EndpointMappings
      → Result SyncError Building
      → Result SyncError BuiltProjection × EndpointMappings
  built mappings (err e) = (err e, mappings)
  built mappings (ok b) = (ok (b.result, b.refs, b.diagnostics), b.mappings)

  -- `build`, with the mappings that the builder keeps.
  unfoldable pub build :
      EndpointMappings → List ApiDeviceState → Result SyncError BuiltProjection × EndpointMappings
  build mappings devices = built mappings (build_all mappings devices)
