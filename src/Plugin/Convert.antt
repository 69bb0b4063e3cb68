-- ===== src/Plugin/Convert.antt =====
-- crates/oikade-plugin-host/src/convert.rs: `device_from_api` and `kind_from_api`. Its `value_from_api`
-- is, but for the names of its errors, that of the adapter host.
use Prim.Native.String.{◌++◌ as str_append}
use text.Mathlib.Text.{◌==◌ as str_eq}
use oikade.Prelude.{String, List, [], ◌∷◌, if◌then◌else◌}
use oikade.Prelude.Result.{Result, ok, err, map_err, ◌>>=◌, ◌>>◌}
use oikade.Core.Model.{
  ValueKind, bool_kind, integer_kind, number_kind, string_kind, Capability, Device, Permissions,
  new_identifier, validate_device,
}
use oikade.Adapter.Wire.{ApiPermissions}
use oikade.Adapter.Convert.{ConvertError, invalid, unsupported_kind, value_from_api}
use oikade.Plugin.Wire.{PluginCapability, PluginDevice}

unfoldable pub kind_from_api : String → Result ConvertError ValueKind
kind_from_api kind =
    if str_eq kind "bool"
    then ok bool_kind
    else if str_eq kind "integer"
    then ok integer_kind
    else if str_eq kind "number"
    then ok number_kind
    else if str_eq kind "string"
    then ok string_kind
    else err (unsupported_kind kind)

abbrev pub permissions_from_api : ApiPermissions → Permissions
permissions_from_api p = record { read = p.read; write = p.write; observe = p.observe }

unfoldable pub capability_from_api : PluginCapability → Result ConvertError Capability
unfolding kind_from_api
capability_from_api c = do
  kind ← kind_from_api c.kind
  id ← map_err invalid (new_identifier c.id)
  capability_type ← map_err invalid (new_identifier c.capability_type)
  initial_value ← value_from_api c.initial_value
  ok (record {
    id = id;
    capability_type = capability_type;
    name = c.name;
    kind = kind;
    permissions = permissions_from_api c.permissions;
    initial_value = initial_value;
  })

unfoldable pub capabilities_from_api : List PluginCapability → Result ConvertError (List Capability)
unfolding capability_from_api
capabilities_from_api [] = ok []
capabilities_from_api (c ∷ cs) = do
  converted ← capability_from_api c
  rest ← capabilities_from_api cs
  ok (converted ∷ rest)

-- `format!("plugin.{instance_id}.{}", device.id)`
abbrev pub plugin_device_id : String → String → String
plugin_device_id instance_id id = str_append "plugin." (str_append instance_id (str_append "." id))

unfoldable pub device_from_api : String → PluginDevice → Result ConvertError Device
unfolding capabilities_from_api
device_from_api instance_id device = do
  id ← map_err invalid (new_identifier (plugin_device_id instance_id device.id))
  capabilities ← capabilities_from_api device.capabilities
  map_err invalid (
      validate_device (record {
        id = id;
        name = device.name;
        manufacturer = device.manufacturer;
        model = device.model;
        capabilities = capabilities;
      }))
  ok (record {
    id = id;
    name = device.name;
    manufacturer = device.manufacturer;
    model = device.model;
    capabilities = capabilities;
  })
