-- ===== src/Plugin/Examples.antt =====
-- The theorem about devices of plugins at a concrete one, and a manifest.
use oikade.Adapter.Convert.{value_from_api, pick}
use oikade.Prelude.Text.{as_bytes, trim}
use oikade.Prelude.{◌≡◌, refl, true, false, some, none, List, [], ◌∷◌, String}
use oikade.Prelude.Result.{ok, err}
use oikade.Core.Model.{
  Device, bool_kind, bool, new_identifier, validate_value, validate_device, validate_capabilities,
  validate_capability, lookup_builtin_capability, validate_builtin, validate_identifier,
}
use oikade.Plugin.Wire.{PluginDevice}
use oikade.Plugin.Convert.{device_from_api}
use oikade.Plugin.ConvertLaws.{IsConverted, device_from_api-IsConverted}
use oikade.Plugin.Manifest.{Manifest, Component, check_executable, outside_artifact, validate_text}

abbrev lamp : PluginDevice
lamp = record {
  id = "lamp";
  name = "Lamp";
  manufacturer = "";
  model = "";
  capabilities =
      record {
        id = "on";
        capability_type = "oikade.light.on";
        name = "On";
        kind = "bool";
        permissions = record { read = true; write = true; observe = true };
        initial_value = record {
          kind = "bool";
          bool = some false;
          integer = none;
          number = none;
          string = none;
        };
      }
      ∷ [];
}

abbrev lamp_device : Device
lamp_device = record {
  id = "plugin.zigbee.lamp";
  name = "Lamp";
  manufacturer = "";
  model = "";
  capabilities =
      record {
        id = "on";
        capability_type = "oikade.light.on";
        name = "On";
        kind = bool_kind;
        permissions = record { read = true; write = true; observe = true };
        initial_value = bool false;
      }
      ∷ [];
}

converted_lamp : device_from_api "zigbee" lamp ≡ ok lamp_device
unfolding device_from_api new_identifier as_bytes value_from_api pick validate_value validate_device
    validate_capabilities validate_capability lookup_builtin_capability validate_builtin
converted_lamp = refl

device_from_api-IsConverted_example : IsConverted "zigbee" lamp lamp_device
device_from_api-IsConverted_example =
    device_from_api-IsConverted "zigbee" lamp lamp_device converted_lamp

-- An executable outside the directory of the plugin.
abbrev escaping : Manifest
escaping = record {
  api_version = 1;
  id = "example.plugin";
  name = "Example";
  version = "1";
  executable = "../plugin";
  args = [];
}

abbrev components : String → List Component
components path = Component.parent_dir ∷ Component.normal "plugin" ∷ []

escaping_refused : check_executable components escaping ≡ err outside_artifact
unfolding check_executable validate_identifier as_bytes validate_text trim
escaping_refused = refl
