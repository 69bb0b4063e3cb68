-- ===== src/Plugin/ConvertLaws.antt =====
-- What a plugin announces is a valid device of its own.
use text.Mathlib.TextEquality.{eq_iff}
use oikade.Prelude.{◌≡◌, refl, sym, ap, subst, String, List, [], ◌∷◌, map, arith}
use oikade.Prelude.Result.{ok, map_err, map_err-ok, bind-ok, ok_injective}
use oikade.Core.Model.{
  Capability, Device, new_identifier, validate_identifier, validate_device, ValueKind, kind_as_str,
}
use oikade.Core.Model.DeviceLaws.{IsValidDevice, validate_device_iff}
use oikade.Adapter.Convert.{invalid, value_from_api, value_to_api}
use oikade.Adapter.ConvertLaws.{value_to_api-value_from_api}
use oikade.Plugin.Wire.{PluginCapability, PluginDevice}
use oikade.Plugin.Convert.{
  kind_from_api, capability_from_api, capabilities_from_api, plugin_device_id, device_from_api,
}

kind_as_str-kind_from_api :
    (s : String) (k : ValueKind) → kind_from_api s ≡ ok k → kind_as_str k ≡ s
unfolding kind_from_api
kind_as_str-kind_from_api s k h =
    ground (arith, eq_iff s "bool", eq_iff s "integer", eq_iff s "number", eq_iff s "string")

new_identifier-same : (s t : String) → new_identifier s ≡ ok t → s ≡ t
unfolding new_identifier
new_identifier-same s t h =
    let (u, valid, done) = bind-ok (validate_identifier s) _ _ h in ok_injective done

-- A capability as a plugin announces it.
abbrev pub announced : Capability → PluginCapability
announced c = record {
  id = c.id;
  capability_type = c.capability_type;
  name = c.name;
  kind = kind_as_str c.kind;
  permissions = record {
    read = c.permissions.read;
    write = c.permissions.write;
    observe = c.permissions.observe;
  };
  initial_value = value_to_api c.initial_value;
}

announced-capability_from_api :
    (c : PluginCapability) (x : Capability) → capability_from_api c ≡ ok x → announced x ≡ c
unfolding capability_from_api
announced-capability_from_api c x h =
    let (kind, kinded, h1) = bind-ok (kind_from_api c.kind) _ _ h in
    let (id, named, h2) = bind-ok (map_err invalid (new_identifier c.id)) _ _ h1 in
    let (type, typed, h3) = bind-ok (map_err invalid (new_identifier c.capability_type)) _ _ h2 in
    let (value, valued, h4) = bind-ok (value_from_api c.initial_value) _ _ h3 in
    let same_kind = kind_as_str-kind_from_api c.kind kind kinded in
    let same_id = new_identifier-same c.id id (map_err-ok _ _ _ named) in
    let same_type = new_identifier-same c.capability_type type (map_err-ok _ _ _ typed) in
    let same_value = value_to_api-value_from_api c.initial_value value valued in
    subst (λ y. announced y ≡ c) (ok_injective h4)
      (λ i. record {
        id = sym same_id i;
        capability_type = sym same_type i;
        name = c.name;
        kind = same_kind i;
        permissions = c.permissions;
        initial_value = same_value i;
      })

announced-capabilities_from_api :
    (cs : List PluginCapability) (xs : List Capability)
    → capabilities_from_api cs ≡ ok xs
    → map announced xs ≡ cs
unfolding capabilities_from_api
announced-capabilities_from_api [] xs h = ap (map announced) (sym (ok_injective h))
announced-capabilities_from_api (c ∷ cs) xs h =
    let (x, converted, h1) = bind-ok (capability_from_api c) _ _ h in
    let (rest, others, h2) = bind-ok (capabilities_from_api cs) _ _ h1 in
    let first = announced-capability_from_api c x converted in
    let later = announced-capabilities_from_api cs rest others in
    subst (λ ys. map announced ys ≡ c ∷ cs) (ok_injective h2) (λ i. first i ∷ later i)

-- The device of a plugin: valid, under an identifier that names the plugin, and otherwise as announced.
pub record IsConverted (instance_id : String) (device : PluginDevice) (x : Device) : Type 0 where
  pub valid : IsValidDevice x
  pub id_eq : x.id ≡ plugin_device_id instance_id device.id
  pub described :
      (x.name ≡ device.name) × (x.manufacturer ≡ device.manufacturer) × (x.model ≡ device.model)
  pub capabilities_eq : map announced x.capabilities ≡ device.capabilities

-- A device that a plugin announces becomes, if it is accepted, a valid device under an identifier that
-- names the plugin's instance, with the names and exactly the capabilities that were announced.
pub device_from_api-IsConverted :
    (instance_id : String) (device : PluginDevice) (x : Device)
    → device_from_api instance_id device ≡ ok x
    → IsConverted instance_id device x
unfolding device_from_api
device_from_api-IsConverted instance_id device x h =
    let (id, named, h1) =
      bind-ok (map_err invalid (new_identifier (plugin_device_id instance_id device.id))) _ _ h in
    let (capabilities, converted, h2) =
      bind-ok (capabilities_from_api device.capabilities) _ _ h1 in
    let d : Device = record {
      id = id;
      name = device.name;
      manufacturer = device.manufacturer;
      model = device.model;
      capabilities = capabilities;
    } in
    let (u, valid, h3) = bind-ok (map_err invalid (validate_device d)) _ _ h2 in
    subst (IsConverted instance_id device) (ok_injective h3) (record {
      valid = (validate_device_iff d).0 (map_err-ok _ _ _ valid);
      id_eq = sym (new_identifier-same _ id (map_err-ok _ _ _ named));
      described = (refl, refl, refl);
      capabilities_eq = announced-capabilities_from_api device.capabilities capabilities converted;
    })
