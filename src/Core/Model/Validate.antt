-- ===== src/Core/Model/Validate.antt =====
-- crates/oikade-core/src/model.rs: `Capability::validate` and `Device::validate`.
use text.Mathlib.Text.{◌==◌ as str_eq}
use oikade.Prelude.{String, Bool, true, false, not, ◌||◌, List, [], ◌∷◌, Option, none, some}
use oikade.Prelude.Result.{Result, ok, fail_if, ◌>>◌}
use oikade.Prelude.Text.{is_blank}
use oikade.Core.Model.Types.{
  CapabilityId, ModelError, Capability, Device, kind, kind_eq, any, validate_value,
  capability_name_required, kind_for_type, no_permission, initial_value_kind, device_name_required,
  device_without_capability, duplicate_capability,
}
use oikade.Core.Model.Builtin.{BuiltinCapability, lookup_builtin_capability, validate_builtin}

-- The two `if let Some(builtin)` steps of `Capability::validate`.
abbrev check_builtin_kind : Option BuiltinCapability → Capability → Result ModelError (Unit {0})
check_builtin_kind none c = ok tt
check_builtin_kind (some b) c =
    fail_if (not (kind_eq c.kind b.kind)) (kind_for_type c.id c.kind b.kind c.capability_type)

abbrev check_builtin_value : Option BuiltinCapability → Capability → Result ModelError (Unit {0})
check_builtin_value none c = ok tt
check_builtin_value (some b) c = validate_builtin b c.initial_value

unfoldable pub validate_capability : Capability → Result ModelError (Unit {0})
unfolding is_blank kind_eq validate_value
validate_capability c = do
  fail_if (is_blank c.name) (capability_name_required c.id)
  check_builtin_kind (lookup_builtin_capability c.capability_type) c
  fail_if (not (any c.permissions)) (no_permission c.id)
  validate_value c.initial_value
  fail_if (not (kind_eq (kind c.initial_value) c.kind))
      (initial_value_kind c.id (kind c.initial_value) c.kind)
  check_builtin_value (lookup_builtin_capability c.capability_type) c

-- Membership in the set `seen` of identifiers.
unfoldable pub contains : CapabilityId → List CapabilityId → Bool
contains i [] = false
contains i (j ∷ seen) = str_eq j i || contains i seen

-- The loop of `Device::validate`.
unfoldable pub validate_capabilities :
    String → List CapabilityId → List Capability → Result ModelError (Unit {0})
unfolding contains
validate_capabilities device seen [] = ok tt
validate_capabilities device seen (c ∷ cs) = do
  validate_capability c
  fail_if (contains c.id seen) (duplicate_capability device c.id)
  validate_capabilities device (c.id ∷ seen) cs

abbrev is_nil : List Capability → Bool
is_nil [] = true
is_nil (c ∷ cs) = false

unfoldable pub validate_device : Device → Result ModelError (Unit {0})
unfolding is_blank
validate_device d = do
  fail_if (is_blank d.name) (device_name_required d.id)
  fail_if (is_nil d.capabilities) (device_without_capability d.id)
  validate_capabilities d.id [] d.capabilities
