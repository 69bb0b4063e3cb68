-- ===== src/Core/Runtime/Value.antt =====
-- crates/oikade-core/src/runtime/subscription.rs: `validate_capability_value`.
use oikade.Prelude.{not, Option, none, some}
use oikade.Prelude.Result.{Result, map_err, fail_if, ◌>>◌}
use oikade.Core.Model.{
  Value, Capability, BuiltinCapability, kind, kind_eq, validate_value, validate_builtin,
  lookup_builtin_capability, ModelError,
}
use oikade.Core.Runtime.Types.{RuntimeError, invalid_value, model_error, requires_kind}

abbrev of_model : ModelError → RuntimeError
of_model e = invalid_value (model_error e)

abbrev check_value : Option BuiltinCapability → Capability → Value → Result RuntimeError (Unit {0})
check_value (some builtin) c v = map_err of_model (validate_builtin builtin v)
check_value none c v = do
  map_err of_model (validate_value v)
  fail_if (not (kind_eq (kind v) c.kind)) (invalid_value (requires_kind c.id c.kind (kind v)))

unfoldable pub validate_capability_value : Capability → Value → Result RuntimeError (Unit {0})
validate_capability_value c v = check_value (lookup_builtin_capability c.capability_type) c v
