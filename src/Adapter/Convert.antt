-- ===== src/Adapter/Convert.antt =====
-- crates/oikade-adapter-host/src/projection.rs: `value_from_api` and `value_to_api`.
use text.Mathlib.Text.{◌==◌ as str_eq}
use oikade.Prelude.{ℕ, ◌+◌, String, not, Option, none, some, ◌==◌, if◌then◌else◌}
use oikade.Prelude.Result.{Result, ok, err, fail_if, map_err, ◌>>=◌, ◌>>◌}
use oikade.Core.Model.{
  Value, bool, integer, number, string, ModelError, kind, kind_as_str, validate_value,
}
use oikade.Adapter.Wire.{ApiValue}

-- The texts that the conversion returns.
pub data ConvertError : Type 0 where
  payload_count : ConvertError
  wrong_payload unsupported_kind : String → ConvertError
  invalid : ModelError → ConvertError

-- `usize::from(o.is_some())`
abbrev pub count : {A : Type 0} → Option A → ℕ
count none = 0
count (some a) = 1

abbrev pub payloads : ApiValue → ℕ
payloads v = count v.bool + count v.integer + count v.number + count v.string

abbrev pub as_value : {A : Type 0} → (A → Value) → String → Option A → Result ConvertError Value
as_value f name none = err (wrong_payload name)
as_value f name (some a) = ok (f a)

-- The `match` on the kind.
unfoldable pub pick : ApiValue → Result ConvertError Value
pick v =
    if str_eq v.kind "bool"
    then as_value bool "bool" v.bool
    else if str_eq v.kind "integer"
    then as_value integer "integer" v.integer
    else if str_eq v.kind "number"
    then as_value number "number" v.number
    else if str_eq v.kind "string"
    then as_value string "string" v.string
    else err (unsupported_kind v.kind)

unfoldable pub value_from_api : ApiValue → Result ConvertError Value
value_from_api v = do
  fail_if (not (payloads v == 1)) payload_count
  value ← pick v
  map_err invalid (validate_value value)
  ok value

abbrev no_payload : Value → ApiValue
no_payload v = record {
  kind = kind_as_str (kind v);
  bool = none;
  integer = none;
  number = none;
  string = none;
}

unfoldable pub value_to_api : Value → ApiValue
value_to_api (bool b) = record (no_payload (bool b)) { bool = some b }
value_to_api (integer i) = record (no_payload (integer i)) { integer = some i }
value_to_api (number x) = record (no_payload (number x)) { number = some x }
value_to_api (string s) = record (no_payload (string s)) { string = some s }
