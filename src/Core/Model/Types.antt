-- ===== src/Core/Model/Types.antt =====
-- crates/oikade-core/src/model.rs: identifiers, values, permissions, capabilities and devices.
use text.Mathlib.Text.{◌==◌ as str_eq}
use text.Mathlib.TextEquality.{eq_iff}
use oikade.Prelude.{String, Bool, true, false, ◌||◌, List, ◌≡◌, refl, arith}
use oikade.Prelude.Result.{Result, ok, fail_if}
use oikade.Prelude.Float.{F64, is_finite, f64_eq, f64_eq_refl}
use oikade.Prelude.Int.{ℤ, int_eq, int_eq_refl}

-- The three newtypes over `String`; `new` is in `Identifier`.
abbrev pub DeviceId : Type 0
DeviceId = String

abbrev pub CapabilityId : Type 0
CapabilityId = String

abbrev pub CapabilityType : Type 0
CapabilityType = String

pub data ValueKind : Type 0 where
  bool_kind integer_kind number_kind string_kind : ValueKind

unfoldable pub kind_eq : ValueKind → ValueKind → Bool
kind_eq bool_kind bool_kind = true
kind_eq integer_kind integer_kind = true
kind_eq number_kind number_kind = true
kind_eq string_kind string_kind = true
kind_eq _ _ = false

abbrev pub kind_as_str : ValueKind → String
kind_as_str bool_kind = "bool"
kind_as_str integer_kind = "integer"
kind_as_str number_kind = "number"
kind_as_str string_kind = "string"

pub data Value : Type 0 where
  bool : Bool → Value
  integer : ℤ → Value
  number : F64 → Value
  string : String → Value

abbrev pub kind : Value → ValueKind
kind (bool b) = bool_kind
kind (integer i) = integer_kind
kind (number n) = number_kind
kind (string s) = string_kind

abbrev bool_eq : Bool → Bool → Bool
bool_eq true b = b
bool_eq false true = false
bool_eq false false = true

-- The derived `PartialEq`.
unfoldable pub value_eq : Value → Value → Bool
unfolding int_eq f64_eq
value_eq (bool a) (bool b) = bool_eq a b
value_eq (integer a) (integer b) = int_eq a b
value_eq (number a) (number b) = f64_eq a b
value_eq (string a) (string b) = str_eq a b
value_eq _ _ = false

pub data ModelError : Type 0 where
  number_not_finite identifier_empty identifier_too_long identifier_bytes : ModelError
  device_name_required device_without_capability : DeviceId → ModelError
  duplicate_capability : DeviceId → CapabilityId → ModelError
  capability_name_required no_permission : CapabilityId → ModelError
  kind_for_type : CapabilityId → ValueKind → ValueKind → CapabilityType → ModelError
  initial_value_kind : CapabilityId → ValueKind → ValueKind → ModelError
  type_requires_kind : CapabilityType → ValueKind → ValueKind → ModelError
  not_a_percentage : CapabilityType → F64 → ModelError

abbrev is_bad_number : Value → Bool
is_bad_number (number x) = elim (is_finite x) [ true ↦ false | false ↦ true ]
is_bad_number _ = false

-- `Value::validate`
unfoldable pub validate_value : Value → Result ModelError (Unit {0})
unfolding is_finite
validate_value v = fail_if (is_bad_number v) number_not_finite

pub record Permissions : Type 0 where
  pub read : Bool
  pub write : Bool
  pub observe : Bool

abbrev pub any : Permissions → Bool
any p = p.read || p.write || p.observe

pub record Capability : Type 0 where
  pub id : CapabilityId
  pub capability_type : CapabilityType
  pub name : String
  pub kind : ValueKind
  pub permissions : Permissions
  pub initial_value : Value

pub record Device : Type 0 where
  pub id : DeviceId
  pub name : String
  pub manufacturer : String
  pub model : String
  pub capabilities : List Capability

-- A valid value equals itself. (Of two equal values one may be 0.0 and the other -0.0.)
pub value_eq_refl : (v : Value) → validate_value v ≡ ok tt → value_eq v v ≡ true
unfolding validate_value value_eq
value_eq_refl (bool b) h = ground arith
value_eq_refl (integer i) h = int_eq_refl i
value_eq_refl (number x) h = ground (arith, f64_eq_refl x)
value_eq_refl (string s) h = (eq_iff s s).1 refl

pub kind-value_eq : (v w : Value) → value_eq v w ≡ true → kind v ≡ kind w
unfolding value_eq
kind-value_eq (bool a) (bool b) h = refl
kind-value_eq (integer a) (integer b) h = refl
kind-value_eq (number a) (number b) h = refl
kind-value_eq (string a) (string b) h = refl
kind-value_eq _ _ h = cc
