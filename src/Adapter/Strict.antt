-- ===== src/Adapter/Strict.antt =====
-- crates/oikade-adapter-api/src/codec.rs: `decode_envelope` and its visitor, which refuses an object
-- with two fields of one name. serde_json's deserializer is a parameter, as what it hands to the
-- visitor; so are its readings of a value.
use text.Mathlib.Text.{◌==◌ as str_eq}
use oikade.Prelude.{ℕ, String, Bool, false, ◌||◌, List, [], ◌∷◌, not}
use oikade.Prelude.{if◌then◌else◌}
use oikade.Prelude.Result.{Result, ok, fail_if, ◌>>=◌, ◌>>◌}
use oikade.Prelude.Int.{ℤ}
use oikade.Prelude.Float.{F64, is_finite}
use oikade.Prelude.Text.{string_lt}
use oikade.Adapter.Wire.{Envelope}

-- `Number::from` an `i64`, a `u64`, and `Number::from_f64`.
pub data Number : Type 0 where
  from_i64 : ℤ → Number
  from_u64 : ℕ → Number
  from_f64 : F64 → Number

-- The calls of the visitor for a JSON text, in the order of the text. (`visit_none` and `visit_string`
-- do what `visit_unit` and `visit_str` do.)
mutual
  pub data Visit : Type 0 where
    unit : Visit
    bool : Bool → Visit
    i64 : ℤ → Visit
    u64 : ℕ → Visit
    f64 : F64 → Visit
    str : String → Visit
    seq : Elements → Visit
    map : Members → Visit

  pub data Elements : Type 0 where
    no_elements : Elements
    element : Visit → Elements → Elements

  pub data Members : Type 0 where
    no_members : Members
    member : String → Visit → Members → Members

-- `serde_json::Value`; its `Map` has the fields in the order of the names.
mutual
  pub data Value : Type 0 where
    null : Value
    boolean : Bool → Value
    number : Number → Value
    string : String → Value
    array : Values → Value
    object : Fields → Value

  pub data Values : Type 0 where
    no_values : Values
    value : Value → Values → Values

  pub data Fields : Type 0 where
    no_fields : Fields
    field : String → Value → Fields → Fields

-- `Map::insert`
unfoldable pub insert_field : String → Value → Fields → Fields
insert_field k v no_fields = field k v no_fields
insert_field k v (field j w fs) =
    let rest = insert_field k v fs in
    if str_eq j k
    then field k v fs
    else if string_lt k j
    then field k v (field j w fs)
    else field j w rest

unfoldable pub is_key : String → List String → Bool
is_key k [] = false
is_key k (j ∷ keys) = str_eq j k || is_key k keys

-- The text of this error leaves out the key.
abbrev pub duplicate_key : String
duplicate_key = "duplicate object key"

abbrev pub non_finite : String
non_finite = "non-finite JSON number"

-- `StrictVisitor`, with the loops of `visit_seq` and `visit_map`.
unfoldable mutual
  unfolding is_key insert_field

  pub strict : Visit → Result String Value
  strict unit = ok null
  strict (bool b) = ok (boolean b)
  strict (i64 n) = ok (number (from_i64 n))
  strict (u64 n) = ok (number (from_u64 n))
  strict (f64 x) = fail_if (not (is_finite x)) non_finite >> ok (number (from_f64 x))
  strict (str s) = ok (string s)
  strict (seq es) = strict_elements es >>= λ vs. ok (array vs)
  strict (map ms) = strict_members ms [] no_fields >>= λ fs. ok (object fs)

  pub strict_elements : Elements → Result String Values
  strict_elements no_elements = ok no_values
  strict_elements (element e es) = strict e >>= λ v. strict_elements es >>= λ vs. ok (value v vs)

  pub strict_members : Members → List String → Fields → Result String Fields
  strict_members no_members keys fs = ok fs
  strict_members (member k e ms) keys fs =
      fail_if (is_key k keys) duplicate_key
      >> (strict e >>= λ v. strict_members ms (k ∷ keys) (insert_field k v fs))

-- `decode_envelope`; `visits` stands for the deserializer and its `end`, `from_value` for serde_json's.
module _ (visits : List ℕ → Result String Visit) (from_value : Value → Result String Envelope) where
  unfoldable pub decode_envelope : List ℕ → Result String Envelope
  unfolding strict
  decode_envelope bytes = do visit ← visits bytes; checked ← strict visit; from_value checked
