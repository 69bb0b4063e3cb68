-- ===== src/Storage/DeviceState.antt =====
-- crates/oikade-storage/src/device_state.rs: the stored form of a device's values, in a bucket of the
-- database. serde_json is a parameter.
use Prim.Native.String.{◌++◌ as str_append}
use text.Mathlib.Text.{◌==◌ as str_eq}
use oikade.Prelude.{
  ℕ, ◌+◌, String, Bool, not, Option, none, some, List, [], ◌∷◌, ltb, length, ◌==◌, if◌then◌else◌,
}
use oikade.Prelude.Result.{Result, ok, err, fail_if, map_err, ◌>>=◌, ◌>>◌}
use oikade.Prelude.Maps.{Map, insert, string_key}
use oikade.Prelude.Float.{F64}
use oikade.Prelude.Int.{ℤ}
use oikade.Storage.Keys.{StorageError, not_found}
use oikade.Storage.Bucket.{Database, Namespace, Bucket, bucket, get, set}
use oikade.Core.Model.{
  DeviceId, CapabilityId, Value, bool, integer, number, string, ModelError, validate_value,
  validate_identifier, new_identifier,
}

abbrev pub device_state_format : ℕ
device_state_format = 1

abbrev pub max_device_state_size : ℕ
max_device_state_size = 1048576

pub record PersistedValue : Type 0 where
  pub kind : String
  pub bool : Option Bool
  pub integer : Option ℤ
  pub number : Option F64
  pub string : Option String

pub record PersistedDeviceState : Type 0 where
  pub version : ℕ
  pub values : Map String PersistedValue

-- `DeviceStateError`; an error of JSON is its text.
pub data DeviceStateError : Type 0 where
  payload_count too_large : DeviceStateError
  wrong_payload unsupported_kind : String → DeviceStateError
  invalid : ModelError → DeviceStateError
  unsupported_format : ℕ → ℕ → DeviceStateError
  storage : StorageError → DeviceStateError
  decoding : String → DeviceStateError

-- `From<Value> for PersistedValue`
unfoldable pub from_value : Value → PersistedValue
from_value (bool b) = record {
  kind = "bool";
  bool = some b;
  integer = none;
  number = none;
  string = none;
}
from_value (integer i) = record {
  kind = "integer";
  bool = none;
  integer = some i;
  number = none;
  string = none;
}
from_value (number x) = record {
  kind = "number";
  bool = none;
  integer = none;
  number = some x;
  string = none;
}
from_value (string s) = record {
  kind = "string";
  bool = none;
  integer = none;
  number = none;
  string = some s;
}

abbrev pub count : {A : Type 0} → Option A → ℕ
count none = 0
count (some a) = 1

abbrev pub persisted_payloads : PersistedValue → ℕ
persisted_payloads v = count v.bool + count v.integer + count v.number + count v.string

abbrev as_value : {A : Type 0} → (A → Value) → String → Option A → Result DeviceStateError Value
as_value f name none = err (wrong_payload name)
as_value f name (some a) = ok (f a)

-- The `match` on the kind.
unfoldable pub decode_kind : PersistedValue → Result DeviceStateError Value
decode_kind v =
    if str_eq v.kind "bool"
    then as_value bool "bool" v.bool
    else if str_eq v.kind "integer"
    then as_value integer "integer" v.integer
    else if str_eq v.kind "number"
    then as_value number "number" v.number
    else if str_eq v.kind "string"
    then as_value string "string" v.string
    else err (unsupported_kind v.kind)

-- `TryFrom<PersistedValue> for Value`
unfoldable pub try_into : PersistedValue → Result DeviceStateError Value
unfolding decode_kind
try_into v = do
  fail_if (not (persisted_payloads v == 1)) payload_count
  decoded ← decode_kind v
  map_err invalid (validate_value decoded)
  ok decoded

-- `BTreeMap` as a loop sees it: the entries in the order of the keys.
unfoldable pub decode_values :
    Map String PersistedValue
    → Map CapabilityId Value
    → Result DeviceStateError (Map CapabilityId Value)
decode_values [] values = ok values
decode_values ((raw_id, persisted) ∷ record_values) values = do
  map_err invalid (validate_identifier raw_id)
  capability_id ← map_err invalid (new_identifier raw_id)
  value ← try_into persisted
  decode_values record_values (insert capability_id value values)

unfoldable pub encode_values :
    Map CapabilityId Value
    → Map String PersistedValue
    → Result DeviceStateError (Map String PersistedValue)
encode_values [] persisted = ok persisted
encode_values ((capability_id, value) ∷ values) persisted = do
  map_err invalid (validate_value value)
  encode_values values (insert capability_id (from_value value) persisted)

abbrev pub state_key : DeviceId → String
state_key id = str_append id ".state.json"

-- `DeviceStateStore::new`
abbrev pub device_bucket : Bucket
device_bucket = bucket Namespace.devices

-- serde_json's reader and printer of `PersistedDeviceState`.
pub record Json : Type 0 where
  pub from_slice : List ℕ → Result String PersistedDeviceState
  pub to_vec : PersistedDeviceState → Result String (List ℕ)

module _ (D : Database) (J : Json) where
  abbrev pub decode_record : PersistedDeviceState → Result DeviceStateError (Map CapabilityId Value)
  decode_record r = do
    fail_if (not (r.version == device_state_format))
        (unsupported_format r.version device_state_format)
    decode_values r.values []

  abbrev pub decode_bytes : List ℕ → Result DeviceStateError (Option (Map CapabilityId Value))
  decode_bytes encoded = do
    fail_if (ltb max_device_state_size (length encoded)) too_large
    r ← map_err decoding (J.from_slice encoded)
    values ← decode_record r
    ok (some values)

  abbrev pub decode_fetched :
      Result StorageError (List ℕ) → Result DeviceStateError (Option (Map CapabilityId Value))
  decode_fetched (ok encoded) = decode_bytes encoded
  decode_fetched (err not_found) = ok none
  decode_fetched (err e) = err (storage e)

  unfoldable pub load :
      DeviceId → D.State → Result DeviceStateError (Option (Map CapabilityId Value))
  load id s = decode_fetched (get D device_bucket (state_key id) s)

  -- The bytes that `save` writes.
  unfoldable pub encode_state : Map CapabilityId Value → Result DeviceStateError (List ℕ)
  encode_state values = do
    persisted ← encode_values values []
    encoded ←
        map_err decoding (J.to_vec (record { version = device_state_format; values = persisted }))
    fail_if (ltb max_device_state_size (length encoded)) too_large
    ok encoded

  abbrev pub store_bytes :
      DeviceId
      → Result DeviceStateError (List ℕ)
      → D.State
      → Result DeviceStateError (Unit {0}) × D.State
  store_bytes id (err e) s = (err e, s)
  store_bytes id (ok encoded) s =
      let (x, s') = set D device_bucket (state_key id) encoded s in (map_err storage x, s')

  unfoldable pub save :
      DeviceId → Map CapabilityId Value → D.State → Result DeviceStateError (Unit {0}) × D.State
  save id values s = store_bytes id (encode_state values) s
