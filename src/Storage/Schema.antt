-- ===== src/Storage/Schema.antt =====
-- crates/oikade-storage/src/store.rs: the version of the database, and the marker beside it.
use text.Mathlib.Text.{◌==◌ as str_eq}
use oikade.Prelude.{
  ℕ, ◌*◌, ◌+◌, String, not, Option, none, some, List, [], ◌∷◌, ◌==◌, ltb, if◌then◌else◌,
}
use oikade.Prelude.Result.{Result, ok, err, fail_if, map_err, ◌>>=◌, ◌>>◌}
use oikade.Prelude.Text.{as_bytes}
use oikade.Storage.Keys.{
  StorageError, ambiguous_state, unsupported_engine, unsupported_format, schema_too_new, database,
}
use oikade.Storage.Bucket.{Table, Database, commit_prepared}

abbrev pub engine : String
engine = "redb"

abbrev pub state_format : ℕ
state_format = 1

abbrev pub schema_version : ℕ
schema_version = 1

-- `SCHEMA_VERSION.to_be_bytes()`
abbrev pub schema_version_bytes : List ℕ
schema_version_bytes = 0 ∷ 0 ∷ 0 ∷ 0 ∷ 0 ∷ 0 ∷ 0 ∷ schema_version ∷ []

-- `META` at `SCHEMA_VERSION_KEY`
abbrev pub version_place : Table × List ℕ
version_place = (Table.meta, as_bytes "schema_version")

pub record StateMarker : Type 0 where
  pub engine : String
  pub format : ℕ

unfoldable pub validate_marker : StateMarker → Result StorageError (Unit {0})
validate_marker marker = do
  fail_if (not (str_eq marker.engine engine)) (unsupported_engine marker.engine)
  fail_if (not (marker.format == state_format)) (unsupported_format marker.format state_format)
  ok tt

-- `u64::from_be_bytes`
abbrev pub from_be_bytes : ℕ → List ℕ → ℕ
from_be_bytes acc [] = acc
from_be_bytes acc (b ∷ bytes) = from_be_bytes (acc * 256 + b) bytes

unfoldable pub decode_schema_version : List ℕ → Result StorageError ℕ
decode_schema_version (a ∷ b ∷ c ∷ d ∷ e ∷ f ∷ g ∷ h ∷ []) =
    ok (from_be_bytes 0 (a ∷ b ∷ c ∷ d ∷ e ∷ f ∷ g ∷ h ∷ []))
decode_schema_version _ = err (ambiguous_state "database schema version has invalid encoding")

-- `map(decode_schema_version).transpose()?.unwrap_or(0)`
abbrev pub current_version : Option (List ℕ) → Result StorageError ℕ
current_version none = ok 0
current_version (some value) = decode_schema_version value

module _ (D : Database) where
  -- The tables of a new database.
  abbrev pub create_tables : D.Transaction → Result StorageError D.Transaction
  create_tables transaction = do
    transaction ← map_err database (D.open_table Table.devices transaction)
    transaction ← map_err database (D.open_table Table.plugins transaction)
    transaction ← map_err database (D.open_table Table.discovery transaction)
    map_err database (D.insert version_place.0 version_place.1 schema_version_bytes transaction)

  unfoldable pub prepare_schema : D.State → Result StorageError D.Transaction
  prepare_schema s = do
    transaction ← map_err database (D.begin_write s)
    transaction ← map_err database (D.open_table Table.meta transaction)
    value ← map_err database (D.find version_place.0 version_place.1 transaction)
    current ← current_version value
    fail_if (ltb schema_version current) (schema_too_new current schema_version)
    if ltb current 1 then create_tables transaction else ok transaction

  unfoldable pub initialize_schema : D.State → Result StorageError (Unit {0}) × D.State
  initialize_schema s = commit_prepared D (prepare_schema s) s
