-- ===== src/Storage/Bucket.antt =====
-- crates/oikade-storage/src/store.rs: the buckets of the database.
use Prim.Native.String.{◌∷◌ as str_cons, [] as str_nil}
use text.Mathlib.Text.{◌==◌ as str_eq}
use oikade.Prelude.{
  ℕ, String, Bool, true, false, ◌&&◌, ◌||◌, Option, none, some, List, [], ◌∷◌, ◌++◌, if◌then◌else◌,
}
use oikade.Prelude.Result.{Result, ok, err, ok_or, map_err, ◌>>=◌, ◌>>◌}
use oikade.Prelude.Text.{string_lt}
use oikade.Storage.Keys.{StorageError, not_found, database, validate_name, encode_key, decode_key}

-- The tables of the database: `META`, `DEVICES`, `PLUGINS` and `DISCOVERY`.
pub data Table : Type 0 where
  meta devices plugins discovery : Table

-- The database, which keeps byte strings under byte strings. A write transaction that is not
-- committed has no effect. A `&str` key of `META` is its bytes.
pub record Database : Type 1 where
  pub State : Type 0
  pub Transaction : Type 0
  pub begin_write : State → Result String Transaction
  pub begin_read : State → Result String Transaction
  pub open_table : Table → Transaction → Result String Transaction
  pub find : Table → List ℕ → Transaction → Result String (Option (List ℕ))
  pub insert : Table → List ℕ → List ℕ → Transaction → Result String Transaction
  pub remove : Table → List ℕ → Transaction → Result String (Option (List ℕ) × Transaction)
  pub iter : Table → Transaction → Result String (List (Result String (List ℕ × List ℕ)))
  pub commit : Transaction → State → Result String (Unit {0}) × State

pub data Namespace : Type 0 where
  devices plugins discovery : Namespace

abbrev pub table_for : Namespace → Table
table_for Namespace.devices = Table.devices
table_for Namespace.plugins = Table.plugins
table_for Namespace.discovery = Table.discovery

-- The bucket's reference to the database is the state that its operations take.
pub record Bucket : Type 0 where
  pub namespace : Namespace
  pub scopes : List String

-- `Storage::bucket`
abbrev pub bucket : Namespace → Bucket
bucket namespace = record { namespace = namespace; scopes = [] }

unfoldable pub scope : Bucket → String → Result StorageError Bucket
scope b name = do
  validate_name name
  ok (record { namespace = b.namespace; scopes = b.scopes ++ name ∷ [] })

unfoldable pub scopes_eq : List String → List String → Bool
scopes_eq [] [] = true
scopes_eq (x ∷ xs) (y ∷ ys) = str_eq x y && scopes_eq xs ys
scopes_eq _ _ = false

-- `str::ends_with`
unfoldable pub ends_with : String → String → Bool
ends_with str_nil suffix = str_eq "" suffix
ends_with (str_cons c s) suffix = str_eq (str_cons c s) suffix || ends_with s suffix

-- `Vec::sort`, which is stable.
unfoldable pub sort_in : String → List String → List String
sort_in name [] = name ∷ []
sort_in name (x ∷ xs) =
    let rest = sort_in name xs in if string_lt name x then name ∷ x ∷ xs else x ∷ rest

unfoldable pub sort : List String → List String
sort [] = []
sort (x ∷ xs) = sort_in x (sort xs)

module _ (D : Database) where
  abbrev pub commit_prepared :
      Result StorageError D.Transaction → D.State → Result StorageError (Unit {0}) × D.State
  commit_prepared (err e) s = (err e, s)
  commit_prepared (ok transaction) s =
      let (x, s') = D.commit transaction s in (map_err database x, s')

  unfoldable pub prepare_set :
      Bucket → String → List ℕ → D.State → Result StorageError D.Transaction
  prepare_set b key value s = do
    validate_name key
    encoded_key ← encode_key b.scopes key
    transaction ← map_err database (D.begin_write s)
    transaction ← map_err database (D.open_table (table_for b.namespace) transaction)
    map_err database (D.insert (table_for b.namespace) encoded_key value transaction)

  unfoldable pub set : Bucket → String → List ℕ → D.State → Result StorageError (Unit {0}) × D.State
  set b key value s = commit_prepared (prepare_set b key value s) s

  unfoldable pub get : Bucket → String → D.State → Result StorageError (List ℕ)
  get b key s = do
    validate_name key
    encoded_key ← encode_key b.scopes key
    transaction ← map_err database (D.begin_read s)
    transaction ← map_err database (D.open_table (table_for b.namespace) transaction)
    value ← map_err database (D.find (table_for b.namespace) encoded_key transaction)
    ok_or value not_found

  abbrev pub removed : Option (List ℕ) × D.Transaction → Result StorageError D.Transaction
  removed (none, transaction) = err not_found
  removed (some value, transaction) = ok transaction

  unfoldable pub prepare_delete : Bucket → String → D.State → Result StorageError D.Transaction
  prepare_delete b key s = do
    validate_name key
    encoded_key ← encode_key b.scopes key
    transaction ← map_err database (D.begin_write s)
    transaction ← map_err database (D.open_table (table_for b.namespace) transaction)
    taken ← map_err database (D.remove (table_for b.namespace) encoded_key transaction)
    removed taken

  unfoldable pub delete : Bucket → String → D.State → Result StorageError (Unit {0}) × D.State
  delete b key s = commit_prepared (prepare_delete b key s) s

  -- The loop over the entries.
  unfoldable pub collect :
      Bucket
      → String
      → List (Result String (List ℕ × List ℕ))
      → List String
      → Result StorageError (List String)
  collect b suffix [] keys = ok keys
  collect b suffix (entry ∷ entries) keys = do
    e ← map_err database entry
    decoded ← decode_key e.0
    collect b suffix entries (
        if scopes_eq decoded.0 b.scopes && ends_with decoded.1 suffix
        then keys ++ decoded.1 ∷ []
        else keys)

  unfoldable pub keys_with_suffix : Bucket → String → D.State → Result StorageError (List String)
  keys_with_suffix b suffix s = do
    transaction ← map_err database (D.begin_read s)
    transaction ← map_err database (D.open_table (table_for b.namespace) transaction)
    entries ← map_err database (D.iter (table_for b.namespace) transaction)
    keys ← collect b suffix entries []
    ok (sort keys)
