-- ===== src/Storage/Keys.antt =====
-- crates/oikade-storage/src/store.rs: names, and the bytes of a key in the database.
use oikade.Prelude.{
  ℕ, zero, suc, ◌*◌, ◌+◌, ◌/◌, ◌%◌, ◌^◌, String, Bool, true, false, ◌||◌, not, Option, none, some,
  List, [], ◌∷◌, ◌++◌, length, ltb, ◌==◌, any,
}
use oikade.Prelude.Result.{Result, ok, err, fail_if, ok_or, ◌>>=◌, ◌>>◌}
use oikade.Prelude.Text.{codes, as_bytes}
use oikade.Prelude.Utf8.{from_utf8}

-- `StorageError`. The errors of the database and of the file system are their texts.
pub data StorageError : Type 0 where
  missing_state_directory not_found : StorageError
  ambiguous_state unsupported_engine invalid_name : String → StorageError
  unsupported_format schema_too_new : ℕ → ℕ → StorageError
  symbolic_link not_directory io marker database : String → StorageError

-- `['/', '\\', '\0']`
abbrev pub is_separator : ℕ → Bool
is_separator c = c == 0x2f || c == 0x5c || c == 0

abbrev pub is_empty : {A : Type 0} → List A → Bool
is_empty [] = true
is_empty (x ∷ xs) = false

unfoldable pub validate_name : String → Result StorageError (Unit {0})
validate_name name = do
  fail_if (is_empty (codes name)) (invalid_name "name is empty")
  fail_if (any is_separator (codes name))
      (invalid_name "name contains a path separator or NUL byte")
  ok tt

-- `u32::to_be_bytes`
unfoldable pub to_be_bytes : ℕ → List ℕ
to_be_bytes n = (n / 2 ^ 24 % 256) ∷ (n / 2 ^ 16 % 256) ∷ (n / 2 ^ 8 % 256) ∷ (n % 256) ∷ []

unfoldable pub push_length : List ℕ → ℕ → Result StorageError (List ℕ)
unfolding to_be_bytes
push_length target value = do
  fail_if (not (ltb value (2 ^ 32))) (invalid_name "name is too large")
  ok (target ++ to_be_bytes value)

unfoldable pub push_bytes : List ℕ → List ℕ → Result StorageError (List ℕ)
push_bytes target value = do target ← push_length target (length value); ok (target ++ value)

unfoldable pub push_scopes : List ℕ → List String → Result StorageError (List ℕ)
push_scopes encoded [] = ok encoded
push_scopes encoded (scope ∷ scopes) = do
  encoded ← push_bytes encoded (as_bytes scope)
  push_scopes encoded scopes

unfoldable pub encode_key : List String → String → Result StorageError (List ℕ)
encode_key scopes key = do
  encoded ← push_length [] (length scopes)
  encoded ← push_scopes encoded scopes
  push_bytes encoded (as_bytes key)

-- `[T]::split_at`, where the list is long enough: the first part, and the rest.
unfoldable pub split_at : ℕ → List ℕ → Option (List ℕ × List ℕ)
split_at zero bytes = some ([], bytes)
split_at (suc n) [] = none
split_at (suc n) (b ∷ bytes) = elim (split_at n bytes) [
  | none ↦ none
  | some p ↦ some (b ∷ p.0, p.1)
]

-- The slice that is left is returned with what was taken.
unfoldable pub take_length : List ℕ → Result StorageError (ℕ × List ℕ)
take_length (a ∷ b ∷ c ∷ d ∷ remaining) = ok (((a * 256 + b) * 256 + c) * 256 + d, remaining)
take_length _ = err (ambiguous_state "database key has a truncated length")

unfoldable pub take_string : List ℕ → Result StorageError (String × List ℕ)
take_string encoded = do
  taken ← take_length encoded
  parts ← ok_or (split_at taken.0 taken.1) (ambiguous_state "database key is truncated")
  value ← ok_or (from_utf8 parts.0) (ambiguous_state "database key is not valid UTF-8")
  ok (value, parts.1)

unfoldable pub take_scopes : ℕ → List String → List ℕ → Result StorageError (List String × List ℕ)
take_scopes zero scopes encoded = ok (scopes, encoded)
take_scopes (suc n) scopes encoded = do
  taken ← take_string encoded
  take_scopes n (scopes ++ taken.0 ∷ []) taken.1

unfoldable pub decode_key : List ℕ → Result StorageError (List String × String)
decode_key encoded = do
  count ← take_length encoded
  scoped ← take_scopes count.0 [] count.1
  last ← take_string scoped.1
  fail_if (not (is_empty last.1)) (ambiguous_state "database key has trailing bytes")
  ok (scoped.0, last.0)
