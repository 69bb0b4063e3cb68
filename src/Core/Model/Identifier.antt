-- ===== src/Core/Model/Identifier.antt =====
-- crates/oikade-core/src/model.rs: `validate_identifier` and the constructors of identifiers.
use oikade.Prelude.{
  ℕ, String, Bool, true, false, not, ◌||◌, ◌&&◌, List, [], ◌∷◌, ltb, leb, ◌==◌, length, all,
}
use oikade.Prelude.Result.{Result, ok, fail_if, ◌>>◌}
use oikade.Prelude.Text.{as_bytes}
use oikade.Core.Model.Types.{ModelError, identifier_empty, identifier_too_long, identifier_bytes}

abbrev pub max_identifier_length : ℕ
max_identifier_length = 128

unfoldable pub valid_edge : ℕ → Bool
valid_edge byte = (leb b'a' byte && leb byte b'z') || (leb b'0' byte && leb byte b'9')

unfoldable pub valid_inner : ℕ → Bool
unfolding valid_edge
valid_inner byte = valid_edge byte || byte == b'.' || byte == b'_' || byte == b'-'

-- `bytes[0]` and `bytes[bytes.len() - 1]`; the empty case has returned before.
abbrev pub first_byte : List ℕ → ℕ
first_byte [] = 0
first_byte (b ∷ bs) = b

abbrev pub last_byte : List ℕ → ℕ
last_byte [] = 0
last_byte (b ∷ []) = b
last_byte (b ∷ c ∷ bs) = last_byte (c ∷ bs)

abbrev is_empty : List ℕ → Bool
is_empty [] = true
is_empty (b ∷ bs) = false

unfoldable pub validate_bytes : List ℕ → Result ModelError (Unit {0})
unfolding valid_inner
validate_bytes bytes = do
  fail_if (is_empty bytes) identifier_empty
  fail_if (ltb max_identifier_length (length bytes)) identifier_too_long
  fail_if
      (not (valid_edge (first_byte bytes))
        || not (valid_edge (last_byte bytes))
        || not (all valid_inner bytes))
      identifier_bytes

unfoldable pub validate_identifier : String → Result ModelError (Unit {0})
unfolding validate_bytes
validate_identifier value = validate_bytes (as_bytes value)

-- `DeviceId::new`, `CapabilityId::new` and `CapabilityType::new`
unfoldable pub new_identifier : String → Result ModelError String
unfolding validate_identifier
new_identifier value = do validate_identifier value; ok value
