-- ===== src/Core/Model/IdentifierLaws.antt =====
-- Which identifiers `validate_identifier` accepts.
use oikade.Prelude.{
  ℕ, ◌≤◌, ◌≡◌, ◌↔◌, ◌⊎◌, refl, arith, String, true, List, [], ◌∷◌, length, all, All,
}
use oikade.Prelude.Result.{ok}
use oikade.Prelude.Text.{as_bytes}
use oikade.Core.Model.Identifier.{
  valid_edge, valid_inner, first_byte, last_byte, validate_bytes, validate_identifier,
}

-- A lowercase ASCII letter or a digit.
abbrev pub IsEdge : ℕ → Type 0
IsEdge b = ((b'a' ≤ b) × (b ≤ b'z')) ⊎ ((b'0' ≤ b) × (b ≤ b'9'))

-- An edge byte, a dot, an underscore or a hyphen.
abbrev pub IsInner : ℕ → Type 0
IsInner b = IsEdge b ⊎ ((b ≡ b'.') ⊎ ((b ≡ b'_') ⊎ (b ≡ b'-')))

pub record IsIdentifier (bytes : List ℕ) : Type 0 where
  pub not_empty : 1 ≤ length bytes
  pub short : length bytes ≤ 128
  pub first : IsEdge (first_byte bytes)
  pub last : IsEdge (last_byte bytes)
  pub inner : All IsInner bytes

valid_edge_iff : (b : ℕ) → (valid_edge b ≡ true) ↔ IsEdge b
unfolding valid_edge
valid_edge_iff b = (λ h. ground arith, λ h. ground arith)

valid_inner_iff : (b : ℕ) → (valid_inner b ≡ true) ↔ IsInner b
unfolding valid_inner valid_edge
valid_inner_iff b = (λ h. ground arith, λ h. ground arith)

all-IsInner-All : (bs : List ℕ) → all valid_inner bs ≡ true → All IsInner bs
all-IsInner-All [] h = tt
all-IsInner-All (b ∷ bs) h =
    ((valid_inner_iff b).0 (ground arith), all-IsInner-All bs (ground arith))

All-all_inner : (bs : List ℕ) → All IsInner bs → all valid_inner bs ≡ true
All-all_inner [] h = refl
All-all_inner (b ∷ bs) h = ground (arith, (valid_inner_iff b).1 h.0, All-all_inner bs h.1)

accepted : (bs : List ℕ) → validate_bytes bs ≡ ok tt → IsIdentifier bs
unfolding validate_bytes
accepted [] h = ground arith
accepted (b ∷ bs) h = record {
  not_empty = omega arith;
  short = ground arith;
  first = (valid_edge_iff b).0 (ground arith);
  last = (valid_edge_iff (last_byte (b ∷ bs))).0 (ground arith);
  inner = all-IsInner-All (b ∷ bs) (ground arith);
}

complete : (bs : List ℕ) → IsIdentifier bs → validate_bytes bs ≡ ok tt
unfolding validate_bytes
complete [] h = absurd (omega (arith, h.not_empty))
complete (b ∷ bs) h = ground (
  arith,
  (valid_edge_iff b).1 h.first,
  (valid_edge_iff (last_byte (b ∷ bs))).1 h.last,
  All-all_inner (b ∷ bs) h.inner,
  h.short,
)

-- An identifier is accepted exactly if it has 1 to 128 bytes, all of them lowercase letters, digits,
-- dots, underscores or hyphens, the first and the last a letter or a digit.
pub validate_identifier_iff :
    (s : String) → (validate_identifier s ≡ ok tt) ↔ IsIdentifier (as_bytes s)
unfolding validate_identifier
validate_identifier_iff s = (accepted (as_bytes s), complete (as_bytes s))
