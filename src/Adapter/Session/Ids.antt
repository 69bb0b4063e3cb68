-- ===== src/Adapter/Session/Ids.antt =====
-- Sets of request identifiers: the keys of `pending`, and `ignored`.
use oikade.Prelude.{
  ℕ, ◌≤◌, ◌≡◌, Bool, false, ◌||◌, List, [], ◌∷◌, ◌==◌, length, if◌then◌else◌, arith,
}

unfoldable pub has : ℕ → List ℕ → Bool
has id [] = false
has id (x ∷ xs) = x == id || has id xs

unfoldable pub erase : ℕ → List ℕ → List ℕ
erase id [] = []
erase id (x ∷ xs) = let rest = erase id xs in if x == id then rest else x ∷ rest

pub has-erase :
    (id j : ℕ) (xs : List ℕ) → has j (erase id xs) ≡ (if id == j then false else has j xs)
unfolding has erase
has-erase id j [] = ground arith
has-erase id j (x ∷ xs) = ground (arith, has-erase id j xs)

pub length-erase : (id : ℕ) (xs : List ℕ) → length (erase id xs) ≤ length xs
unfolding erase
length-erase id [] = omega arith
length-erase id (x ∷ xs) = ground (arith, length-erase id xs)
