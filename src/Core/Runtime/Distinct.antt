-- ===== src/Core/Runtime/Distinct.antt =====
-- Maps in which every key stands once.
use oikade.Prelude.{ℕ, ◌≡◌, refl, arith, none, [], ◌∷◌, List, ==_iff, if_rule}
use oikade.Prelude.Maps.{Map, get, insert, remove, nat_key, get-insert, get-remove}
use oikade.Core.Runtime.Hub.{remove_all}
use oikade.Core.Runtime.Types.{SubscriptionState}

abbrev pub Distinct : {V : Type 0} → Map ℕ V → Type 0
Distinct [] = Unit {0}
Distinct ((k, v) ∷ m) = (get k m ≡ none) × Distinct m

module _ {V : Type 0} where
  pub insert-Distinct :
      (k : ℕ) (v : V) (m : Map ℕ V) → get k m ≡ none → Distinct m → Distinct (insert k v m)
  unfolding insert get
  insert-Distinct k v [] fresh d = (refl, tt)
  insert-Distinct k v ((j, w) ∷ m) fresh d =
      if_rule Distinct (nat_key.eqb j k) (λ same. absurd (ground (arith, fresh, same)))
        (λ other.
          if_rule Distinct (nat_key.before k j) (λ _. (fresh, d))
            (λ _. (
              ground (arith, get-insert k j v m, other, d.0, ==_iff j k, ==_iff k j),
              insert-Distinct k v m (ground (arith, fresh, other)) d.1,
            )))

  pub remove-Distinct : (k : ℕ) (m : Map ℕ V) → Distinct m → Distinct (remove k m)
  unfolding remove
  remove-Distinct k [] d = tt
  remove-Distinct k ((j, w) ∷ m) d =
      if_rule Distinct (nat_key.eqb j k) (λ _. remove-Distinct k m d.1)
        (λ _. (ground (arith, get-remove k j m, d.0), remove-Distinct k m d.1))

pub remove_all-Distinct :
    (ids : List ℕ) (m : Map ℕ SubscriptionState) → Distinct m → Distinct (remove_all ids m)
remove_all-Distinct [] m d = d
remove_all-Distinct (id ∷ ids) m d = remove_all-Distinct ids (remove id m) (remove-Distinct id m d)
