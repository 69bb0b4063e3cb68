-- ===== src/Prelude/Maps.antt =====
-- `BTreeMap` as an association list in the order of its keys, over keys with an order.
use Prim.Native.Nat.{ℕ}
use Prim.Native.String.{String}
use mathlib.Core.Path.{◌≡◌, refl, subst}
use mathlib.Core.Logic.{◌↔◌, inl, inr}
use mathlib.Core.Bool.{Bool, true}
use mathlib.Core.Option.{Option, none, some}
use mathlib.Core.List.{List, [], ◌∷◌}
use native.Mathlib.Omega.{arith}
use text.Mathlib.Text.{◌==◌ as str_eq}
use text.Mathlib.TextEquality.{eq_iff}
use oikade.Prelude.Tests.{ltb, ◌==◌ as nat_eq, ==_iff, if◌then◌else◌, Bool-cases}
use oikade.Prelude.Text.{string_lt}

pub record Key (K : Type 0) : Type 0 where
  pub eqb : K → K → Bool
  pub eqb_iff : (a b : K) → (eqb a b ≡ true) ↔ (a ≡ b)
  pub before : K → K → Bool

instance abbrev pub nat_key : Key ℕ
nat_key = record { eqb = nat_eq; eqb_iff = ==_iff; before = ltb }

instance abbrev pub string_key : Key String
string_key = record { eqb = str_eq; eqb_iff = eq_iff; before = string_lt }

abbrev pub Map : Type 0 → Type 0 → Type 0
Map K V = List (K × V)

pub eqb_refl : {K : Type 0} ⦃o : Key K⦄ (k : K) → o.eqb k k ≡ true
eqb_refl ⦃o⦄ k = (o.eqb_iff k k).1 refl

module _ {K V : Type 0} ⦃o : Key K⦄ where
  unfoldable pub get : K → Map K V → Option V
  get k [] = none
  get k ((j, v) ∷ m) = if o.eqb j k then some v else get k m

  unfoldable pub insert : K → V → Map K V → Map K V
  insert k v [] = (k, v) ∷ []
  insert k v ((j, w) ∷ m) =
      let rest = insert k v m in
      if o.eqb j k then (k, v) ∷ m else if o.before k j then (k, v) ∷ (j, w) ∷ m else (j, w) ∷ rest

  unfoldable pub remove : K → Map K V → Map K V
  remove k [] = []
  remove k ((j, w) ∷ m) = let rest = remove k m in if o.eqb j k then rest else (j, w) ∷ rest

  pub get-insert :
      (k j : K) (v : V) (m : Map K V)
      → get j (insert k v m) ≡ (if o.eqb k j then some v else get j m)
  unfolding get insert
  get-insert k j v [] = refl
  get-insert k j v ((i, w) ∷ m) =
      ground (arith, get-insert k j v m, o.eqb_iff i k, o.eqb_iff i j, o.eqb_iff k j)

  pub get-remove :
      (k j : K) (m : Map K V) → get j (remove k m) ≡ (if o.eqb k j then none else get j m)
  unfolding get remove
  get-remove k j [] = ground arith
  get-remove k j ((i, w) ∷ m) =
      ground (arith, get-remove k j m, o.eqb_iff i k, o.eqb_iff i j, o.eqb_iff k j)

  pub get-insert_self : (k : K) (v : V) (m : Map K V) → get k (insert k v m) ≡ some v
  get-insert_self k v m = rw (get-insert, eqb_refl)

-- What holds of the new entry and of every old one holds of every entry after an insertion.
module _ {K V : Type 0} ⦃o : Key K⦄ (P : K → V → Type 0) where
  pub forall_insert :
      (k : K) (v : V) (m : Map K V)
      → P k v
      → ((j : K) (w : V) → get j m ≡ some w → P j w)
      → (j : K) (w : V) → get j (insert k v m) ≡ some w
      → P j w
  forall_insert k v m new old j w h = elim (Bool-cases (o.eqb k j)) [
    | inl same ↦
        let v_eq : v ≡ w = ground (arith, get-insert k j v m) in
        subst (λ x. P x w) ((o.eqb_iff k j).0 same) (subst (P k) v_eq new)
    | inr other ↦ old j w (ground (arith, get-insert k j v m))
  ]

  pub forall_remove :
      (k : K) (m : Map K V)
      → ((j : K) (w : V) → get j m ≡ some w → P j w)
      → (j : K) (w : V) → get j (remove k m) ≡ some w
      → P j w
  forall_remove k m old j w h = old j w (ground (arith, get-remove k j m))

pub get-empty-some :
    {K V : Type 0} ⦃o : Key K⦄ (k : K) (v : V) → ◌≡◌ {A = Option V} (get k []) (some v) → ⊥
unfolding get
get-empty-some k v h = cc
