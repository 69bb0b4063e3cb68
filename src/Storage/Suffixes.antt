-- ===== src/Storage/Suffixes.antt =====
-- The names that `keys_with_suffix` lists.
use text.Mathlib.Text.{◌==◌ as str_eq}
use text.Mathlib.TextEquality.{eq_iff}
use oikade.Prelude.{
  ℕ, ◌≡◌, refl, sym, ap, subst, ◌∙◌, String, Bool, true, false, ◌&&◌, ◌||◌, Option, none, some,
  List, [], ◌∷◌, ◌++◌, ◌↔◌, ◌⊎◌, inl, inr, any, if◌then◌else◌, Bool-cases, arith,
}
use oikade.Prelude.Result.{Result, ok, err, map_err, map_err-ok, bind-ok, ok_injective}
use oikade.Storage.Keys.{StorageError, encode_key, decode_key, database}
use oikade.Storage.KeyLaws.{decode_key-encode_key}
use oikade.Storage.Bucket.{
  Database, Namespace, Bucket, table_for, scopes_eq, ends_with, sort, sort_in, collect,
  keys_with_suffix,
}
use oikade.Storage.Lawful.{Listed, IsLawful, view, view-encoded, stored}
use oikade.Storage.Lookups.{read-opened}

scopes_eq_iff : (xs ys : List String) → (scopes_eq xs ys ≡ true) ↔ (xs ≡ ys)
unfolding scopes_eq
scopes_eq_iff [] [] = ground arith
scopes_eq_iff [] (y ∷ ys) = ground arith
scopes_eq_iff (x ∷ xs) [] = ground arith
scopes_eq_iff (x ∷ xs) (y ∷ ys) = ground (arith, eq_iff x y, scopes_eq_iff xs ys)

abbrev pub lists : String → List String → Bool
lists name names = any (str_eq name) names

lists-append :
    (name x : String) (xs : List String)
    → lists name (xs ++ x ∷ []) ≡ (str_eq name x || lists name xs)
lists-append name x [] = refl
lists-append name x (y ∷ xs) = ground (arith, lists-append name x xs)

lists-sort_in :
    (name x : String) (xs : List String)
    → lists name (sort_in x xs) ≡ (str_eq name x || lists name xs)
unfolding sort_in
lists-sort_in name x [] = refl
lists-sort_in name x (y ∷ xs) = ground (arith, lists-sort_in name x xs)

lists-sort : (name : String) (xs : List String) → lists name (sort xs) ≡ lists name xs
unfolding sort
lists-sort name [] = refl
lists-sort name (x ∷ xs) =
    lists-sort_in name x (sort xs) ∙ ap (λ b. str_eq name x || b) (lists-sort name xs)

-- An entry of a bucket with a name.
abbrev Entry : Type 0
Entry = Result String (List ℕ × List ℕ)

abbrev IsOf : Bucket → String → Entry → Type 0
IsOf b name e = (k v : List ℕ) × (e ≡ ok (k, v)) × (decode_key k ≡ ok (b.scopes, name))

abbrev Found : Bucket → String → List Entry → Type 0
Found b name entries = (e : Entry) × Listed e entries × IsOf b name e

abbrev selected : Bucket → String → List String × String → List String → List String
selected b suffix decoded keys =
    if scopes_eq decoded.0 b.scopes && ends_with decoded.1 suffix
    then keys ++ decoded.1 ∷ []
    else keys

-- The step of the loop: what is listed afterwards was listed, or is the name of the entry.
selected-back :
    (b : Bucket) (suffix name : String) (d : List String × String) (keys : List String)
    → lists name (selected b suffix d keys) ≡ true
    → (lists name keys ≡ true) ⊎ ((ends_with name suffix ≡ true) × (d ≡ (b.scopes, name)))
selected-back b suffix name (scopes, x) keys h =
    chosen (scopes_eq scopes b.scopes) refl (ends_with x suffix) refl h
  where
    chosen :
        (p : Bool)
        → scopes_eq scopes b.scopes ≡ p
        → (q : Bool) → ends_with x suffix ≡ q
        → lists name (if p && q then keys ++ x ∷ [] else keys) ≡ true
        → (lists name keys ≡ true)
          ⊎ ((ends_with name suffix ≡ true)
              × ◌≡◌ {A = List String × String} (scopes, x) (b.scopes, name))
    chosen true e true f g = elim (Bool-cases (str_eq name x)) [
      | inl same ↦
          let x_eq = sym ((eq_iff name x).0 same) in
          inr (
            subst (λ n. ends_with n suffix ≡ true) x_eq f,
            λ i. ((scopes_eq_iff scopes b.scopes).0 e i, x_eq i),
          )
      | inr other ↦ inl (ground (arith, lists-append name x keys))
    ]
    chosen true e false f g = inl g
    chosen false e q f g = inl g

selected-kept :
    (b : Bucket) (suffix name : String) (d : List String × String) (keys : List String)
    → lists name keys ≡ true
    → lists name (selected b suffix d keys) ≡ true
selected-kept b suffix name d keys h = ground (arith, lists-append name d.1 keys)

selected-new :
    (b : Bucket) (suffix name : String) (keys : List String)
    → ends_with name suffix ≡ true
    → lists name (selected b suffix (b.scopes, name) keys) ≡ true
selected-new b suffix name keys h =
    let same : scopes_eq b.scopes b.scopes ≡ true = (scopes_eq_iff b.scopes b.scopes).1 refl in
    let itself : str_eq name name ≡ true = (eq_iff name name).1 refl in
    rw (same, h, lists-append name name keys, itself) refl

module _ (D : Database) (b : Bucket) (suffix name : String) where
  collect-back :
      (entries : List Entry) (keys r : List String)
      → collect D b suffix entries keys ≡ ok r
      → lists name r ≡ true
      → (lists name keys ≡ true) ⊎ ((ends_with name suffix ≡ true) × Found b name entries)
  unfolding collect
  collect-back [] keys r h l = inl (subst (λ x. lists name x ≡ true) (sym (ok_injective h)) l)
  collect-back (entry ∷ entries) keys r h l =
      let (e, got, h1) = bind-ok (map_err database entry) _ _ h in
      let (d, decoded, h2) = bind-ok (decode_key e.0) _ _ h1 in
      elim (collect-back entries (selected b suffix d keys) r h2 l) [
        | inl before ↦ elim (selected-back b suffix name d keys before) [
          | inl old ↦ inl old
          | inr new ↦
              inr
                (new.0, (entry, inl refl, (e.0, e.1, map_err-ok _ _ _ got, decoded ∙ ap ok new.1)))
        ]
        | inr (fits, (x, listed, of)) ↦ inr (fits, (x, inr listed, of))
      ]

  step-Found :
      (entry : Entry) (entries : List Entry) (e : List ℕ × List ℕ) (d : List String × String)
      (keys : List String)
      → entry ≡ ok e
      → decode_key e.0 ≡ ok d
      → (lists name keys ≡ true) ⊎ ((ends_with name suffix ≡ true) × Found b name (entry ∷ entries))
      → (lists name (selected b suffix d keys) ≡ true)
        ⊎ ((ends_with name suffix ≡ true) × Found b name entries)
  step-Found entry entries e d keys got decoded (inl l) = inl (selected-kept b suffix name d keys l)
  step-Found entry entries e d keys got decoded (inr (fits, (x, inr listed, of))) =
      inr (fits, (x, listed, of))
  step-Found entry entries e d keys got decoded (inr (fits, (x, inl here, (k, v, x_eq, of)))) =
      let same : e ≡ (k, v) = ok_injective (sym got ∙ here ∙ x_eq) in
      let d_eq : d ≡ (b.scopes, name) =
        ok_injective (sym decoded ∙ ap (λ (p : List ℕ × List ℕ). decode_key p.0) same ∙ of) in
      inl (
        subst (λ z. lists name (selected b suffix z keys) ≡ true) (sym d_eq)
          (selected-new b suffix name keys fits))

  collect-kept :
      (entries : List Entry) (keys r : List String)
      → collect D b suffix entries keys ≡ ok r
      → (lists name keys ≡ true) ⊎ ((ends_with name suffix ≡ true) × Found b name entries)
      → lists name r ≡ true
  unfolding collect
  collect-kept [] keys r h (inl l) = subst (λ x. lists name x ≡ true) (ok_injective h) l
  collect-kept [] keys r h (inr (fits, (x, listed, of))) = absurd listed
  collect-kept (entry ∷ entries) keys r h f =
      let (e, got, h1) = bind-ok (map_err database entry) _ _ h in
      let (d, decoded, h2) = bind-ok (decode_key e.0) _ _ h1 in
      collect-kept entries (selected b suffix d keys) r h2
        (step-Found entry entries e d keys (map_err-ok _ _ _ got) decoded f)

-- Every key of the database was made for a name: the buckets write no other.
abbrev pub IsKeyed : {D : Database} → IsLawful D → D.State → Type 0
IsKeyed L s =
    (c : Namespace) (k v : List ℕ)
    → L.contents s (table_for c, k) ≡ some v
    → (scopes : List String) × (name : String) × (encode_key scopes name ≡ ok k)

module _ {D : Database} (L : IsLawful D) (b : Bucket) (name : String) (s : D.State) where
  -- What an entry of the table says of the view, and the view of an entry.
  found-view :
      (k v : List ℕ)
      → IsKeyed L s
      → L.contents s (table_for b.namespace, k) ≡ some v
      → decode_key k ≡ ok (b.scopes, name)
      → view L s (b, name) ≡ some v
  found-view k v keyed here decoded =
      let (scopes, other, encoded) = keyed b.namespace k v here in
      let same : ◌≡◌ {A = List String × String} (scopes, other) (b.scopes, name) =
        ok_injective (sym (decode_key-encode_key scopes other k encoded) ∙ decoded) in
      let mine : encode_key b.scopes name ≡ ok k =
        subst (λ (p : List String × String). encode_key p.0 p.1 ≡ ok k) same encoded in
      view-encoded L s b name k mine ∙ here

  view-found :
      (v : List ℕ)
      → view L s (b, name) ≡ some v
      → (k : List ℕ) × (L.contents s (table_for b.namespace, k) ≡ some v)
        × (decode_key k ≡ ok (b.scopes, name))
  view-found v h = encoded (encode_key b.scopes name) refl h
    where
      encoded :
          (x : Result StorageError (List ℕ))
          → encode_key b.scopes name ≡ x
          → stored L s b x ≡ some v
          → (k : List ℕ) × (L.contents s (table_for b.namespace, k) ≡ some v)
            × (decode_key k ≡ ok (b.scopes, name))
      encoded (ok k) p q = (k, q, decode_key-encode_key b.scopes name k p)
      encoded (err e) p q = absurd (none-ne-some q)
        where
          none-ne-some : ◌≡◌ {A = Option (List ℕ)} none (some v) → ⊥
          none-ne-some y = cc

-- In a database whose keys were all made for names, `keys_with_suffix` lists exactly the names with the
-- suffix that have a value in the bucket.
pub keys_with_suffix-lists :
    {D : Database} (L : IsLawful D) (b : Bucket) (suffix name : String) (s : D.State)
    (r : List String)
    → IsKeyed L s
    → keys_with_suffix D b suffix s ≡ ok r
    → (lists name r ≡ true)
      ↔ ((ends_with name suffix ≡ true) × ((v : List ℕ) × (view L s (b, name) ≡ some v)))
unfolding keys_with_suffix
keys_with_suffix-lists {D} L b suffix name s r keyed h =
    let x = table_for b.namespace in
    let (t1, began, h1) = bind-ok (map_err database (D.begin_read s)) _ _ h in
    let (t2, opened, h2) = bind-ok (map_err database (D.open_table x t1)) _ _ h1 in
    let (entries, iterated, h3) = bind-ok (map_err database (D.iter x t2)) _ _ h2 in
    let (keys, collected, sorted) = bind-ok (collect D b suffix entries []) _ _ h3 in
    let same = read-opened L x s t1 t2 began opened in
    let law = L.iter-ok x t2 entries (map_err-ok _ _ _ iterated) in
    let listed : lists name r ≡ lists name keys =
      ap (lists name) (sym (ok_injective sorted)) ∙ lists-sort name keys in
    (
      λ l. elim (collect-back D b suffix name entries [] keys collected (sym listed ∙ l)) [
        | inl nothing ↦ absurd (false-ne-true nothing)
        | inr (fits, (e, here, (k, v, e_eq, decoded))) ↦
            let found = sym (same (x, k)) ∙ (law k v).0 (subst (λ z. Listed z entries) e_eq here) in
            (fits, (v, found-view L b name s k v keyed found decoded))
      ],
      λ p.
          let (k, here, decoded) = view-found L b name s p.1.0 p.1.1 in
          listed
          ∙ collect-kept D b suffix name entries [] keys collected (
              inr (
                p.0,
                (ok (k, p.1.0), (law k p.1.0).1 (same (x, k) ∙ here), (k, p.1.0, refl, decoded)),
              )),
    )
  where
    false-ne-true : false ≡ true → ⊥
    false-ne-true y = cc
