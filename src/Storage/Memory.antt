-- ===== src/Storage/Memory.antt =====
-- A database in memory, which does what a database documents.
use oikade.Prelude.{
  ℕ, ◌≡◌, refl, sym, ap, ◌∙◌, Bool, true, false, ◌&&◌, ◌↔◌, none, some, List, [], ◌∷◌, ◌==◌, ==_iff,
  if◌then◌else◌, arith, inl, inr, Bool-cases, ltb, subst, String, ◌⊎◌, if_rule, Option,
}
use oikade.Prelude.Result.{Result, ok, ok_injective}
use oikade.Prelude.Maps
use oikade.Prelude.Maps.{Map, Key, eqb_refl}
use oikade.Storage.Bucket.{Table, Database}
use oikade.Storage.Lawful.{Place, Changed, IsLawful, Listed}

abbrev tag : Table → ℕ
tag Table.meta = 0
tag Table.devices = 1
tag Table.plugins = 2
tag Table.discovery = 3

abbrev from_tag : ℕ → Table
from_tag n =
    if n == 0
    then Table.meta
    else if n == 1
    then Table.devices
    else if n == 2
    then Table.plugins
    else Table.discovery

from_tag-tag : (x : Table) → from_tag (tag x) ≡ x
from_tag-tag Table.meta = refl
from_tag-tag Table.devices = refl
from_tag-tag Table.plugins = refl
from_tag-tag Table.discovery = refl

abbrev table_eq : Table → Table → Bool
table_eq x y = tag x == tag y

table_eq_iff : (x y : Table) → (table_eq x y ≡ true) ↔ (x ≡ y)
table_eq_iff x y = (
  λ h. sym (from_tag-tag x) ∙ ap from_tag ((==_iff (tag x) (tag y)).0 h) ∙ from_tag-tag y,
  λ h. (==_iff (tag x) (tag y)).1 (ap tag h),
)

unfoldable pub bytes_eq : List ℕ → List ℕ → Bool
bytes_eq [] [] = true
bytes_eq (x ∷ xs) (y ∷ ys) = x == y && bytes_eq xs ys
bytes_eq _ _ = false

bytes_eq_iff : (xs ys : List ℕ) → (bytes_eq xs ys ≡ true) ↔ (xs ≡ ys)
unfolding bytes_eq
bytes_eq_iff [] [] = ground arith
bytes_eq_iff [] (y ∷ ys) = ground arith
bytes_eq_iff (x ∷ xs) [] = ground arith
bytes_eq_iff (x ∷ xs) (y ∷ ys) = ground (arith, bytes_eq_iff xs ys)

pub place_eq_iff :
    (x y : Table) (k l : List ℕ)
    → ((table_eq x y && bytes_eq k l) ≡ true) ↔ ◌≡◌ {A = Place} (x, k) (y, l)
place_eq_iff x y k l = (to, from)
  where
    to : (table_eq x y && bytes_eq k l) ≡ true → ◌≡◌ {A = Place} (x, k) (y, l)
    to h =
        let a : table_eq x y ≡ true = ground (arith, h) in
        let b : bytes_eq k l ≡ true = ground (arith, h) in
        λ i. ((table_eq_iff x y).0 a i, (bytes_eq_iff k l).0 b i)

    from : ◌≡◌ {A = Place} (x, k) (y, l) → (table_eq x y && bytes_eq k l) ≡ true
    from h =
        let a : table_eq x y ≡ true = (table_eq_iff x y).1 (ap (λ p. p.0) h) in
        let b : bytes_eq k l ≡ true = (bytes_eq_iff k l).1 (ap (λ p. p.1) h) in rw (a, b) refl

instance abbrev pub place_key : Key Place
place_key = record {
  eqb = λ p q. table_eq p.0 q.0 && bytes_eq p.1 q.1;
  eqb_iff = λ p q. place_eq_iff p.0 q.0 p.1 q.1;
  before = λ p q. ltb (tag p.0) (tag q.0);
}

abbrev pub Contents : Type 0
Contents = Map Place (List ℕ)

abbrev pub add_entry :
    List ℕ
    → Option (List ℕ)
    → List (Result String (List ℕ × List ℕ))
    → List (Result String (List ℕ × List ℕ))
add_entry k none rest = rest
add_entry k (some v) rest = ok (k, v) ∷ rest

-- The entries of one table, each key with the value that a lookup finds.
unfoldable pub entries : Table → Contents → Contents → List (Result String (List ℕ × List ℕ))
entries x all [] = []
entries x all (((y, k), v) ∷ m) =
    let rest = entries x all m in
    if table_eq y x then add_entry k (Maps.get (x, k) all) rest else rest

add_entry-Listed :
    (k j v : List ℕ) (o : Option (List ℕ)) (rest : List (Result String (List ℕ × List ℕ)))
    → Listed (ok (j, v)) (add_entry k o rest)
    → ((k ≡ j) × (o ≡ some v)) ⊎ Listed (ok (j, v)) rest
add_entry-Listed k j v none rest l = inr l
add_entry-Listed k j v (some w) rest (inl e) =
    let same : ◌≡◌ {A = List ℕ × List ℕ} (k, w) (j, v) = ok_injective e in
    inl (ap (λ p. p.0) same, ap (λ p. some p.1) same)
add_entry-Listed k j v (some w) rest (inr l) = inr l

pub entries-found :
    (x : Table) (all m : Contents) (k v : List ℕ)
    → Listed (ok (k, v)) (entries x all m)
    → Maps.get (x, k) all ≡ some v
unfolding entries
entries-found x all [] k v l = absurd l
entries-found x all (((y, j), w) ∷ m) k v l =
    if_rule
      (λ es.
        Listed {A = Result String (List ℕ × List ℕ)} (ok (k, v)) es → Maps.get (x, k) all ≡ some v)
      (table_eq y x)
      (λ same here. elim (add_entry-Listed j k v (Maps.get (x, j) all) (entries x all m) here) [
        | inl e ↦ subst (λ i. Maps.get (x, i) all ≡ some v) e.0 e.1
        | inr later ↦ entries-found x all m k v later
      ])
      (λ other here. entries-found x all m k v here) l

add_entry-kept :
    (k j v : List ℕ) (o : Option (List ℕ)) (rest : List (Result String (List ℕ × List ℕ)))
    → Listed (ok (j, v)) rest
    → Listed (ok (j, v)) (add_entry k o rest)
add_entry-kept k j v none rest l = l
add_entry-kept k j v (some w) rest l = inr l

-- An entry of the table under the key, or an entry behind this one.
entry-Listed :
    (k j v u w : List ℕ) (o found : Option (List ℕ)) (rest : List (Result String (List ℕ × List ℕ)))
    (a b : Bool)
    → (b ≡ true → o ≡ some v)
    → (b ≡ true → j ≡ k)
    → (found ≡ some w → Listed (ok (k, v)) rest)
    → (if a && b then some u else found) ≡ some w
    → Listed (ok (k, v)) (if a then add_entry j o rest else rest)
entry-Listed k j v u w o found rest true true value key later g =
    subst (λ q. Listed (ok (k, v)) (add_entry j q rest)) (sym (value refl))
      (inl (ap (λ i. ok (i, v)) (key refl)))
entry-Listed k j v u w o found rest true false value key later g =
    add_entry-kept j k v o rest (later g)
entry-Listed k j v u w o found rest false b value key later g = later g

pub entries-Listed :
    (x : Table) (all m : Contents) (k v w : List ℕ)
    → Maps.get (x, k) all ≡ some v
    → Maps.get (x, k) m ≡ some w
    → Listed (ok (k, v)) (entries x all m)
unfolding entries Maps.get
entries-Listed x all [] k v w h g = absurd (Maps.get-empty-some {K = Place} (x, k) w g)
entries-Listed x all (((y, j), u) ∷ m) k v w h g =
    let key = λ (e : bytes_eq j k ≡ true). (bytes_eq_iff j k).0 e in
    entry-Listed k j v u w (Maps.get (x, j) all) (Maps.get (x, k) m) (entries x all m)
      (table_eq y x) (bytes_eq j k) (λ e. ap (λ i. Maps.get (x, i) all) (key e) ∙ h) key
      (λ p. entries-Listed x all m k v w h p) g

abbrev pub memory : Database
memory = record {
  State = Contents;
  Transaction = Contents;
  begin_write = λ s. ok s;
  begin_read = λ s. ok s;
  open_table = λ x t. ok t;
  find = λ x k t. ok (Maps.get (x, k) t);
  insert = λ x k v t. ok (Maps.insert (x, k) v t);
  remove = λ x k t. ok (Maps.get (x, k) t, Maps.remove (x, k) t);
  iter = λ x t. ok (entries x t t);
  commit = λ t s. (ok tt, t);
}

ne-eqb : (p q : Place) → (q ≡ p → ⊥) → place_key.eqb p q ≡ false
ne-eqb p q ne = elim (Bool-cases (place_key.eqb p q)) [
  | inl e ↦ absurd (ne (sym ((place_key.eqb_iff p q).0 e)))
  | inr e ↦ e
]

pub insert-Changed :
    (p : Place) (v : List ℕ) (t : Contents)
    → Changed p (some v) (λ q. Maps.get q t) (λ q. Maps.get q (Maps.insert p v t))
insert-Changed p v t =
    (Maps.get-insert_self p v t, λ q ne. rw (Maps.get-insert p q v t, ne-eqb p q ne) refl)

pub remove-Changed :
    (p : Place) (t : Contents)
    → Changed p none (λ q. Maps.get q t) (λ q. Maps.get q (Maps.remove p t))
remove-Changed p t = (
  rw (Maps.get-remove p p t, eqb_refl p) refl,
  λ q ne. rw (Maps.get-remove p q t, ne-eqb p q ne) refl,
)

abbrev pub memory-IsLawful : IsLawful memory
memory-IsLawful = record {
  contents = λ s p. Maps.get p s;
  pending = λ t p. Maps.get p t;
  begin_write-ok = λ s t h p. ap (Maps.get p) (sym (ok_injective h));
  begin_read-ok = λ s t h p. ap (Maps.get p) (sym (ok_injective h));
  open_table-ok = λ x t t' h p. ap (Maps.get p) (sym (ok_injective h));
  find-ok = λ x k t v h. ok_injective h;
  insert-ok = λ x k v t t' h.
      subst (λ u. Changed (x, k) (some v) (λ p. Maps.get p t) (λ p. Maps.get p u)) (ok_injective h)
        (insert-Changed (x, k) v t);
  remove-ok = λ x k t t' v h. (
    ap (λ r. r.0) (ok_injective h),
    subst (λ u. Changed (x, k) none (λ p. Maps.get p t) (λ p. Maps.get p u))
        (ap (λ r. r.1) (ok_injective h)) (remove-Changed (x, k) t),
  );
  commit-ok = λ t s h p. refl;
  commit-err = λ t s e h. inr (λ p. refl);
  iter-ok = λ x t es h k v. (
    λ l. entries-found x t t k v (subst (Listed (ok (k, v))) (sym (ok_injective h)) l),
    λ g. subst (Listed (ok (k, v))) (ok_injective h) (entries-Listed x t t k v v g g),
  );
}
