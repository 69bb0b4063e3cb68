-- ===== src/Storage/Lookups.antt =====
-- What a transaction of a bucket has done when it is ready, and what a lookup finds.
use oikade.Prelude.Text.{codes}
use oikade.Prelude.{
  ℕ, ◌≡◌, refl, sym, ap, ◌∙◌, String, Option, none, some, List, inl, inr, any, ◌≢◌, ◌⊎◌, true,
  false,
}
use oikade.Prelude.Result.{
  Result, ok, err, ◌>>=◌, bind-ok, bind-err, map_err, map_err-ok, ok_injective, ok_ne_err,
  guard-err, err_ne_ok, ok_or, ok_or-ok, ok_or-err, err_injective,
}
use oikade.Storage.Keys.{
  StorageError, encode_key, validate_name, not_found, database, is_empty, is_separator,
}
use oikade.Storage.Bucket.{
  Table, Database, Bucket, table_for, get, prepare_set, prepare_delete, removed,
}
use oikade.Storage.Lawful.{Changed, Place, IsLawful, view, view-encoded}

validate_name-found : (name : String) → validate_name name ≡ err not_found → ⊥
unfolding validate_name
validate_name-found name h = elim (guard-err (is_empty (codes name)) _ _ _ h) [
  | inl e ↦ cc
  | inr p ↦ elim (guard-err (any is_separator (codes name)) _ _ _ p.1) [
    | inl e ↦ cc
    | inr q ↦ ok_ne_err q.1
  ]
]

-- `NotFound` comes of none of the steps before the entry is looked up.
pass_name :
    {B : Type 0} (name : String) (f : Unit {0} → Result StorageError B)
    → (validate_name name >>= f) ≡ err not_found
    → f tt ≡ err not_found
pass_name name f h = elim (bind-err (validate_name name) f not_found h) [
  | inl e ↦ absurd (validate_name-found name e)
  | inr p ↦ p.2
]

pub database-ne-not_found : (e : String) → database e ≡ not_found → ⊥
database-ne-not_found e x = cc

pub some-ne-none : {v : List ℕ} → some v ≢ none
some-ne-none x = cc

pub true-ne-false : true ≡ false → ⊥
true-ne-false x = cc

pass_database :
    {A B : Type 0} (m : Result String A) (f : A → Result StorageError B)
    → (map_err database m >>= f) ≡ err not_found
    → (a : A) × (map_err {E' = StorageError} database m ≡ ok a) × (f a ≡ err not_found)
pass_database (ok a) f h = (a, refl, h)
pass_database (err e) f h = absurd (database-ne-not_found e (err_injective h))

failed_database :
    {A B : Type 0} (m : Result String A) (f : A → Result StorageError B) (x : StorageError)
    → (map_err database m >>= f) ≡ err x
    → ((e : String) × (x ≡ database e)) ⊎ ((a : A) × (f a ≡ err x))
failed_database (ok a) f x h = inr (a, h)
failed_database (err e) f x h = inl (e, sym (err_injective h))

ok_or-error : {A : Type 0} (o : Option A) (e x : StorageError) → ok_or o e ≡ err x → e ≡ x
ok_or-error none e x h = err_injective h
ok_or-error (some a) e x h = absurd (ok_ne_err h)

module _ {D : Database} (L : IsLawful D) where
  -- What a transaction sees once its table is open.
  pub written-opened :
      (x : Table) (s : D.State) (t t' : D.Transaction)
      → map_err database (D.begin_write s) ≡ ok t
      → map_err database (D.open_table x t) ≡ ok t'
      → (p : Place) → L.pending t' p ≡ L.contents s p
  written-opened x s t t' began opened p =
      L.open_table-ok x t t' (map_err-ok _ _ _ opened) p
      ∙ L.begin_write-ok s t (map_err-ok _ _ _ began) p

  pub read-opened :
      (x : Table) (s : D.State) (t t' : D.Transaction)
      → map_err database (D.begin_read s) ≡ ok t
      → map_err database (D.open_table x t) ≡ ok t'
      → (p : Place) → L.pending t' p ≡ L.contents s p
  read-opened x s t t' began opened p =
      L.open_table-ok x t t' (map_err-ok _ _ _ opened) p
      ∙ L.begin_read-ok s t (map_err-ok _ _ _ began) p

  -- What a transaction changes against the contents it began with.
  abbrev pub Prepared : Bucket → String → Option (List ℕ) → D.State → D.Transaction → Type 0
  Prepared b key v s t =
      (e : List ℕ) × (encode_key b.scopes key ≡ ok e)
      × Changed (table_for b.namespace, e) v (L.contents s) (L.pending t)

  pub prepare_set-ok :
      (b : Bucket) (key : String) (value : List ℕ) (s : D.State) (t : D.Transaction)
      → prepare_set D b key value s ≡ ok t
      → Prepared b key (some value) s t
  unfolding prepare_set
  prepare_set-ok b key value s t h =
      let x = table_for b.namespace in
      let (_, _, h1) = bind-ok (validate_name key) _ _ h in
      let (e, encoded, h2) = bind-ok (encode_key b.scopes key) _ _ h1 in
      let (t1, began, h3) = bind-ok (map_err database (D.begin_write s)) _ _ h2 in
      let (t2, opened, h4) = bind-ok (map_err database (D.open_table x t1)) _ _ h3 in
      let inserted = L.insert-ok x e value t2 t (map_err-ok _ _ _ h4) in
      (e, encoded, (inserted.0, λ p ne. inserted.1 p ne ∙ written-opened x s t1 t2 began opened p))

  removed-ok :
      (taken : Option (List ℕ) × D.Transaction) (t : D.Transaction)
      → removed D taken ≡ ok t
      → (value : List ℕ) × (taken ≡ (some value, t))
  removed-ok (none, t') t h = absurd (err_ne_ok h)
  removed-ok (some value, t') t h = (value, ap (λ x. (some value, x)) (ok_injective h))

  pub prepare_delete-ok :
      (b : Bucket) (key : String) (s : D.State) (t : D.Transaction)
      → prepare_delete D b key s ≡ ok t
      → Prepared b key none s t × ((value : List ℕ) × (view L s (b, key) ≡ some value))
  unfolding prepare_delete
  prepare_delete-ok b key s t h =
      let x = table_for b.namespace in
      let (_, _, h1) = bind-ok (validate_name key) _ _ h in
      let (e, encoded, h2) = bind-ok (encode_key b.scopes key) _ _ h1 in
      let (t1, began, h3) = bind-ok (map_err database (D.begin_write s)) _ _ h2 in
      let (t2, opened, h4) = bind-ok (map_err database (D.open_table x t1)) _ _ h3 in
      let (taken, took, h5) = bind-ok (map_err database (D.remove x e t2)) _ _ h4 in
      let (value, taken_eq) = removed-ok taken t h5 in
      let (old, changed) =
        L.remove-ok x e t2 t (some value) (map_err-ok _ _ _ took ∙ ap ok taken_eq) in
      let same = written-opened x s t1 t2 began opened in
      (
        (e, encoded, (changed.0, λ p ne. changed.1 p ne ∙ same p)),
        (value, view-encoded L s b key e encoded ∙ sym (same (x, e)) ∙ old),
      )

  -- The read of a value: what it finds is what the view holds.
  pub get-ok :
      (b : Bucket) (key : String) (s : D.State) (value : List ℕ)
      → get D b key s ≡ ok value
      → view L s (b, key) ≡ some value
  unfolding get
  get-ok b key s value h =
      let x = table_for b.namespace in
      let (_, _, h1) = bind-ok (validate_name key) _ _ h in
      let (e, encoded, h2) = bind-ok (encode_key b.scopes key) _ _ h1 in
      let (t1, began, h3) = bind-ok (map_err database (D.begin_read s)) _ _ h2 in
      let (t2, opened, h4) = bind-ok (map_err database (D.open_table x t1)) _ _ h3 in
      let (taken, took, h5) = bind-ok (map_err database (D.find x e t2)) _ _ h4 in
      view-encoded L s b key e encoded
      ∙ sym (read-opened x s t1 t2 began opened (x, e))
      ∙ L.find-ok x e t2 taken (map_err-ok _ _ _ took)
      ∙ ok_or-ok taken not_found value h5

  -- `NotFound` is the error of a name without a value, and of nothing else.
  pub get-missing :
      (b : Bucket) (key : String) (s : D.State)
      → get D b key s ≡ err not_found
      → view L s (b, key) ≡ none
  unfolding get
  get-missing b key s h = elim (bind-err (encode_key b.scopes key) _ _ (pass_name key _ h)) [
    | inl e ↦ rw e refl
    | inr p ↦
        let x = table_for b.namespace in
        let (t1, began, h3) = pass_database (D.begin_read s) _ p.2 in
        let (t2, opened, h4) = pass_database (D.open_table x t1) _ h3 in
        let (taken, took, h5) = pass_database (D.find x p.0 t2) _ h4 in
        view-encoded L s b key p.0 p.1
        ∙ sym (read-opened x s t1 t2 began opened (x, p.0))
        ∙ L.find-ok x p.0 t2 taken (map_err-ok _ _ _ took)
        ∙ ok_or-err taken not_found not_found h5
  ]

  -- Under a name that is valid, a read fails because there is no value, or because the database does.
  pub get-err :
      (b : Bucket) (key : String) (s : D.State) (e : List ℕ) (x : StorageError)
      → validate_name key ≡ ok tt
      → encode_key b.scopes key ≡ ok e
      → get D b key s ≡ err x
      → (x ≡ not_found) ⊎ ((m : String) × (x ≡ database m))
  unfolding get
  get-err b key s e x valid encoded h =
      let k = table_for b.namespace in
      elim (failed_database (D.begin_read s) _ x (rw (valid, encoded) at h)) [
        | inl broken ↦ inr broken
        | inr began ↦ elim (failed_database (D.open_table k began.0) _ x began.1) [
          | inl broken ↦ inr broken
          | inr opened ↦ elim (failed_database (D.find k e opened.0) _ x opened.1) [
            | inl broken ↦ inr broken
            | inr found ↦ inl (sym (ok_or-error found.0 not_found x found.1))
          ]
        ]
      ]

  removed-missing :
      (taken : Option (List ℕ) × D.Transaction) → removed D taken ≡ err not_found → taken.0 ≡ none
  removed-missing (none, t') h = refl
  removed-missing (some value, t') h = absurd (ok_ne_err h)

  pub delete-missing :
      (b : Bucket) (key : String) (s : D.State)
      → prepare_delete D b key s ≡ err not_found
      → view L s (b, key) ≡ none
  unfolding prepare_delete
  delete-missing b key s h = elim (bind-err (encode_key b.scopes key) _ _ (pass_name key _ h)) [
    | inl e ↦ rw e refl
    | inr p ↦
        let x = table_for b.namespace in
        let (t1, began, h3) = pass_database (D.begin_write s) _ p.2 in
        let (t2, opened, h4) = pass_database (D.open_table x t1) _ h3 in
        let (taken, took, h5) = pass_database (D.remove x p.0 t2) _ h4 in
        view-encoded L s b key p.0 p.1
        ∙ sym (written-opened x s t1 t2 began opened (x, p.0))
        ∙ (L.remove-ok x p.0 t2 taken.1 taken.0 (map_err-ok _ _ _ took)).0
        ∙ removed-missing taken h5
  ]
