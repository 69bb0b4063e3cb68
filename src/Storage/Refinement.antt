-- ===== src/Storage/Refinement.antt =====
-- The buckets as a map from names to byte strings, over a database that does what it documents.
use oikade.Prelude.{
  ℕ, ◌≡◌, refl, sym, ap, ◌∙◌, String, Option, none, some, List, ◌≢◌, ◌⊎◌, inl, inr, Bool, true,
  false,
}
use oikade.Prelude.Result.{Result, ok, err, ◌>>=◌, map_err, ◌>>◌}
use oikade.Storage.Keys.{StorageError, not_found, database}
use oikade.Storage.Bucket.{
  Database, Bucket, table_for, set, get, delete, prepare_set, prepare_delete, commit_prepared,
}
use oikade.Storage.Lawful.{Store, Changed, IsLawful, Name, Place, view, view-Changed, view-same}
use oikade.Storage.Lookups.{
  Prepared, prepare_set-ok, prepare_delete-ok, delete-missing, get-missing, get-ok, some-ne-none,
  database-ne-not_found,
}

-- The operations of the buckets, and what each asks of the map.
pub data Operation : Type 0 where
  set_value : Bucket → String → List ℕ → Operation
  get_value delete_value : Bucket → String → Operation

abbrev pub run :
    (D : Database) → Operation → D.State → Result StorageError (Option (List ℕ)) × D.State
run D (set_value b key value) s = let (x, s') = set D b key value s in (x >> ok none, s')
run D (get_value b key) s = (get D b key s >>= (λ v. ok (some v)), s)
run D (delete_value b key) s = let (x, s') = delete D b key s in (x >> ok none, s')

abbrev pub Same : Store Name → Store Name → Type 0
Same old new = (n : Name) → new n ≡ old n

-- A success does to the map what the operation says.
abbrev pub Done : Operation → Option (List ℕ) → Store Name → Store Name → Type 0
Done (set_value b key value) a old new = Changed (b, key) (some value) old new
Done (get_value b key) a old new = (a ≢ none) × (old (b, key) ≡ a) × Same old new
Done (delete_value b key) a old new = (old (b, key) ≢ none) × Changed (b, key) none old new

abbrev pub is_database : StorageError → Bool
is_database (database e) = true
is_database _ = false

-- What a lookup that finds nothing says of the map.
abbrev pub Missing : Operation → Store Name → Type 0
Missing (set_value b key value) old = Unit
Missing (get_value b key) old = old (b, key) ≡ none
Missing (delete_value b key) old = old (b, key) ≡ none

-- A failure leaves the map, unless the database failed, which may have done all that the operation says.
-- `NotFound` is for a name that has no value.
abbrev pub Refused : Operation → StorageError → Store Name → Store Name → Type 0
Refused op e old new =
    (Same old new ⊎ ((is_database e ≡ true) × Done op none old new))
    × (e ≡ not_found → Missing op old)

abbrev pub Answered :
    Operation → Result StorageError (Option (List ℕ)) → Store Name → Store Name → Type 0
Answered op (ok a) old new = Done op a old new
Answered op (err e) old new = Refused op e old new

module _ {D : Database} (L : IsLawful D) where
  -- What a commit leaves, whatever was prepared.
  committed-Changed :
      (b : Bucket) (key : String) (v : Option (List ℕ)) (s s' : D.State) (t : D.Transaction)
      → Prepared L b key v s t
      → ((p : Place) → L.contents s' p ≡ L.pending t p)
      → Changed (b, key) v (view L s) (view L s')
  committed-Changed b key v s s' t (e, encoded, (here, elsewhere)) kept =
      view-Changed L s s' b key e v encoded
        (kept (table_for b.namespace, e) ∙ here, λ p ne. kept p ∙ elsewhere p ne)

  Answered-committed :
      (op : Operation) (s : D.State) (t : D.Transaction) (c : Result String (Unit {0}))
      → (D.commit t s).0 ≡ c
      → (((p : Place) → L.contents (D.commit t s).1 p ≡ L.pending t p)
          → Done op none (view L s) (view L (D.commit t s).1))
      → Answered op (map_err database c >> ok none) (view L s) (view L (D.commit t s).1)
  Answered-committed op s t (ok _) h done = done (L.commit-ok t s h)
  Answered-committed op s t (err e) h done = (
    elim (L.commit-err t s e h) [
      | inl same ↦ inl (view-same L s (D.commit t s).1 same)
      | inr whole ↦ inr (refl, done whole)
    ],
    λ x. absurd (database-ne-not_found e x),
  )

  set-Answered :
      (b : Bucket) (key : String) (value : List ℕ) (s : D.State)
      (x : Result StorageError D.Transaction)
      → prepare_set D b key value s ≡ x
      → Answered
          (set_value b key value)
          ((commit_prepared D x s).0 >> ok none)
          (view L s)
          (view L (commit_prepared D x s).1)
  set-Answered b key value s (err e) h = (inl (λ n. refl), λ x. tt)
  set-Answered b key value s (ok t) h =
      Answered-committed (set_value b key value) s t (D.commit t s).0 refl (
        committed-Changed b key (some value) s (D.commit t s).1 t
          (prepare_set-ok L b key value s t h))

  delete-Answered :
      (b : Bucket) (key : String) (s : D.State) (x : Result StorageError D.Transaction)
      → prepare_delete D b key s ≡ x
      → Answered
          (delete_value b key)
          ((commit_prepared D x s).0 >> ok none)
          (view L s)
          (view L (commit_prepared D x s).1)
  delete-Answered b key s (err e) h =
      (inl (λ n. refl), λ x. delete-missing L b key s (h ∙ ap err x))
  delete-Answered b key s (ok t) h =
      let (prepared, (value, was)) = prepare_delete-ok L b key s t h in
      Answered-committed (delete_value b key) s t (D.commit t s).0 refl (λ c. (
        λ x. some-ne-none (sym was ∙ x),
        committed-Changed b key none s (D.commit t s).1 t prepared c,
      ))

  get-Answered :
      (b : Bucket) (key : String) (s : D.State) (x : Result StorageError (List ℕ))
      → get D b key s ≡ x
      → Answered (get_value b key) (x >>= (λ v. ok (some v))) (view L s) (view L s)
  get-Answered b key s (err e) h = (inl (λ n. refl), λ x. get-missing L b key s (h ∙ ap err x))
  get-Answered b key s (ok v) h = (some-ne-none, get-ok L b key s v h, λ n. refl)

  -- Over a database that keeps its promises, `set`, `get` and `delete` do to the map of names what they
  -- say. If one fails, the map is as it was, and a name that was not found has no value; only when the
  -- database itself fails may the whole change have been made, never a part of it.
  pub run-Answered :
      (op : Operation) (s : D.State) → Answered op (run D op s).0 (view L s) (view L (run D op s).1)
  unfolding set delete
  run-Answered (set_value b key value) s = set-Answered b key value s _ refl
  run-Answered (get_value b key) s = get-Answered b key s _ refl
  run-Answered (delete_value b key) s = delete-Answered b key s _ refl
