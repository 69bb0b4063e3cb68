-- ===== src/Storage/SchemaLaws.antt =====
-- What opening a database does to it.
use oikade.Prelude.{
  ℕ, ◌≤◌, ◌≡◌, refl, sym, ap, ◌∙◌, false, some, ltb, if◌then◌else◌, arith, inl, inr, Bool-cases,
}
use oikade.Prelude.Result.{
  Result, ok, err, map_err, map_err-ok, bind-ok, guard-ok, ok_injective, err_ne_ok,
}
use oikade.Storage.Keys.{StorageError, database}
use oikade.Storage.Bucket.{Table, Database, commit_prepared}
use oikade.Storage.Lawful.{IsLawful, Store, Place, Changed}
use oikade.Storage.Lookups.{written-opened}
use oikade.Storage.Schema.{
  version_place, schema_version, schema_version_bytes, current_version, create_tables,
  prepare_schema, initialize_schema, decode_schema_version,
}

-- The contents after a successful opening: the version was not newer and is now the supported one,
-- and nothing else has changed.
pub record IsOpened (old new : Store Place) : Type 0 where
  pub version : ℕ
  pub was : current_version (old version_place) ≡ ok version
  pub supported : version ≤ schema_version
  pub now : current_version (new version_place) ≡ ok schema_version
  pub kept : (p : Place) → (p ≡ version_place → ⊥) → new p ≡ old p

module _ {D : Database} (L : IsLawful D) where
  create_tables-Changed :
      (t t' : D.Transaction)
      → create_tables D t ≡ ok t'
      → Changed version_place (some schema_version_bytes) (L.pending t) (L.pending t')
  create_tables-Changed t t' h =
      let (t1, h1, r1) = bind-ok (map_err database (D.open_table Table.devices t)) _ _ h in
      let (t2, h2, r2) = bind-ok (map_err database (D.open_table Table.plugins t1)) _ _ r1 in
      let (t3, h3, r3) = bind-ok (map_err database (D.open_table Table.discovery t2)) _ _ r2 in
      let inserted =
        L.insert-ok version_place.0 version_place.1 schema_version_bytes t3 t'
          (map_err-ok _ _ _ r3) in
      (
        inserted.0,
        λ p ne.
            inserted.1 p ne
            ∙ L.open_table-ok _ t2 t3 (map_err-ok _ _ _ h3) p
            ∙ L.open_table-ok _ t1 t2 (map_err-ok _ _ _ h2) p
            ∙ L.open_table-ok _ t t1 (map_err-ok _ _ _ h1) p,
      )

  -- The two branches on the version that was found.
  versioned :
      (s : D.State) (t t' : D.Transaction) (n : ℕ)
      → ((p : Place) → L.pending t p ≡ L.contents s p)
      → current_version (L.contents s version_place) ≡ ok n
      → ltb schema_version n ≡ false
      → (if ltb n 1 then create_tables D t else ok t) ≡ ok t'
      → IsOpened (L.contents s) (L.pending t')
  unfolding decode_schema_version
  versioned s t t' n same was small h = elim (Bool-cases (ltb n 1)) [
    | inl e ↦
        let changed = create_tables-Changed t t' (rw e at h) in
        record {
          version = n;
          was = was;
          supported = ground (arith, e);
          now = ap current_version changed.0;
          kept = λ p ne. changed.1 p ne ∙ same p;
        }
    | inr e ↦
        let t_eq : t ≡ t' = ok_injective (rw e at h) in
        let n_eq : n ≡ 1 = ground (arith, e, small) in
        record {
          version = n;
          was = was;
          supported = ground (arith, small);
          now =
              ap (λ u. current_version (L.pending u version_place)) (sym t_eq)
              ∙ ap current_version (same version_place)
              ∙ was
              ∙ ap ok n_eq;
          kept = λ p ne. ap (λ u. L.pending u p) (sym t_eq) ∙ same p;
        }
  ]

  prepare_schema-ok :
      (s : D.State) (t : D.Transaction)
      → prepare_schema D s ≡ ok t
      → IsOpened (L.contents s) (L.pending t)
  unfolding prepare_schema
  prepare_schema-ok s t h =
      let (t1, began, h1) = bind-ok (map_err database (D.begin_write s)) _ _ h in
      let (t2, opened, h2) = bind-ok (map_err database (D.open_table Table.meta t1)) _ _ h1 in
      let (value, found, h3) =
        bind-ok (map_err database (D.find version_place.0 version_place.1 t2)) _ _ h2 in
      let (n, was, h4) = bind-ok (current_version value) _ _ h3 in
      let (small, h5) = guard-ok (ltb schema_version n) _ _ _ h4 in
      let same = written-opened L Table.meta s t1 t2 began opened in
      let read = L.find-ok version_place.0 version_place.1 t2 value (map_err-ok _ _ _ found) in
      versioned s t2 t n same (ap current_version (sym (same version_place) ∙ read) ∙ was) small h5

  committed-IsOpened :
      (s : D.State) (x : Result StorageError D.Transaction)
      → prepare_schema D s ≡ x
      → (commit_prepared D x s).0 ≡ ok tt
      → IsOpened (L.contents s) (L.contents (commit_prepared D x s).1)
  committed-IsOpened s (err e) p h = absurd (err_ne_ok h)
  committed-IsOpened s (ok t) p h =
      let o = prepare_schema-ok s t p in
      let kept = L.commit-ok t s (map_err-ok _ _ _ h) in
      record {
        version = o.version;
        was = o.was;
        supported = o.supported;
        now = ap current_version (kept version_place) ∙ o.now;
        kept = λ p ne. kept p ∙ o.kept p ne;
      }

  -- A database is opened only if its schema is not newer than the supported one; it then has the
  -- supported version, and nothing else in it has changed.
  pub initialize_schema-IsOpened :
      (s : D.State)
      → (initialize_schema D s).0 ≡ ok tt
      → IsOpened (L.contents s) (L.contents (initialize_schema D s).1)
  unfolding initialize_schema
  initialize_schema-IsOpened s h = committed-IsOpened s (prepare_schema D s) refl h
