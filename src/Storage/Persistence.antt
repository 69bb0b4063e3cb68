-- ===== src/Storage/Persistence.antt =====
-- The values of a device, stored and loaded again.
use oikade.Prelude.{
  ℕ, ◌≡◌, refl, sym, ap, subst, ◌∙◌, Bool, true, false, none, some, List, ◌⊎◌, inl, inr, [], ◌∷◌,
  ◌++◌, All, ltb, length, String,
}
use oikade.Prelude.Result.{
  Result, ok, err, map_err, map_err-ok, bind-ok, guard-ok, ok_injective, err_ne_ok, ◌>>◌,
}
use oikade.Prelude.Maps.{Map, insert, string_key}
use oikade.Core.Model.{
  DeviceId, CapabilityId, Value, number, validate_value, validate_identifier, new_identifier,
}
use oikade.Storage.DeviceState.{
  PersistedValue, PersistedDeviceState, DeviceStateError, invalid, too_large, decoding,
  device_state_format, max_device_state_size, from_value, decode_values, encode_values,
  encode_state, Json, device_bucket, state_key, load, save, store_bytes, decode_fetched, storage,
}
use oikade.Storage.Keys.{StorageError, database, validate_name, encode_key}
use oikade.Storage.Bucket.{Database, get, set, prepare_set, commit_prepared}
use oikade.Storage.Lawful.{IsLawful, view}
use oikade.Storage.Lookups.{get-ok, get-missing, get-err, some-ne-none}
use oikade.Storage.Refinement.{set_value, Answered, run-Answered}
use oikade.Storage.RoundTrip.{try_into-from_value}

-- A key that an insertion puts behind all others.
abbrev IsLast : {V : Type 0} → String → Map String V → Type 0
IsLast k m = All (λ e. (string_key.eqb e.0 k ≡ false) × (string_key.before k e.0 ≡ false)) m

-- The entries of a `BTreeMap`: their keys ascend.
abbrev pub Ordered : Map CapabilityId Value → Type 0
Ordered [] = Unit {0}
Ordered ((k, v) ∷ m) =
    All (λ (e : String × Value). (string_key.eqb k e.0 ≡ false) × (string_key.before e.0 k ≡ false))
      m
    × Ordered m

abbrev pub Named : Map CapabilityId Value → Type 0
Named m = All (λ (e : String × Value). validate_identifier e.0 ≡ ok tt) m

abbrev Behind : {V : Type 0} → Map CapabilityId Value → Map String V → Type 0
Behind values m = All (λ (e : String × Value). IsLast e.0 m) values

insert-last :
    {V : Type 0} (k : String) (v : V) (m : Map String V)
    → IsLast k m
    → insert k v m ≡ m ++ (k, v) ∷ []
unfolding insert
insert-last k v [] l = refl
insert-last k v ((j, w) ∷ m) l =
    rw (l.0.0, l.0.1) (ap (λ (r : Map String _). (j, w) ∷ r) (insert-last k v m l.1))

IsLast-snoc :
    {V : Type 0} (k j : String) (w : V) (m : Map String V)
    → IsLast k m
    → string_key.eqb j k ≡ false
    → string_key.before k j ≡ false
    → IsLast k (m ++ (j, w) ∷ [])
IsLast-snoc k j w [] l e b = ((e, b), tt)
IsLast-snoc k j w (x ∷ m) l e b = (l.0, IsLast-snoc k j w m l.1 e b)

Behind-snoc :
    {V : Type 0} (j : String) (w : V) (m : Map String V) (values : Map CapabilityId Value)
    → Behind values m
    → All
        (λ (e : String × Value). (string_key.eqb j e.0 ≡ false) × (string_key.before e.0 j ≡ false))
        values
    → Behind values (m ++ (j, w) ∷ [])
Behind-snoc j w m [] b o = tt
Behind-snoc j w m (x ∷ values) b o =
    (IsLast-snoc x.0 j w m b.0 o.0.0 o.0.1, Behind-snoc j w m values b.1 o.1)

Behind-nil : (V : Type 0) (values : Map CapabilityId Value) → Behind {V = V} values []
Behind-nil V [] = tt
Behind-nil V (x ∷ values) = (tt, Behind-nil V values)

abbrev pub stored : Map CapabilityId Value → Map String PersistedValue
stored [] = []
stored ((k, v) ∷ m) = (k, from_value v) ∷ stored m

snoc_append : {V : Type 0} (m : List V) (x : V) (xs : List V) → (m ++ x ∷ []) ++ xs ≡ m ++ (x ∷ xs)
snoc_append [] x xs = refl
snoc_append (y ∷ m) x xs = ap (λ (r : List _). y ∷ r) (snoc_append m x xs)

append_nil : {V : Type 0} (m : List V) → m ++ [] ≡ m
append_nil [] = refl
append_nil (y ∷ m) = ap (λ (r : List _). y ∷ r) (append_nil m)

-- None of the values is a floating-point number.
abbrev is_number : Value → Bool
is_number (number x) = true
is_number _ = false

abbrev pub Whole : Map CapabilityId Value → Type 0
Whole m = All (λ (e : String × Value). is_number e.1 ≡ false) m

some-injective : {a b : List ℕ} → some a ≡ some b → a ≡ b
some-injective h = cc

abbrev pub AllValid : Map CapabilityId Value → Type 0
AllValid m = All (λ (e : String × Value). validate_value e.1 ≡ ok tt) m

encode_values-stored :
    (values : Map CapabilityId Value) (p q : Map String PersistedValue)
    → Ordered values
    → Behind values p
    → encode_values values p ≡ ok q
    → (q ≡ p ++ stored values) × AllValid values
unfolding encode_values
encode_values-stored [] p q o b h = (sym (ok_injective h) ∙ sym (append_nil p), tt)
encode_values-stored ((k, v) ∷ values) p q o b h =
    let (u, valid, h1) = bind-ok (map_err invalid (validate_value v)) _ q h in
    let placed : insert k (from_value v) p ≡ p ++ (k, from_value v) ∷ [] =
      insert-last k (from_value v) p b.0 in
    let (rest, all) =
      encode_values-stored values (p ++ (k, from_value v) ∷ []) q o.1
        (Behind-snoc k (from_value v) p values b.1 o.0)
        (subst (λ m. encode_values values m ≡ ok q) placed h1) in
    (
      rest ∙ snoc_append p (k, from_value v) (stored values),
      (map_err-ok invalid (validate_value v) u valid, all),
    )

decode_values-stored :
    (values m : Map CapabilityId Value)
    → Ordered values
    → Behind values m
    → Named values
    → AllValid values
    → decode_values (stored values) m ≡ ok (m ++ values)
unfolding decode_values new_identifier
decode_values-stored [] m o b n a = ap ok (sym (append_nil m))
decode_values-stored ((k, v) ∷ values) m o b n a =
    rw (n.0, try_into-from_value v a.0)
      (ap (decode_values (stored values)) (insert-last k v m b.0)
        ∙ decode_values-stored values (m ++ (k, v) ∷ []) o.1 (Behind-snoc k v m values b.1 o.0) n.1
            a.1
        ∙ ap ok (snoc_append m (k, v) values))

-- The record that is stored for the values.
abbrev pub record_of : Map CapabilityId Value → PersistedDeviceState
record_of values = record { version = device_state_format; values = stored values }

module _ {D : Database} (L : IsLawful D) (J : Json) where
  encode_state-ok :
      (values : Map CapabilityId Value) (bytes : List ℕ)
      → Ordered values
      → encode_state D J values ≡ ok bytes
      → (J.to_vec (record_of values) ≡ ok bytes)
        × (ltb max_device_state_size (length bytes) ≡ false)
        × AllValid values
  unfolding encode_state
  encode_state-ok values bytes o h =
      let (q, stored_values, h1) = bind-ok (encode_values values []) _ bytes h in
      let (same, valid) =
        encode_values-stored values [] q o (Behind-nil PersistedValue values) stored_values in
      let (encoded, printed, h2) =
        bind-ok (map_err decoding (J.to_vec (record { version = device_state_format; values = q })))
          _ bytes h1 in
      let (small, h3) =
        guard-ok (ltb max_device_state_size (length encoded)) too_large _ bytes h2 in
      let e : encoded ≡ bytes = ok_injective h3 in
      (
        ap (λ m. J.to_vec (record { version = device_state_format; values = m })) (sym same)
            ∙ map_err-ok decoding (J.to_vec (record { version = device_state_format; values = q }))
                encoded printed
            ∙ ap ok e,
        subst (λ b. ltb max_device_state_size (length b) ≡ false) e small,
        valid,
      )

  load-found :
      (id : DeviceId) (s : D.State) (values : Map CapabilityId Value) (bytes : List ℕ)
      → Ordered values
      → Named values
      → AllValid values
      → get D device_bucket (state_key id) s ≡ ok bytes
      → ltb max_device_state_size (length bytes) ≡ false
      → J.from_slice bytes ≡ ok (record_of values)
      → load D J id s ≡ ok (some values)
  unfolding load
  load-found id s values bytes o n a got small read =
      rw (got, small, read, decode_values-stored values [] o (Behind-nil Value values) n a)

  -- A successful `set` has a valid name, and leaves the value under it.
  set-stored :
      (key : String) (bytes : List ℕ) (s : D.State)
      → (set D device_bucket key bytes s).0 ≡ ok tt
      → (validate_name key ≡ ok tt)
        × ((e : List ℕ) × (encode_key [] key ≡ ok e))
        × (view L (set D device_bucket key bytes s).1 (device_bucket, key) ≡ some bytes)
  unfolding set prepare_set
  set-stored key bytes s h =
      let (t, prepared) = prepared_of (prepare_set D device_bucket key bytes s) refl h in
      let (u, valid, h1) = bind-ok (validate_name key) _ t prepared in
      let (e, encoded, h2) = bind-ok (encode_key [] key) _ t h1 in
      (valid, (e, encoded), stored_by (run-Answered L (set_value device_bucket key bytes) s))
    where
      prepared_of :
          (x : Result StorageError D.Transaction)
          → prepare_set D device_bucket key bytes s ≡ x
          → (commit_prepared D x s).0 ≡ ok tt
          → (t : D.Transaction) × (prepare_set D device_bucket key bytes s ≡ ok t)
      prepared_of (ok t) p q = (t, p)
      prepared_of (err e) p q = absurd (err_ne_ok q)

      stored_by :
          Answered
            (set_value device_bucket key bytes)
            ((set D device_bucket key bytes s).0 >> ok none)
            (view L s)
            (view L (set D device_bucket key bytes s).1)
          → view L (set D device_bucket key bytes s).1 (device_bucket, key) ≡ some bytes
      stored_by a =
          (subst
            (λ x.
              Answered (set_value device_bucket key bytes) (x >> ok none) (view L s)
                (view L (set D device_bucket key bytes s).1))
            h a).0

  save-stored :
      (id : DeviceId) (values : Map CapabilityId Value) (s : D.State)
      (x : Result DeviceStateError (List ℕ))
      → encode_state D J values ≡ x
      → (save D J id values s).0 ≡ ok tt
      → (bytes : List ℕ) × (encode_state D J values ≡ ok bytes)
        × ((set D device_bucket (state_key id) bytes s).0 ≡ ok tt)
        × ((save D J id values s).1 ≡ (set D device_bucket (state_key id) bytes s).1)
  unfolding save
  save-stored id values s (err e) p h =
      absurd (err_ne_ok (subst (λ y. (store_bytes D J id y s).0 ≡ ok tt) p h))
  save-stored id values s (ok bytes) p h = (
    bytes,
    p,
    map_err-ok storage (set D device_bucket (state_key id) bytes s).0 tt
        (subst (λ y. (store_bytes D J id y s).0 ≡ ok tt) p h),
    ap (λ y. (store_bytes D J id y s).1) p,
  )

  -- The values are loaded, or the database cannot be read.
  abbrev pub Loaded : DeviceId → Map CapabilityId Value → D.State → Type 0
  Loaded id values s =
      (load D J id s ≡ ok (some values))
      ⊎ ((m : String) × (load D J id s ≡ err (storage (database m))))

  load-stored :
      (id : DeviceId) (values : Map CapabilityId Value) (bytes e : List ℕ) (s : D.State)
      (x : Result StorageError (List ℕ))
      → validate_name (state_key id) ≡ ok tt
      → encode_key [] (state_key id) ≡ ok e
      → view L s (device_bucket, state_key id) ≡ some bytes
      → (get D device_bucket (state_key id) s ≡ ok bytes → load D J id s ≡ ok (some values))
      → get D device_bucket (state_key id) s ≡ x
      → Loaded id values s
  unfolding load
  load-stored id values bytes e s (ok found) valid encoded here loads got =
      let same : found ≡ bytes =
        some-injective (sym (get-ok L device_bucket (state_key id) s found got) ∙ here) in
      inl (loads (got ∙ ap ok same))
  load-stored id values bytes e s (err x) valid encoded here loads got =
      elim (get-err L device_bucket (state_key id) s e x valid encoded got) [
        | inl absent ↦ absurd (
            some-ne-none
              (sym here ∙ get-missing L device_bucket (state_key id) s (got ∙ ap err absent)))
        | inr broken ↦ inr (broken.0, ap (decode_fetched D J) (got ∙ ap err broken.1))
      ]

  -- Over a database that keeps its promises: if `save` succeeds for values under valid identifiers, in
  -- ascending order of these, none of which is a floating-point number, then `load` returns the same
  -- values, unless the database fails. Of JSON this assumes that it reads back what it printed for
  -- valid values without a floating-point number.
  pub load-save :
      (id : DeviceId) (values : Map CapabilityId Value) (s : D.State)
      → ((vs : Map CapabilityId Value) (bytes : List ℕ)
          → Ordered vs
          → AllValid vs
          → Whole vs
          → J.to_vec (record_of vs) ≡ ok bytes
          → J.from_slice bytes ≡ ok (record_of vs))
      → Ordered values
      → Named values
      → Whole values
      → (save D J id values s).0 ≡ ok tt
      → Loaded id values (save D J id values s).1
  load-save id values s reads o n w h =
      let (bytes, e, set_ok, after) = save-stored id values s (encode_state D J values) refl h in
      let (printed, small, valid) = encode_state-ok values bytes o e in
      let (named, encoded, here) = set-stored (state_key id) bytes s set_ok in
      subst (Loaded id values) (sym after) (
        load-stored id values bytes encoded.0 (set D device_bucket (state_key id) bytes s).1 _ named
          encoded.1 here
          (λ got.
            load-found id _ values bytes o n valid got small (reads values bytes o valid w printed))
          refl)
