-- ===== src/Storage/Lawful.antt =====
-- What the database documents, and the map from names to byte strings that the buckets see in it.
use oikade.Prelude.{ℕ, ◌≡◌, refl, ap, ◌∙◌, String, Option, none, some, List, ◌⊎◌, ◌↔◌, ◌∷◌, []}
use oikade.Prelude.Result.{Result, ok, err}
use oikade.Storage.Keys.{StorageError, encode_key}
use oikade.Storage.KeyLaws.{encode_key-injective}
use oikade.Storage.Bucket.{Table, Database, Namespace, Bucket, table_for}

-- A store of byte strings, and what it is when one entry has been changed.
abbrev pub Store {ℓ} : Type ℓ → Type ℓ
Store K = K → Option (List ℕ)

abbrev pub Changed {ℓ} : {K : Type ℓ} → K → Option (List ℕ) → Store K → Store K → Type ℓ
Changed k v old new = (new k ≡ v) × ((j : _) → (j ≡ k → ⊥) → new j ≡ old j)

abbrev pub Place : Type 0
Place = Table × List ℕ

abbrev pub Listed : {A : Type 0} → A → List A → Type 0
Listed x [] = ⊥
Listed x (y ∷ ys) = (y ≡ x) ⊎ Listed x ys

-- What the database documents: what a transaction sees, that a commit makes it so, and that a commit
-- that fails has made all of it so, or nothing.
pub record IsLawful (D : Database) : Type 0 where
  pub contents : D.State → Store Place
  pub pending : D.Transaction → Store Place
  pub begin_write-ok :
      (s : D.State) (t : D.Transaction)
      → D.begin_write s ≡ ok t
      → (p : Place) → pending t p ≡ contents s p
  pub begin_read-ok :
      (s : D.State) (t : D.Transaction)
      → D.begin_read s ≡ ok t
      → (p : Place) → pending t p ≡ contents s p
  pub open_table-ok :
      (x : Table) (t t' : D.Transaction)
      → D.open_table x t ≡ ok t'
      → (p : Place) → pending t' p ≡ pending t p
  pub find-ok :
      (x : Table) (k : List ℕ) (t : D.Transaction) (v : Option (List ℕ))
      → D.find x k t ≡ ok v
      → pending t (x, k) ≡ v
  pub insert-ok :
      (x : Table) (k v : List ℕ) (t t' : D.Transaction)
      → D.insert x k v t ≡ ok t'
      → Changed (x, k) (some v) (pending t) (pending t')
  pub remove-ok :
      (x : Table) (k : List ℕ) (t t' : D.Transaction) (v : Option (List ℕ))
      → D.remove x k t ≡ ok (v, t')
      → (pending t (x, k) ≡ v) × Changed (x, k) none (pending t) (pending t')
  pub commit-ok :
      (t : D.Transaction) (s : D.State)
      → (D.commit t s).0 ≡ ok tt
      → (p : Place) → contents (D.commit t s).1 p ≡ pending t p
  pub commit-err :
      (t : D.Transaction) (s : D.State) (e : String)
      → (D.commit t s).0 ≡ err e
      → ((p : Place) → contents (D.commit t s).1 p ≡ contents s p)
        ⊎ ((p : Place) → contents (D.commit t s).1 p ≡ pending t p)
  pub iter-ok :
      (x : Table) (t : D.Transaction) (entries : List (Result String (List ℕ × List ℕ)))
      → D.iter x t ≡ ok entries
      → (k v : List ℕ) → Listed (ok (k, v)) entries ↔ (pending t (x, k) ≡ some v)

-- The names in all buckets.
abbrev pub Name : Type 0
Name = Bucket × String

module _ {D : Database} (L : IsLawful D) where
  abbrev pub stored : D.State → Bucket → Result StorageError (List ℕ) → Option (List ℕ)
  stored s b (err e) = none
  stored s b (ok k) = L.contents s (table_for b.namespace, k)

  -- The abstract view: the value of each name in each bucket.
  abbrev pub view : D.State → Store Name
  view s (b, name) = stored s b (encode_key b.scopes name)

table_for-injective : (m n : Namespace) → table_for m ≡ table_for n → m ≡ n
table_for-injective Namespace.devices Namespace.devices h = refl
table_for-injective Namespace.devices Namespace.plugins h = cc
table_for-injective Namespace.devices Namespace.discovery h = cc
table_for-injective Namespace.plugins Namespace.devices h = cc
table_for-injective Namespace.plugins Namespace.plugins h = refl
table_for-injective Namespace.plugins Namespace.discovery h = cc
table_for-injective Namespace.discovery Namespace.devices h = cc
table_for-injective Namespace.discovery Namespace.plugins h = cc
table_for-injective Namespace.discovery Namespace.discovery h = refl

-- Two names with one place are one name.
place-injective :
    (b c : Bucket) (j k : String) (e f : List ℕ)
    → encode_key b.scopes j ≡ ok e
    → encode_key c.scopes k ≡ ok f
    → ◌≡◌ {A = Place} (table_for b.namespace, e) (table_for c.namespace, f)
    → ◌≡◌ {A = Name} (b, j) (c, k)
place-injective b c j k e f p q h =
    let scoped = encode_key-injective b.scopes c.scopes j k f (p ∙ ap ok (ap (λ x. x.1) h)) q in
    let space = table_for-injective b.namespace c.namespace (ap (λ x. x.0) h) in
    λ i. (record { namespace = space i; scopes = (scoped i).0 }, (scoped i).1)

module _ {D : Database} (L : IsLawful D) where
  pub view-encoded :
      (s : D.State) (b : Bucket) (key : String) (e : List ℕ)
      → encode_key b.scopes key ≡ ok e
      → view L s (b, key) ≡ L.contents s (table_for b.namespace, e)
  view-encoded s b key e h = rw h refl

  -- A change of the contents at the place of a name is a change of the view at the name.
  pub view-Changed :
      (s s' : D.State) (b : Bucket) (key : String) (e : List ℕ) (v : Option (List ℕ))
      → encode_key b.scopes key ≡ ok e
      → Changed (table_for b.namespace, e) v (L.contents s) (L.contents s')
      → Changed (b, key) v (view L s) (view L s')
  view-Changed s s' b key e v h (here, elsewhere) = (rw h here, others)
    where
      other :
          (c : Bucket) (j : String) (x : Result StorageError (List ℕ))
          → encode_key c.scopes j ≡ x
          → (◌≡◌ {A = Name} (c, j) (b, key) → ⊥)
          → stored L s' c x ≡ stored L s c x
      other c j (err _) p ne = refl
      other c j (ok f) p ne =
          elsewhere (table_for c.namespace, f) (λ same. ne (place-injective c b j key f e p h same))

      others : (n : Name) → (n ≡ (b, key) → ⊥) → view L s' n ≡ view L s n
      others (c, j) ne = other c j (encode_key c.scopes j) refl ne

  -- Equal contents are equal views.
  pub view-same :
      (s s' : D.State)
      → ((p : Place) → L.contents s' p ≡ L.contents s p)
      → (n : Name) → view L s' n ≡ view L s n
  view-same s s' same (b, name) = at_key (encode_key b.scopes name)
    where
      at_key : (x : Result StorageError (List ℕ)) → stored L s' b x ≡ stored L s b x
      at_key (err _) = refl
      at_key (ok k) = same (table_for b.namespace, k)
