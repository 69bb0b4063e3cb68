-- ===== src/Adapter/StrictLaws.antt =====
-- What the strict reader of JSON accepts, and what it makes of it.
use text.Mathlib.Text.{◌==◌ as str_eq}
use oikade.Prelude.{
  ◌≡◌, refl, sym, ap, ◌∙◌, String, Bool, true, false, ◌||◌, not, Option, none, some, List, [], ◌∷◌,
  if◌then◌else◌, arith, eq_iff,
}
use oikade.Prelude.Result.{Result, ok, err, bind-ok, guard-ok, ok_injective, ok_ne_err}
use oikade.Prelude.Float.{is_finite}
use oikade.Adapter.Strict.{
  from_i64, from_u64, from_f64, Visit, unit, bool, i64, u64, f64, str, seq, map, Elements,
  no_elements, element, Members, no_members, member, Value, null, boolean, number, string, array,
  object, Values, no_values, value, Fields, no_fields, field, insert_field, is_key, strict,
  strict_elements, strict_members, duplicate_key, non_finite,
}

-- Does an object have a field of the name?
abbrev pub has_member : String → Members → Bool
has_member k no_members = false
has_member k (member j e ms) = str_eq k j || has_member k ms

-- The names of the fields of each object differ, at every depth, and the numbers are finite.
unfoldable mutual
  pub IsStrict : Visit → Type 0
  IsStrict unit = Unit {0}
  IsStrict (bool b) = Unit {0}
  IsStrict (i64 n) = Unit {0}
  IsStrict (u64 n) = Unit {0}
  IsStrict (f64 x) = is_finite x ≡ true
  IsStrict (str s) = Unit {0}
  IsStrict (seq es) = AreStrict es
  IsStrict (map ms) = Differ ms

  pub AreStrict : Elements → Type 0
  AreStrict no_elements = Unit {0}
  AreStrict (element e es) = IsStrict e × AreStrict es

  pub Differ : Members → Type 0
  Differ no_members = Unit {0}
  Differ (member k e ms) = (has_member k ms ≡ false) × IsStrict e × Differ ms

abbrev pub find : String → Fields → Option Value
find k no_fields = none
find k (field j v fs) = if str_eq j k then some v else find k fs

-- A value is what the text says: its elements in their order, and a field for each member and no other.
unfoldable mutual
  pub Says : Visit → Value → Type 0
  Says unit v = v ≡ null
  Says (bool b) v = v ≡ boolean b
  Says (i64 n) v = v ≡ number (from_i64 n)
  Says (u64 n) v = v ≡ number (from_u64 n)
  Says (f64 x) v = v ≡ number (from_f64 x)
  Says (str s) v = v ≡ string s
  Says (seq es) v = (vs : Values) × (v ≡ array vs) × SayAll es vs
  Says (map ms) v =
      (fs : Fields) × (v ≡ object fs)
      × SayFields ms fs
      × ((k : String) → has_member k ms ≡ false → find k fs ≡ none)

  pub SayAll : Elements → Values → Type 0
  SayAll no_elements vs = vs ≡ no_values
  SayAll (element e es) vs =
      (v : Value) × (rest : Values) × (vs ≡ value v rest) × Says e v × SayAll es rest

  pub SayFields : Members → Fields → Type 0
  SayFields no_members fs = Unit {0}
  SayFields (member k e ms) fs = ((v : Value) × (find k fs ≡ some v) × Says e v) × SayFields ms fs

find-insert_field :
    (i k : String) (v : Value) (fs : Fields)
    → find i (insert_field k v fs) ≡ (if str_eq k i then some v else find i fs)
unfolding insert_field
find-insert_field i k v no_fields = refl
find-insert_field i k v (field j w fs) = ground (
  arith,
  find-insert_field i k v fs,
  eq_iff i k,
  eq_iff i j,
  eq_iff k j,
  eq_iff k i,
  eq_iff j i,
  eq_iff j k,
)

-- No member has a name that was seen.
abbrev Fresh : List String → Members → Type 0
Fresh keys no_members = Unit {0}
Fresh keys (member k e ms) = (is_key k keys ≡ false) × Fresh keys ms

Fresh-nil : (ms : Members) → Fresh [] ms
unfolding is_key
Fresh-nil no_members = tt
Fresh-nil (member k e ms) = (refl, Fresh-nil ms)

Fresh-tail :
    (k : String) (keys : List String) (ms : Members)
    → Fresh (k ∷ keys) ms
    → (has_member k ms ≡ false) × Fresh keys ms
unfolding is_key
Fresh-tail k keys no_members f = (refl, tt)
Fresh-tail k keys (member j e ms) f =
    let (a, b) = Fresh-tail k keys ms f.1 in (ground (arith, f.0, a), (ground (arith, f.0), b))

Fresh-cons :
    (k : String) (keys : List String) (ms : Members)
    → has_member k ms ≡ false
    → Fresh keys ms
    → Fresh (k ∷ keys) ms
unfolding is_key
Fresh-cons k keys no_members h f = tt
Fresh-cons k keys (member j e ms) h f =
    (ground (arith, h, f.0), Fresh-cons k keys ms (ground (arith, h)) f.1)

-- The fields of a list of members, where those of `old` were there before.
abbrev Collected : Members → List String → Fields → Fields → Type 0
Collected ms keys old fs =
    Fresh keys ms
    × Differ ms
    × SayFields ms fs
    × ((k : String) → has_member k ms ≡ false → find k fs ≡ find k old)

mutual
  unfolding strict IsStrict Says

  strict-Says : (e : Visit) (v : Value) → strict e ≡ ok v → IsStrict e × Says e v
  strict-Says unit v h = (tt, sym (ok_injective h))
  strict-Says (bool b) v h = (tt, sym (ok_injective h))
  strict-Says (i64 n) v h = (tt, sym (ok_injective h))
  strict-Says (u64 n) v h = (tt, sym (ok_injective h))
  strict-Says (f64 x) v h =
      let (finite, h1) = guard-ok (not (is_finite x)) non_finite _ v h in
      (ground (arith, finite), sym (ok_injective h1))
  strict-Says (str s) v h = (tt, sym (ok_injective h))
  strict-Says (seq es) v h =
      let (vs, p, h1) = bind-ok (strict_elements es) _ v h in
      let (clean, said) = strict_elements-SayAll es vs p in
      (clean, (vs, sym (ok_injective h1), said))
  strict-Says (map ms) v h =
      let (fs, p, h1) = bind-ok (strict_members ms [] no_fields) _ v h in
      let (_, differ, said, others) = strict_members-Collected ms [] no_fields fs p in
      (differ, (fs, sym (ok_injective h1), said, others))

  strict_elements-SayAll :
      (es : Elements) (vs : Values) → strict_elements es ≡ ok vs → AreStrict es × SayAll es vs
  strict_elements-SayAll no_elements vs h = (tt, sym (ok_injective h))
  strict_elements-SayAll (element e es) vs h =
      let (v, p, h1) = bind-ok (strict e) _ vs h in
      let (rest, q, h2) = bind-ok (strict_elements es) _ vs h1 in
      let (clean, said) = strict-Says e v p in
      let (all, more) = strict_elements-SayAll es rest q in
      ((clean, all), (v, rest, sym (ok_injective h2), said, more))

  strict_members-Collected :
      (ms : Members) (keys : List String) (old fs : Fields)
      → strict_members ms keys old ≡ ok fs
      → Collected ms keys old fs
  strict_members-Collected no_members keys old fs h =
      (tt, tt, tt, λ k n. ap (find k) (sym (ok_injective h)))
  strict_members-Collected (member k e ms) keys old fs h =
      let (new, h1) = guard-ok (is_key k keys) duplicate_key _ fs h in
      let (v, p, h2) = bind-ok (strict e) _ fs h1 in
      let (clean, said) = strict-Says e v p in
      let (fresh, differ, more, others) =
        strict_members-Collected ms (k ∷ keys) (insert_field k v old) fs h2 in
      let (only, rest) = Fresh-tail k keys ms fresh in
      (
        (new, rest),
        (only, clean, differ),
        (
          (v, others k only ∙ find-insert_field k k v old ∙ rw ((eq_iff k k).1 refl) refl, said),
          more,
        ),
        λ j n.
            others j (ground (arith, n))
            ∙ find-insert_field j k v old
            ∙ ground (arith, n, eq_iff j k, eq_iff k j),
      )

mutual
  unfolding strict IsStrict

  strict-accepts : (e : Visit) → IsStrict e → (v : Value) × (strict e ≡ ok v)
  strict-accepts unit c = (_, refl)
  strict-accepts (bool b) c = (_, refl)
  strict-accepts (i64 n) c = (_, refl)
  strict-accepts (u64 n) c = (_, refl)
  strict-accepts (f64 x) c = (number (from_f64 x), rw c refl)
  strict-accepts (str s) c = (_, refl)
  strict-accepts (seq es) c = let (vs, p) = strict_elements-accepts es c in (array vs, rw p refl)
  strict-accepts (map ms) c =
      let (fs, p) = strict_members-accepts ms [] no_fields (Fresh-nil ms) c in
      (object fs, rw p refl)

  strict_elements-accepts :
      (es : Elements) → AreStrict es → (vs : Values) × (strict_elements es ≡ ok vs)
  strict_elements-accepts no_elements c = (no_values, refl)
  strict_elements-accepts (element e es) c =
      let (v, p) = strict-accepts e c.0 in
      let (vs, q) = strict_elements-accepts es c.1 in (value v vs, rw (p, q) refl)

  strict_members-accepts :
      (ms : Members) (keys : List String) (old : Fields)
      → Fresh keys ms
      → Differ ms
      → (fs : Fields) × (strict_members ms keys old ≡ ok fs)
  strict_members-accepts no_members keys old f c = (old, refl)
  strict_members-accepts (member k e ms) keys old f (only, clean, differ) =
      let (v, p) = strict-accepts e clean in
      let (fs, q) =
        strict_members-accepts ms (k ∷ keys) (insert_field k v old) (Fresh-cons k keys ms only f.1)
          differ in
      (fs, rw (f.0, p) q)

-- What the reader makes of a text.
abbrev pub Checked : Visit → Result String Value → Type 0
Checked e (ok v) = IsStrict e × Says e v
Checked e (err _) = IsStrict e → ⊥

-- The strict reader accepts exactly the texts in which, at every depth, no object has two fields of one
-- name and every number is finite; and the value it makes of one has its elements in their order, and
-- for each object its fields and no other.
pub strict-Checked : (e : Visit) → Checked e (strict e)
strict-Checked e = of_result (strict e) refl
  where
    of_result : (x : Result String Value) → strict e ≡ x → Checked e x
    of_result (ok v) p = strict-Says e v p
    of_result (err _) p = λ c. let (v, q) = strict-accepts e c in ok_ne_err (sym q ∙ p)
