-- ===== src/Matter/Allocation.antt =====
-- `EndpointMappings::allocate`: endpoints in range, distinct and stable.
use oikade.Prelude.{
  ℕ, ◌≤◌, ◌<◌, ◌≡◌, refl, sym, ap, ◌∙◌, String, true, false, some, arith, Bool-cases, inl, inr,
  eq_iff,
}
use text.Mathlib.Text.{◌==◌ as str_eq}
use oikade.Prelude.Result.{Result, ok, err, ok_injective, ok_ne_err, err_ne_ok}
use oikade.Prelude.Maps.{Map, get, insert, get-insert, get-insert_self, string_key, forall_insert}
use oikade.Matter.Endpoints.{
  first_dynamic_endpoint, last_endpoint, EndpointMappings, is_member, values, AllocateError,
  first_candidate, allocate,
}
use oikade.Matter.EndpointLaws.{
  IsValid, AllocateOutcome, had, took, none_left, allocate_cases, get-values,
}

-- No key has an endpoint that is not among the values.
fresh-ne :
    (j : String) (e : ℕ) (m : Map String ℕ) → is_member e (values m) ≡ false → get j m ≡ some e → ⊥
fresh-ne j e m free h = ground (arith, free, get-values j e m h)

insert-distinct :
    (k : String) (e : ℕ) (m : Map String ℕ)
    → is_member e (values m) ≡ false
    → ((i j : String) (x : ℕ) → get i m ≡ some x → get j m ≡ some x → i ≡ j)
    → (i j : String) (x : ℕ) → get i (insert k e m) ≡ some x
    → get j (insert k e m) ≡ some x
    → i ≡ j
insert-distinct k e m free old i j x p q = elim (Bool-cases (str_eq k i)) [
  | inl ki ↦ elim (Bool-cases (str_eq k j)) [
    | inl kj ↦ sym ((eq_iff k i).0 ki) ∙ (eq_iff k j).0 kj
    | inr nj ↦
        let same : e ≡ x = ground (arith, get-insert k i e m, ki, p) in
        let hit : get j m ≡ some x = ground (arith, get-insert k j e m, nj, q) in
        absurd (fresh-ne j e m free (hit ∙ ap some (sym same)))
  ]
  | inr ni ↦
      let hit_i : get i m ≡ some x = ground (arith, get-insert k i e m, ni, p) in
      elim (Bool-cases (str_eq k j)) [
        | inl kj ↦
            let same : e ≡ x = ground (arith, get-insert k j e m, kj, q) in
            absurd (fresh-ne i e m free (hit_i ∙ ap some (sym same)))
        | inr nj ↦ old i j x hit_i (ground (arith, get-insert k j e m, nj, q))
      ]
]

outcome-IsValid :
    (k : String) (m : EndpointMappings) (out : Result AllocateError ℕ × EndpointMappings)
    → IsValid m
    → AllocateOutcome k m out
    → IsValid out.1
outcome-IsValid k m out v (had e p) = v
outcome-IsValid k m out v (none_left x p full) = v
outcome-IsValid k m out v (took e new low high free) = record {
  range =
      forall_insert (λ j x. (first_dynamic_endpoint ≤ x) × (x ≤ last_endpoint)) k e m.mappings
        (ground (arith, low), omega (arith, high)) v.range;
  distinct = insert-distinct k e m.mappings free v.distinct;
  next_range = omega (arith, high);
}

-- Allocating an endpoint for a key keeps the mappings valid: every endpoint lies between the first
-- dynamic one and the largest `u16`, no two keys share an endpoint, and the next one is a `u16`.
pub allocate-IsValid : (k : String) (m : EndpointMappings) → IsValid m → IsValid (allocate k m).1
allocate-IsValid k m v = outcome-IsValid k m (allocate k m) v (allocate_cases k m v.next_range)

outcome-stable :
    (k : String) (m : EndpointMappings) (e : ℕ) (out : Result AllocateError ℕ × EndpointMappings)
    → out.0 ≡ ok e
    → AllocateOutcome k m out
    → (get k out.1.mappings ≡ some e)
      × ((j : String) (x : ℕ) → get j m.mappings ≡ some x → get j out.1.mappings ≡ some x)
outcome-stable k m e out h (had x p) = (p ∙ ap some (ok_injective h), λ j y q. q)
outcome-stable k m e out h (none_left x p full) = absurd (err_ne_ok h)
outcome-stable k m e out h (took x new low high free) = (
  get-insert_self k x m.mappings ∙ ap some (ok_injective h),
  λ j y q. ground (arith, get-insert k j x m.mappings, eq_iff k j, new, q),
)

allocate-had :
    (k : String) (m : EndpointMappings) (e : ℕ)
    → get k m.mappings ≡ some e
    → allocate k m ≡ (ok e, m)
unfolding allocate
allocate-had k m e h = rw h

-- In valid mappings, an endpoint that was allocated stays: a second allocation for the key returns the same endpoint
-- and changes nothing, and the endpoints of the other keys are what they were.
pub allocate-allocate :
    (k : String) (m : EndpointMappings) (e : ℕ)
    → IsValid m
    → (allocate k m).0 ≡ ok e
    → (allocate k (allocate k m).1 ≡ (ok e, (allocate k m).1))
      × ((j : String) (x : ℕ)
          → get j m.mappings ≡ some x
          → get j (allocate k m).1.mappings ≡ some x)
allocate-allocate k m e v h =
    let (mine, others) = outcome-stable k m e (allocate k m) h (allocate_cases k m v.next_range) in
    (allocate-had k (allocate k m).1 e mine, others)

outcome-err :
    (k : String) (m : EndpointMappings) (x : AllocateError)
    (out : Result AllocateError ℕ × EndpointMappings)
    → out.0 ≡ err x
    → AllocateOutcome k m out
    → (out.1 ≡ m)
      × ((e : ℕ)
          → first_candidate m ≤ e
          → e < last_endpoint
          → is_member e (values m.mappings) ≡ true)
outcome-err k m x out h (had e p) = absurd (ok_ne_err h)
outcome-err k m x out h (took e new low high free) = absurd (ok_ne_err h)
outcome-err k m x out h (none_left y p full) = (refl, full)

-- If an allocation in valid mappings fails, nothing has changed, and every endpoint from the next one up to 65534 is
-- in use.
pub allocate-err :
    (k : String) (m : EndpointMappings) (x : AllocateError)
    → IsValid m
    → (allocate k m).0 ≡ err x
    → ((allocate k m).1 ≡ m)
      × ((e : ℕ)
          → first_candidate m ≤ e
          → e < last_endpoint
          → is_member e (values m.mappings) ≡ true)
allocate-err k m x v h = outcome-err k m x (allocate k m) h (allocate_cases k m v.next_range)

-- What was allocated is found, and nothing that was there is lost.
pub allocate-found :
    (k : String) (m : EndpointMappings) (e : ℕ)
    → IsValid m
    → (allocate k m).0 ≡ ok e
    → (get k (allocate k m).1.mappings ≡ some e)
      × ((j : String) (x : ℕ)
          → get j m.mappings ≡ some x
          → get j (allocate k m).1.mappings ≡ some x)
allocate-found k m e v h = outcome-stable k m e (allocate k m) h (allocate_cases k m v.next_range)
