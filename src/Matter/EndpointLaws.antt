-- ===== src/Matter/EndpointLaws.antt =====
-- The endpoints that are allocated: in range, distinct and stable.
use text.Mathlib.Text.{◌==◌ as str_eq}
use oikade.Prelude.{
  ℕ, zero, suc, ◌+◌, ◌-◌, ◌≤◌, ◌<◌, ◌≡◌, refl, sym, subst, String, true, false, none, some, List,
  [], ◌∷◌, ◌==◌, arith, Bool-cases, Option-cases, inl, inr, if_rule,
}
use oikade.Prelude.Result.{Result, ok, err}
use oikade.Prelude.Maps.{Map, get, insert, string_key}
use oikade.Matter.Endpoints.{
  first_dynamic_endpoint, last_endpoint, EndpointMappings, is_member, values, AllocateError,
  find_free, take_endpoint, first_candidate, take_found, allocate_new, allocate, exhausted,
}

-- Every endpoint is dynamic and a `u16`, no two keys share one, and the next one is a `u16`.
pub record IsValid (m : EndpointMappings) : Type 0 where
  pub range :
      (k : String) (e : ℕ)
      → get k m.mappings ≡ some e
      → (first_dynamic_endpoint ≤ e) × (e ≤ last_endpoint)
  pub distinct :
      (j k : String) (e : ℕ) → get j m.mappings ≡ some e → get k m.mappings ≡ some e → j ≡ k
  pub next_range : m.next_endpoint ≤ last_endpoint

find_free-ok :
    (n c : ℕ) (used : List ℕ) (e : ℕ)
    → find_free n c used ≡ ok e
    → (c ≤ e) × (e ≤ c + n) × (is_member e used ≡ false)
unfolding find_free
find_free-ok zero c used e h = elim (Bool-cases (is_member c used)) [
  | inl taken ↦ absurd (ground (arith, taken, h))
  | inr free ↦
      let same : c ≡ e = ground (arith, free, h) in
      (omega arith, omega arith, subst (λ x. is_member x used ≡ false) same free)
]
find_free-ok (suc n) c used e h = elim (Bool-cases (is_member c used)) [
  | inl taken ↦
      let (low, high, free) = find_free-ok n (c + 1) used e (ground (arith, taken, h)) in
      (omega arith, omega arith, free)
  | inr free ↦
      let same : c ≡ e = ground (arith, free, h) in
      (omega arith, omega arith, subst (λ x. is_member x used ≡ false) same free)
]

find_free-err :
    (n c : ℕ) (used : List ℕ) (x : AllocateError) (e : ℕ)
    → find_free n c used ≡ err x
    → c ≤ e
    → e ≤ c + n
    → is_member e used ≡ true
unfolding find_free
find_free-err zero c used x e h low high =
    let same : c ≡ e = omega arith in subst (λ y. is_member y used ≡ true) same (ground (arith, h))
find_free-err (suc n) c used x e h low high = elim (Bool-cases (c == e)) [
  | inl same ↦
      let same_nat : c ≡ e = ground (arith, same) in
      subst (λ y. is_member y used ≡ true) same_nat (ground (arith, h))
  | inr other ↦
      find_free-err n (c + 1) used x e (ground (arith, h)) (ground (arith, other)) (omega arith)
]

pub get-values :
    (k : String) (e : ℕ) (m : Map String ℕ) → get k m ≡ some e → is_member e (values m) ≡ true
unfolding get is_member
get-values k e [] h = absurd (ground (arith, h))
get-values k e ((j, x) ∷ m) h = elim (Bool-cases (str_eq j k)) [
  | inl same ↦ ground (arith, same, h)
  | inr other ↦ ground (arith, get-values k e m (ground (arith, other, h)))
]

-- What `allocate` does: the endpoint that the key has, a free one, or an error.
pub data AllocateOutcome (k : String) (m : EndpointMappings)
    : Result AllocateError ℕ × EndpointMappings → Type 0 where
  had : (e : ℕ) → get k m.mappings ≡ some e → AllocateOutcome k m (ok e, m)
  took :
      (e : ℕ)
      → get k m.mappings ≡ none
      → first_candidate m ≤ e
      → e < last_endpoint
      → is_member e (values m.mappings) ≡ false
      → AllocateOutcome k m
          (ok e, record m { next_endpoint = e + 1; mappings = insert k e m.mappings })
  none_left :
      (x : AllocateError)
      → get k m.mappings ≡ none
      → ((e : ℕ)
          → first_candidate m ≤ e
          → e < last_endpoint
          → is_member e (values m.mappings) ≡ true)
      → AllocateOutcome k m (err x, m)

take-outcome :
    (k : String) (m : EndpointMappings) (c : ℕ)
    → get k m.mappings ≡ none
    → first_candidate m ≤ c
    → c ≤ last_endpoint
    → is_member c (values m.mappings) ≡ false
    → ((e : ℕ) → first_candidate m ≤ e → e < c → is_member e (values m.mappings) ≡ true)
    → AllocateOutcome k m (take_endpoint k c m)
unfolding take_endpoint
take-outcome k m c new low high free below =
    if_rule (AllocateOutcome k m) (c == last_endpoint)
      (λ p.
        let same : c ≡ last_endpoint = ground (arith, p) in
        none_left exhausted new (λ e l h. below e l (omega (arith, same, h))))
      (λ p. took c new low (ground (arith, p, high)) free)

find_free-below :
    (n c : ℕ) (used : List ℕ) (e x : ℕ)
    → find_free n c used ≡ ok e
    → c ≤ x
    → x < e
    → is_member x used ≡ true
unfolding find_free
find_free-below zero c used e x h low high = absurd (ground (arith, h, low, high))
find_free-below (suc n) c used e x h low high = elim (Bool-cases (is_member c used)) [
  | inl taken ↦ elim (Bool-cases (c == x)) [
    | inl p ↦
        let same : c ≡ x = ground (arith, p) in subst (λ y. is_member y used ≡ true) same taken
    | inr p ↦ find_free-below n (c + 1) used e x (ground (arith, taken, h)) (ground (arith, p)) high
  ]
  | inr free ↦ let same : c ≡ e = ground (arith, free, h) in absurd (omega (arith, same, low, high))
]

new-outcome :
    (k : String) (m : EndpointMappings) (f : Result AllocateError ℕ)
    → get k m.mappings ≡ none
    → m.next_endpoint ≤ last_endpoint
    → find_free (last_endpoint - first_candidate m) (first_candidate m) (values m.mappings) ≡ f
    → AllocateOutcome k m (take_found k f m)
new-outcome k m (ok c) new next p =
    let (low, high, free) = find_free-ok _ (first_candidate m) (values m.mappings) c p in
    take-outcome k m c new low (omega (arith, high, next)) free
      (λ e l h. find_free-below _ (first_candidate m) (values m.mappings) c e p l h)
new-outcome k m (err x) new next p = none_left x new (λ e l h.
    find_free-err _ (first_candidate m) (values m.mappings) x e p l (omega (arith, h, next)))

pub allocate_cases :
    (k : String) (m : EndpointMappings)
    → m.next_endpoint ≤ last_endpoint
    → AllocateOutcome k m (allocate k m)
unfolding allocate
allocate_cases k m next = elim (Option-cases (get k m.mappings)) [
  | inl p ↦
      subst (λ o. AllocateOutcome k m (allocate_new k o m)) (sym p) (new-outcome k m _ p next refl)
  | inr (e, p) ↦ subst (λ o. AllocateOutcome k m (allocate_new k o m)) (sym p) (had e p)
]
