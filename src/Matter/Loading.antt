-- ===== src/Matter/Loading.antt =====
-- `EndpointMappings::load`: whatever the file holds, the mappings are valid.
use text.Mathlib.Text.{◌==◌ as str_eq}
use oikade.Prelude.{
  ℕ, ◌≤◌, ◌≡◌, sym, ap, subst, ◌∙◌, String, false, not, ◌&&◌, Option, none, some, List, [], ◌∷◌,
  leb, ◌==◌, if_rule, arith, Bool-cases, inl, inr, All, eq_iff,
}
use oikade.Prelude.Maps.{Map, get, string_key, get-empty-some}
use oikade.Matter.Endpoints.{
  first_dynamic_endpoint, last_endpoint, EndpointMappings, default_mappings, is_member, values,
  retain, load_mappings,
}
use oikade.Matter.EndpointLaws.{IsValid}

retain-fresh :
    (seen : List ℕ) (m : Map String ℕ) (k : String) (e : ℕ)
    → get k (retain seen m) ≡ some e
    → (first_dynamic_endpoint ≤ e) × (is_member e seen ≡ false)
unfolding retain get
retain-fresh seen [] k e h = absurd (ground (arith, h))
retain-fresh seen ((j, x) ∷ m) k e h =
    elim (Bool-cases (leb first_dynamic_endpoint x && not (is_member x seen))) [
      | inl kept ↦ elim (Bool-cases (str_eq j k)) [
        | inl mine ↦
            let same : x ≡ e = ground (arith, kept, mine, h) in
            (
              ground (arith, kept, same),
              subst (λ y. is_member y seen ≡ false) same (ground (arith, kept)),
            )
        | inr other ↦
            let (low, fresh) = retain-fresh (x ∷ seen) m k e (ground (arith, kept, other, h)) in
            (low, ground (arith, fresh))
      ]
      | inr dropped ↦ retain-fresh seen m k e (ground (arith, dropped, h))
    ]

retain-bound :
    (seen : List ℕ) (m : Map String ℕ) (k : String) (e : ℕ)
    → All (λ (x : ℕ). x ≤ last_endpoint) (values m)
    → get k (retain seen m) ≡ some e
    → e ≤ last_endpoint
unfolding retain get
retain-bound seen [] k e a h = absurd (ground (arith, h))
retain-bound seen ((j, x) ∷ m) k e a h =
    elim (Bool-cases (leb first_dynamic_endpoint x && not (is_member x seen))) [
      | inl kept ↦ elim (Bool-cases (str_eq j k)) [
        | inl mine ↦ let same : x ≡ e = ground (arith, kept, mine, h) in omega (arith, a.0, same)
        | inr other ↦ retain-bound (x ∷ seen) m k e a.1 (ground (arith, kept, other, h))
      ]
      | inr dropped ↦ retain-bound seen m k e a.1 (ground (arith, dropped, h))
    ]

seen-gone :
    (x : ℕ) (seen : List ℕ) (m : Map String ℕ) (k : String)
    → get k (retain (x ∷ seen) m) ≡ some x
    → ⊥
unfolding is_member
seen-gone x seen m k h = ground (arith, (retain-fresh (x ∷ seen) m k x h).1)

retain-distinct :
    (seen : List ℕ) (m : Map String ℕ) (j k : String) (e : ℕ)
    → get j (retain seen m) ≡ some e
    → get k (retain seen m) ≡ some e
    → j ≡ k
unfolding retain get
retain-distinct seen [] j k e p q = absurd (ground (arith, p))
retain-distinct seen ((i, x) ∷ m) j k e p q =
    elim (Bool-cases (leb first_dynamic_endpoint x && not (is_member x seen))) [
      | inr dropped ↦
          retain-distinct seen m j k e (ground (arith, dropped, p)) (ground (arith, dropped, q))
      | inl kept ↦ elim (Bool-cases (str_eq i j)) [
        | inl ij ↦
            let same : x ≡ e = ground (arith, kept, ij, p) in
            elim (Bool-cases (str_eq i k)) [
              | inl ik ↦ sym ((eq_iff i j).0 ij) ∙ (eq_iff i k).0 ik
              | inr nk ↦
                  absurd (seen-gone x seen m k (ground (arith, kept, nk, q) ∙ ap some (sym same)))
            ]
        | inr nj ↦
            let hit : get j (retain (x ∷ seen) m) ≡ some e = ground (arith, kept, nj, p) in
            elim (Bool-cases (str_eq i k)) [
              | inl ik ↦
                  let same : x ≡ e = ground (arith, kept, ik, q) in
                  absurd (seen-gone x seen m j (hit ∙ ap some (sym same)))
              | inr nk ↦ retain-distinct (x ∷ seen) m j k e hit (ground (arith, kept, nk, q))
            ]
      ]
    ]

-- The numbers of the file are `u16`.
abbrev pub Fits : Option EndpointMappings → Type 0
Fits none = Unit
Fits (some m) =
    All (λ (x : ℕ). x ≤ last_endpoint) (values m.mappings) × (m.next_endpoint ≤ last_endpoint)

default-IsValid : IsValid default_mappings
default-IsValid = record {
  range = λ k e h. absurd (get-empty-some k e h);
  distinct = λ j k e p q. absurd (get-empty-some j e p);
  next_range = omega arith;
}

-- Whatever the file holds, as long as its numbers are `u16`, the mappings that are loaded are valid.
pub load_mappings-IsValid :
    (file : Option EndpointMappings) → Fits file → IsValid (load_mappings file)
unfolding load_mappings
load_mappings-IsValid none fits = default-IsValid
load_mappings-IsValid (some m) fits =
    if_rule IsValid (m.version == 1)
      (λ _. record {
        range = λ k e h.
            ((retain-fresh [] m.mappings k e h).0, retain-bound [] m.mappings k e fits.0 h);
        distinct = retain-distinct [] m.mappings;
        next_range = omega (arith, fits.1);
      })
      (λ _. default-IsValid)
