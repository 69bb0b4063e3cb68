-- ===== src/Adapter/Accepted.antt =====
-- The projections that an adapter reports and the host accepts.
use text.Mathlib.Text.{◌==◌ as str_eq}
use text.Mathlib.TextEquality.{eq_iff}
use oikade.Prelude.{
  ℕ, ◌+◌, ◌≡◌, refl, subst, String, Bool, true, false, not, ◌&&◌, ◌||◌, some, List, [], ◌∷◌, arith,
  Bool-cases, inl, inr,
}
use oikade.Prelude.Result.{ok, ok_or, guard-ok, bind-ok, ok_injective, ok_or-ok}
use oikade.Prelude.Maps.{get, insert, get-insert, string_key}
use oikade.Adapter.Wire.{ApiProjection}
use oikade.Adapter.Projection.{
  Keys, ProjectionKeys, has, holds, keys_or_default, accept, accepted_projection_keys,
  unknown_device, unknown_capability, duplicate_capability,
}

-- Whether a projection of the list names this capability.
abbrev pub listed : String → String → List ApiProjection → Bool
listed d c [] = false
listed d c (p ∷ ps) = (str_eq p.device_id d && str_eq p.capability_id c) || listed d c ps

has-insert : (k c : String) (keys : Keys) → has c (insert k tt keys) ≡ str_eq k c || has c keys
has-insert k c keys = ground (arith, get-insert k c tt keys)

holds-insert :
    (d c d' c' : String) (keys : ProjectionKeys)
    → holds d c (insert d' (insert c' tt (keys_or_default (get d' keys))) keys)
      ≡ (str_eq d' d && str_eq c' c) || holds d c keys
unfolding holds
holds-insert d c d' c' keys = elim (Bool-cases (str_eq d' d)) [
  | inl same ↦ rw (
    get-insert d' d (insert c' tt (keys_or_default (get d' keys))) keys,
    same,
    has-insert c' c (keys_or_default (get d' keys)),
    (eq_iff d' d).0 same,
  )
  | inr other ↦ rw (get-insert d' d (insert c' tt (keys_or_default (get d' keys))) keys, other)
]

accept-listed :
    (i : ℕ) (ps : List ApiProjection) (available accepted keys : ProjectionKeys) (d c : String)
    → accept i ps available accepted ≡ ok keys
    → holds d c keys ≡ listed d c ps || holds d c accepted
unfolding accept
accept-listed i [] available accepted keys d c h = rw (ok_injective h)
accept-listed i (p ∷ ps) available accepted keys d c h =
    let (capabilities, known, h1) =
      bind-ok (ok_or (get p.device_id available) (unknown_device i p.device_id)) _ keys h in
    let (known_capability, h2) =
      guard-ok (not (has p.capability_id capabilities))
        (unknown_capability i p.device_id p.capability_id) _ keys h1 in
    let (is_new, h3) =
      guard-ok (has p.capability_id (keys_or_default (get p.device_id accepted)))
        (duplicate_capability i p.device_id p.capability_id) _ keys h2 in
    ground (
      arith,
      accept-listed (i + 1) ps available
          (insert p.device_id
            (insert p.capability_id tt (keys_or_default (get p.device_id accepted))) accepted)
          keys d c h3,
      holds-insert d c p.device_id p.capability_id accepted,
    )

holds-available :
    (d c : String) (p : ApiProjection) (available : ProjectionKeys) (capabilities : Keys)
    → get p.device_id available ≡ some capabilities
    → not (has p.capability_id capabilities) ≡ false
    → (str_eq p.device_id d && str_eq p.capability_id c) ≡ true
    → holds d c available ≡ true
unfolding holds
holds-available d c p available capabilities e k same =
    let device : p.device_id ≡ d = (eq_iff p.device_id d).0 (ground (arith, same)) in
    let capability : p.capability_id ≡ c = (eq_iff p.capability_id c).0 (ground (arith, same)) in
    subst (λ x. has c (keys_or_default (get x available)) ≡ true) device
      (subst (λ x. has x (keys_or_default (get p.device_id available)) ≡ true) capability
        (ground (arith, e, k)))

accept-available :
    (i : ℕ) (ps : List ApiProjection) (available accepted keys : ProjectionKeys) (d c : String)
    → accept i ps available accepted ≡ ok keys
    → listed d c ps ≡ true
    → holds d c available ≡ true
unfolding accept holds
accept-available i [] available accepted keys d c h l = absurd (ground (arith, l))
accept-available i (p ∷ ps) available accepted keys d c h l =
    let (capabilities, known, h1) =
      bind-ok (ok_or (get p.device_id available) (unknown_device i p.device_id)) _ keys h in
    let (known_capability, h2) =
      guard-ok (not (has p.capability_id capabilities))
        (unknown_capability i p.device_id p.capability_id) _ keys h1 in
    let (is_new, h3) =
      guard-ok (has p.capability_id (keys_or_default (get p.device_id accepted)))
        (duplicate_capability i p.device_id p.capability_id) _ keys h2 in
    elim (Bool-cases (str_eq p.device_id d && str_eq p.capability_id c)) [
      | inl same ↦
          holds-available d c p available capabilities (ok_or-ok _ _ capabilities known)
            known_capability same
      | inr other ↦ accept-available (i + 1) ps available _ keys d c h3 (ground (arith, l, other))
    ]

-- Without duplicates: the capabilities that a list names more than once are refused.
holds-empty : (d c : String) → holds d c [] ≡ false
unfolding holds get
holds-empty d c = refl

-- If the host accepts the projections that an adapter reports, it accepts exactly those that the
-- list names, and each of them is available.
pub accepted_projection_keys-listed :
    (ps : List ApiProjection) (available keys : ProjectionKeys) (d c : String)
    → accepted_projection_keys (some ps) available ≡ ok keys
    → (holds d c keys ≡ listed d c ps) × (holds d c keys ≡ true → holds d c available ≡ true)
unfolding accepted_projection_keys
accepted_projection_keys-listed ps available keys d c h =
    let e = accept-listed 0 ps available [] keys d c h in
    (
      ground (arith, e, holds-empty d c),
      λ k. accept-available 0 ps available [] keys d c h (ground (arith, e, holds-empty d c, k)),
    )
