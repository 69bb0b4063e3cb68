-- ===== src/Matter/ClassifyLaws.antt =====
-- Which capabilities are projected into Matter.
use text.Mathlib.Text.{◌==◌ as str_eq}
use oikade.Prelude.{
  ◌≡◌, refl, sym, ap, subst, ◌∙◌, String, Bool, true, false, not, ◌⊎◌, Option, none, some, List, [],
  ◌∷◌, if_rule, arith, inl, inr, Bool-cases,
}
use oikade.Prelude.Maps.{Map, get, string_key}
use oikade.Prelude.Float.{F64}
use oikade.Adapter.Wire.{ApiPermissions, ApiCapability, ApiValue}
use oikade.Matter.Shapes.{Profile, Shape, Verdict, light_level, wire_bool}
use oikade.Matter.Classify.{
  classify, expected_kind, permitted, level_verdict, kind_verdict, found_verdict, value_verdict,
  switched, measuring, contact_verdict, occupancy_verdict, light_verdict, lit, composed, with_level,
  can_actuate, can_observe,
}

-- A row of the table of what has a mapping in Matter.
pub record Mapping : Type 0 where
  pub capability_type : String
  pub kind : String
  pub writable : Bool
  pub profile : Profile

abbrev pub mapping : String → String → Bool → Profile → Mapping
mapping t kind writable profile = record {
  capability_type = t;
  kind = kind;
  writable = writable;
  profile = profile;
}

abbrev pub IsMapping : Mapping → Type 0
IsMapping m =
    (m ≡ mapping "oikade.switch.on" "bool" true Profile.on_off_light)
    ⊎ (m ≡ mapping "oikade.light.on" "bool" true Profile.on_off_light)
    ⊎ (m ≡ mapping "oikade.outlet.on" "bool" true Profile.outlet)
    ⊎ (m ≡ mapping "oikade.sensor.temperature" "number" false Profile.temperature)
    ⊎ (m ≡ mapping "oikade.sensor.relative-humidity" "number" false Profile.humidity)
    ⊎ (m ≡ mapping "oikade.sensor.contact-open" "bool" false Profile.contact)
    ⊎ (m ≡ mapping "oikade.sensor.occupancy-detected" "bool" false Profile.occupancy)

-- A light may be dimmable.
abbrev pub Shows : Mapping → Shape → Type 0
Shows m s =
    (s.profile ≡ m.profile)
    ⊎ ((m.capability_type ≡ "oikade.light.on") × (s.profile ≡ Profile.dimmable_light))

-- A capability that may be projected, as this shape.
pub record IsProjectable (values : Map String ApiValue) (c : ApiCapability) (s : Shape)
    : Type 0 where
  pub row : Mapping
  pub mapped : IsMapping row
  pub same_type : c.capability_type ≡ row.capability_type
  pub same_kind : c.kind ≡ row.kind
  pub readable : c.permissions.read ≡ true
  pub observable : c.permissions.observe ≡ true
  pub writable : c.permissions.write ≡ row.writable
  pub value : ApiValue
  pub found : get c.id values ≡ some value
  pub shown : Shows row s

-- The permissions of an actuator or of a sensor.
abbrev Allows : Bool → ApiPermissions → Type 0
Allows writable p = (p.read ≡ true) × (p.observe ≡ true) × (p.write ≡ writable)

actuates : (p : ApiPermissions) → can_actuate p ≡ true → Allows true p
actuates p h = (ground (arith, h), ground (arith, h), ground (arith, h))

observes : (p : ApiPermissions) → can_observe p ≡ true → Allows false p
observes p h = (ground (arith, h), ground (arith, h), ground (arith, h))

some-shape : {s t : Shape} → ◌≡◌ {A = Option Shape} (some s) (some t) → t.profile ≡ s.profile
some-shape {s} {t} h = ap profile_or (sym h)
  where
    profile_or : Option Shape → Profile
    profile_or none = s.profile
    profile_or (some x) = x.profile

none-shape : {s : Shape} → ◌≡◌ {A = Option Shape} none (some s) → ⊥
none-shape h = cc

not-false : (b : Bool) → not b ≡ false → b ≡ true
not-false b h = ground arith

module _ (dev : String) (values : Map String ApiValue) (lights levels : List ApiCapability) where
  level_verdict-none :
      (ls : List ApiCapability) (id : String)
      → (level_verdict dev values lights levels ls id).1 ≡ none
  level_verdict-none [] id = refl
  level_verdict-none (l ∷ []) id = refl
  level_verdict-none (l ∷ k ∷ ls) id = refl

  switched-profile :
      (p : Profile) (o : Option Bool) (id : String) (s : Shape)
      → (switched dev values lights levels p o id).1 ≡ some s
      → s.profile ≡ p
  switched-profile p none id s h = absurd (none-shape h)
  switched-profile p (some v) id s h = some-shape h

  measuring-profile :
      (p : Profile) (o : Option F64) (code message id : String) (s : Shape)
      → (measuring dev values lights levels p o code message id).1 ≡ some s
      → s.profile ≡ p
  measuring-profile p none code message id s h = absurd (none-shape h)
  measuring-profile p (some v) code message id s h = some-shape h

  contact-profile :
      (o : Option Bool) (id : String) (s : Shape)
      → (contact_verdict dev values lights levels o id).1 ≡ some s
      → s.profile ≡ Profile.contact
  contact-profile none id s h = absurd (none-shape h)
  contact-profile (some v) id s h = some-shape h

  occupancy-profile :
      (o : Option Bool) (id : String) (s : Shape)
      → (occupancy_verdict dev values lights levels o id).1 ≡ some s
      → s.profile ≡ Profile.occupancy
  occupancy-profile none id s h = absurd (none-shape h)
  occupancy-profile (some v) id s h = some-shape h

  abbrev IsLight : Shape → Type 0
  IsLight s = (s.profile ≡ Profile.on_off_light) ⊎ (s.profile ≡ Profile.dimmable_light)

  with_level-IsLight :
      (on : Bool) (o : Option F64) (id : String) (s : Shape)
      → (with_level dev values lights levels on o id).1 ≡ some s
      → IsLight s
  with_level-IsLight on none id s h = inl (some-shape h)
  with_level-IsLight on (some level) id s h = inr (some-shape h)

  composed-IsLight :
      (on : Bool) (level : ApiCapability) (s : Shape)
      → (composed dev values lights levels on level).1 ≡ some s
      → IsLight s
  composed-IsLight on level s h =
      if_rule (λ (v : Verdict). v.1 ≡ some s → IsLight s) (not (str_eq level.kind "number"))
        (λ e x. inl (some-shape x))
        (λ e.
          if_rule (λ (v : Verdict). v.1 ≡ some s → IsLight s) (not (can_actuate level.permissions))
            (λ d x. inl (some-shape x)) (λ d x. with_level-IsLight on _ level.id s x))
        h

  lit-IsLight :
      (on : Bool) (ls : List ApiCapability) (id : String) (s : Shape)
      → (lit dev values lights levels on ls id).1 ≡ some s
      → IsLight s
  lit-IsLight on [] id s h = inl (some-shape h)
  lit-IsLight on (level ∷ []) id s h = composed-IsLight on level s h
  lit-IsLight on (level ∷ other ∷ more) id s h = inl (some-shape h)

  light_verdict-IsLight :
      (o : Option Bool) (id : String) (s : Shape)
      → (light_verdict dev values lights levels o id).1 ≡ some s
      → IsLight s
  light_verdict-IsLight none id s h = absurd (none-shape h)
  light_verdict-IsLight (some on) id s h = lit-IsLight on levels id s h

  found_verdict-shown :
      (m : Mapping) (o : Option ApiValue) (c : ApiCapability) (s : Shape)
      → c.capability_type ≡ m.capability_type
      → ((v : ApiValue)
          → (value_verdict dev values lights levels m.capability_type v c.id).1 ≡ some s
          → Shows m s)
      → (found_verdict dev values lights levels o c).1 ≡ some s
      → (v : ApiValue) × (o ≡ some v) × Shows m s
  found_verdict-shown m none c s t shows h = absurd (none-shape h)
  found_verdict-shown m (some v) c s t shows h = (
    v,
    refl,
    shows v (subst (λ x. (value_verdict dev values lights levels x v c.id).1 ≡ some s) t h),
  )

  -- A capability of a type with a row.
  row-IsProjectable :
      (m : Mapping) (c : ApiCapability) (s : Shape)
      → IsMapping m
      → c.capability_type ≡ m.capability_type
      → expected_kind m.capability_type ≡ some m.kind
      → ((p : ApiPermissions) → permitted m.capability_type p ≡ true → Allows m.writable p)
      → ((v : ApiValue)
          → (value_verdict dev values lights levels m.capability_type v c.id).1 ≡ some s
          → Shows m s)
      → (kind_verdict dev values lights levels (expected_kind c.capability_type) c).1 ≡ some s
      → IsProjectable values c s
  row-IsProjectable m c s mapped t kind allows shows h =
      if_rule (λ (v : Verdict). v.1 ≡ some s → IsProjectable values c s)
        (not (str_eq c.kind m.kind)) (λ e x. absurd (none-shape x))
        (λ e.
          if_rule (λ (v : Verdict). v.1 ≡ some s → IsProjectable values c s)
            (not (permitted c.capability_type c.permissions)) (λ d x. absurd (none-shape x))
            (λ d x.
              let (value, found, shown) = found_verdict-shown m (get c.id values) c s t shows x in
              let (readable, observable, writable) = allows c.permissions (
                subst (λ y. permitted y c.permissions ≡ true) t
                  (not-false (permitted c.capability_type c.permissions) d)) in
              record {
                row = m;
                mapped = mapped;
                same_type = t;
                same_kind =
                    (string_key.eqb_iff c.kind m.kind).0 (not-false (str_eq c.kind m.kind) e);
                readable = readable;
                observable = observable;
                writable = writable;
                value = value;
                found = found;
                shown = shown;
              }))
        (subst (λ k. (kind_verdict dev values lights levels k c).1 ≡ some s)
          (ap expected_kind t ∙ kind) h)

  abbrev as_light :
      (s : Shape) → IsLight s → Shows (mapping "oikade.light.on" "bool" true Profile.on_off_light) s
  as_light s (inl x) = inl x
  as_light s (inr x) = inr (refl, x)

  row-or-rest :
      (m : Mapping) (c : ApiCapability) (s : Shape)
      → IsMapping m
      → expected_kind m.capability_type ≡ some m.kind
      → ((p : ApiPermissions) → permitted m.capability_type p ≡ true → Allows m.writable p)
      → ((v : ApiValue)
          → (value_verdict dev values lights levels m.capability_type v c.id).1 ≡ some s
          → Shows m s)
      → (kind_verdict dev values lights levels (expected_kind c.capability_type) c).1 ≡ some s
      → (str_eq c.capability_type m.capability_type ≡ false → IsProjectable values c s)
      → IsProjectable values c s
  row-or-rest m c s mapped kind allows shows h rest =
      elim (Bool-cases (str_eq c.capability_type m.capability_type)) [
        | inl e ↦
            row-IsProjectable m c s mapped
              ((string_key.eqb_iff c.capability_type m.capability_type).0 e) kind allows shows h
        | inr e ↦ rest e
      ]

  unmapped :
      (t : String)
      → str_eq t "oikade.switch.on" ≡ false
      → str_eq t "oikade.light.on" ≡ false
      → str_eq t "oikade.outlet.on" ≡ false
      → str_eq t "oikade.sensor.temperature" ≡ false
      → str_eq t "oikade.sensor.relative-humidity" ≡ false
      → str_eq t "oikade.sensor.contact-open" ≡ false
      → str_eq t "oikade.sensor.occupancy-detected" ≡ false
      → expected_kind t ≡ none
  unmapped t e1 e2 e3 e4 e5 e6 e7 = rw (e1, e2, e3, e4, e5, e6, e7) refl

  kind_verdict-IsProjectable :
      (c : ApiCapability) (s : Shape)
      → (kind_verdict dev values lights levels (expected_kind c.capability_type) c).1 ≡ some s
      → IsProjectable values c s
  unfolding value_verdict
  kind_verdict-IsProjectable c s h =
      (row-or-rest (mapping "oikade.switch.on" "bool" true Profile.on_off_light) c s (inl refl) refl
        actuates (λ v x. inl (switched-profile _ (wire_bool v) c.id s x)) h
        (λ e1.
          (row-or-rest (mapping "oikade.light.on" "bool" true Profile.on_off_light) c s
            (inr (inl refl)) refl actuates
            (λ v x. as_light s (light_verdict-IsLight (wire_bool v) c.id s x)) h
            (λ e2.
              (row-or-rest (mapping "oikade.outlet.on" "bool" true Profile.outlet) c s
                (inr (inr (inl refl))) refl actuates
                (λ v x. inl (switched-profile _ (wire_bool v) c.id s x)) h
                (λ e3.
                  (row-or-rest
                    (mapping "oikade.sensor.temperature" "number" false Profile.temperature) c s
                    (inr (inr (inr (inl refl)))) refl observes
                    (λ v x. inl (measuring-profile _ _ _ _ c.id s x)) h
                    (λ e4.
                      (row-or-rest
                        (mapping "oikade.sensor.relative-humidity" "number" false Profile.humidity)
                        c s (inr (inr (inr (inr (inl refl))))) refl observes
                        (λ v x. inl (measuring-profile _ _ _ _ c.id s x)) h
                        (λ e5.
                          (row-or-rest
                            (mapping "oikade.sensor.contact-open" "bool" false Profile.contact) c s
                            (inr (inr (inr (inr (inr (inl refl)))))) refl observes
                            (λ v x. inl (contact-profile (wire_bool v) c.id s x)) h
                            (λ e6.
                              (row-or-rest
                                (mapping "oikade.sensor.occupancy-detected" "bool" false
                                  Profile.occupancy)
                                c s (inr (inr (inr (inr (inr (inr (refl))))))) refl observes
                                (λ v x. inl (occupancy-profile (wire_bool v) c.id s x)) h
                                (λ e7. absurd (
                                  none-shape (
                                    subst
                                      (λ k. (kind_verdict dev values lights levels k c).1 ≡ some s)
                                      (unmapped c.capability_type e1 e2 e3 e4 e5 e6 e7)
                                      h))))))))))))))))

  -- A capability is only projected if its type is one of the seven that have a mapping, its kind is the
  -- one of the type, it can be read and observed, it can be written if it is a switch, a light or an
  -- outlet and cannot if it is a sensor, and the device has a value for it. The profile is that of the
  -- type, or that of a dimmable light for a light.
  pub classify-IsProjectable :
      (c : ApiCapability) (s : Shape)
      → (classify dev values lights levels c).1 ≡ some s
      → IsProjectable values c s
  unfolding classify
  classify-IsProjectable c s h =
      if_rule (λ (v : Verdict). v.1 ≡ some s → IsProjectable values c s)
        (str_eq c.capability_type light_level)
        (λ e x. absurd (none-shape (sym (level_verdict-none lights c.id) ∙ x)))
        (λ e x. kind_verdict-IsProjectable c s x) h
