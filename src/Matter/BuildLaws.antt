-- ===== src/Matter/BuildLaws.antt =====
-- What a sync builds: its endpoints, and the mappings that are kept.
use text.Mathlib.Text.{◌==◌ as str_eq}
use oikade.Prelude.{
  ℕ, ◌≤◌, ◌≡◌, ◌∙◌, ap, refl, subst, String, Bool, true, false, ◌||◌, Option, none, some, List, [],
  ◌∷◌, ◌++◌, All, length, ltb, if◌then◌else◌, arith,
}
use oikade.Prelude.Result.{Result, ok, err, bind-ok, guard-ok, ok_injective, err_ne_ok}
use oikade.Prelude.Maps.{Map, get, string_key}
use oikade.Adapter.Wire.{ApiCapability, ApiDevice, ApiValue, ApiDeviceState}
use oikade.Matter.Endpoints.{EndpointMappings, exhausted, allocate}
use oikade.Matter.EndpointLaws.{IsValid}
use oikade.Matter.Allocation.{allocate-IsValid, allocate-found}
use oikade.Matter.Shapes.{Shape, light_on, light_level}
use oikade.Matter.Naming.{mapping_key}
use oikade.Matter.Classify.{classify, of_type}
use oikade.Matter.Build.{
  Projection, Building, SyncError, projection, add_allocated, add_shape, add_verdict,
  add_capabilities, add_device, add_devices, build, build_all, built, new_building, BuiltProjection,
  is_empty, max_dynamic_endpoints, save_mappings,
}

abbrev pub key_of : Projection → String
key_of p = mapping_key p.device_id p.primary_capability_id

-- The endpoint of each projection is the one that the mappings have for its capability.
abbrev pub Mapped : EndpointMappings → List Projection → Type 0
Mapped m = All (λ (p : Projection). get (key_of p) m.mappings ≡ some p.endpoint)

-- No endpoint is lost.
abbrev pub Keeps : EndpointMappings → EndpointMappings → Type 0
Keeps m m' = (k : String) (e : ℕ) → get k m.mappings ≡ some e → get k m'.mappings ≡ some e

pub record IsAssigned (m m' : EndpointMappings) (result : List Projection) : Type 0 where
  pub valid : IsValid m'
  pub kept : Keeps m m'
  pub mapped : Mapped m' result

kept-Mapped :
    (m m' : EndpointMappings) (ps : List Projection) → Keeps m m' → Mapped m ps → Mapped m' ps
kept-Mapped m m' [] k a = tt
kept-Mapped m m' (p ∷ ps) k a = (k (key_of p) p.endpoint a.0, kept-Mapped m m' ps k a.1)

snoc-Mapped :
    (m : EndpointMappings) (ps : List Projection) (p : Projection)
    → Mapped m ps
    → get (key_of p) m.mappings ≡ some p.endpoint
    → Mapped m (ps ++ p ∷ [])
snoc-Mapped m [] p a h = (h, tt)
snoc-Mapped m (q ∷ ps) p a h = (a.0, snoc-Mapped m ps p a.1 h)

module _ (m : EndpointMappings) where
  abbrev Assigned : Building → Type 0
  Assigned b = IsAssigned m b.mappings b.result

  add_allocated-Assigned :
      (device : ApiDevice) (id : String) (shape : Shape) (b c : Building)
      (out : Result _ ℕ × EndpointMappings)
      → Assigned b
      → IsValid out.1
      → ((e : ℕ)
          → out.0 ≡ ok e
          → (get (mapping_key device.id id) out.1.mappings ≡ some e) × Keeps b.mappings out.1)
      → add_allocated device id shape out b ≡ ok c
      → Assigned c
  add_allocated-Assigned device id shape b c (err exhausted, m') a valid found h =
      absurd (err_ne_ok h)
  add_allocated-Assigned device id shape b c (ok e, m') a valid found h =
      let (mine, others) = found e refl in
      subst Assigned (ok_injective h) (record {
        valid = valid;
        kept = λ k x p. others k x (a.kept k x p);
        mapped =
            snoc-Mapped m' b.result (projection device id shape e)
              (kept-Mapped b.mappings m' b.result others a.mapped) mine;
      })

  add_shape-Assigned :
      (device : ApiDevice) (id : String) (shape : Option Shape) (b c : Building)
      → Assigned b
      → add_shape device id shape b ≡ ok c
      → Assigned c
  add_shape-Assigned device id none b c a h = subst Assigned (ok_injective h) a
  add_shape-Assigned device id (some shape) b c a h =
      let key = mapping_key device.id id in
      add_allocated-Assigned device id shape b c (allocate key b.mappings) a
        (allocate-IsValid key b.mappings a.valid) (λ e x. allocate-found key b.mappings e a.valid x)
        h

  add_capabilities-Assigned :
      (device : ApiDevice) (values : Map String ApiValue) (cs : List ApiCapability) (b c : Building)
      → Assigned b
      → add_capabilities device values cs b ≡ ok c
      → Assigned c
  unfolding add_capabilities
  add_capabilities-Assigned device values [] b c a h = subst Assigned (ok_injective h) a
  add_capabilities-Assigned device values (x ∷ cs) b c a h =
      let verdict =
        classify device.id values (of_type light_on device.capabilities)
          (of_type light_level device.capabilities) x in
      let (d, added, more) = bind-ok (add_verdict device x.id verdict b) _ _ h in
      add_capabilities-Assigned device values cs d c
        (add_shape-Assigned device x.id verdict.1
          (record b { diagnostics = b.diagnostics ++ verdict.0 }) d a added)
        more

  if-Assigned :
      (t : Bool) (x y : Result SyncError Building) (c : Building)
      → (if t then x else y) ≡ ok c
      → (x ≡ ok c → Assigned c)
      → (y ≡ ok c → Assigned c)
      → Assigned c
  if-Assigned true x y c h p q = p h
  if-Assigned false x y c h p q = q h

  add_device-Assigned :
      (state : ApiDeviceState) (b c : Building)
      → Assigned b
      → add_device state b ≡ ok c
      → Assigned c
  unfolding add_device
  add_device-Assigned state b c a h =
      if-Assigned (str_eq state.device.id "" || str_eq state.device.name "") _ _ c h
        (λ x. subst Assigned (ok_injective x) a)
        (λ x.
          if-Assigned (is_empty state.device.capabilities) _ _ c x
            (λ y. subst Assigned (ok_injective y) a)
            (λ y. add_capabilities-Assigned state.device _ state.device.capabilities b c a y))

  add_devices-Assigned :
      (states : List ApiDeviceState) (b c : Building)
      → Assigned b
      → add_devices states b ≡ ok c
      → Assigned c
  unfolding add_devices
  add_devices-Assigned [] b c a h = subst Assigned (ok_injective h) a
  add_devices-Assigned (state ∷ states) b c a h =
      let (d, added, more) = bind-ok (add_device state b) _ _ h in
      add_devices-Assigned states d c (add_device-Assigned state b d a added) more

-- Two projections with one endpoint are of one capability, by the key of the mappings.
abbrev pub Separate : List Projection → Type 0
Separate ps =
    All
      (λ (p : Projection).
        All (λ (q : Projection). p.endpoint ≡ q.endpoint → key_of p ≡ key_of q) ps)
      ps

All-map :
    {A : Type 0} (P Q : A → Type 0) (f : (a : A) → P a → Q a) (xs : List A) → All P xs → All Q xs
All-map P Q f [] a = tt
All-map P Q f (x ∷ xs) a = (f x a.0, All-map P Q f xs a.1)

Mapped-Separate :
    (m : EndpointMappings) (ps : List Projection) → IsValid m → Mapped m ps → Separate ps
Mapped-Separate m ps v a =
    All-map (λ (p : Projection). get (key_of p) m.mappings ≡ some p.endpoint)
      (λ (p : Projection).
        All (λ (q : Projection). p.endpoint ≡ q.endpoint → key_of p ≡ key_of q) ps)
      (λ (p : Projection) here.
        All-map (λ (q : Projection). get (key_of q) m.mappings ≡ some q.endpoint)
          (λ (q : Projection). p.endpoint ≡ q.endpoint → key_of p ≡ key_of q)
          (λ (q : Projection) there same.
            v.distinct (key_of p) (key_of q) q.endpoint (here ∙ ap some same) there)
          ps a)
      ps a

-- The outcome of a sync: with an error the mappings are the old ones; otherwise there are no more
-- projections than there are endpoints, and their endpoints are assigned and separate.
abbrev pub Outcome : EndpointMappings → Result SyncError BuiltProjection × EndpointMappings → Type 0
Outcome m (err e, m') = m' ≡ m
Outcome m (ok r, m') = (length r.0 ≤ max_dynamic_endpoints) × IsAssigned m m' r.0 × Separate r.0

module _ (save : EndpointMappings → Result String (Unit {0})) where
  built-Outcome :
      (m : EndpointMappings) (devices : List ApiDeviceState) (x : Result SyncError Building)
      → IsValid m
      → build_all save m devices ≡ x
      → Outcome m (built save m x)
  unfolding build_all
  built-Outcome m devices (err e) v h = refl
  built-Outcome m devices (ok b) v h =
      let (c, added, h1) = bind-ok (add_devices devices (new_building m)) _ _ h in
      let (few, h2) = guard-ok (ltb max_dynamic_endpoints (length c.result)) _ _ _ h1 in
      let (_, _, h3) = bind-ok (save_mappings save (save c.mappings)) _ _ h2 in
      let start : IsAssigned m m [] = record { valid = v; kept = λ k e x. x; mapped = tt } in
      let a = add_devices-Assigned m devices (new_building m) c start added in
      subst (λ (d : Building). Outcome m (ok (d.result, d.refs, d.diagnostics), d.mappings))
        (ok_injective h3)
        (ground (arith, few), a, Mapped-Separate c.mappings c.result a.valid a.mapped)

  -- From valid mappings, a sync that fails, for whatever reason, leaves the mappings; one that succeeds
  -- builds at most 16 projections, each under the endpoint that the new mappings have for its key (the
  -- identifiers of its device and capability, joined by a slash), so that projections of different keys
  -- have different endpoints; and the new mappings are valid and keep every endpoint there was.
  pub build-Outcome :
      (m : EndpointMappings) (devices : List ApiDeviceState)
      → IsValid m
      → Outcome m (build save m devices)
  unfolding build
  build-Outcome m devices v = built-Outcome m devices (build_all save m devices) v refl
