-- ===== src/Core/Runtime/Restoring.antt =====
-- The values that a registered device starts with.
use text.Mathlib.Text.{◌==◌ as str_eq}
use oikade.Prelude.{
  ◌≡◌, ◌≢◌, ◌⊎◌, refl, sym, ap, subst, ◌∙◌, arith, true, false, Option, none, some, List, [], ◌∷◌,
  All, eq_iff, inl, inr, if◌then◌else◌,
}
use oikade.Prelude.Result.{Result, ok, err, Result-cases, ok_injective, err_ne_ok}
use oikade.Prelude.Maps.{Map, get, string_key, get-insert, get-insert_self}
use oikade.Core.Model.{DeviceId, CapabilityId, Value, Capability, Device}
use oikade.Core.Model.DeviceLaws.{Unique, validate_device_iff}
use oikade.Core.Runtime.Types.{
  Host, RuntimeError, restore, external, CommandHandler, Runtime, RuntimeState,
}
use oikade.Core.Runtime.Lookup.{load_device}
use oikade.Core.Runtime.Ops.{
  Restored, choose, store_value, restore_capability, restore_all, begin, or_default, register, read,
  insert_device, new_registration,
}
use oikade.Core.Runtime.Restore.{checked-ok}
use oikade.Core.Runtime.Registering.{RegisterOutcome, registered, register_cases}
use oikade.Core.Runtime.ReadWrite.{read-ok}

abbrev pub IsIn : Capability → List Capability → Type 0
IsIn c [] = ⊥
IsIn c (x ∷ xs) = (x ≡ c) ⊎ IsIn c xs

-- The stored value of a capability, or else its initial value.
abbrev pub stored_or_initial : Capability → Option Value → Value
stored_or_initial c none = c.initial_value
stored_or_initial c (some v) = v

module _ (c : Capability) (s : Restored) (k : CapabilityId) where
  abbrev chosen : Option Value → Restored
  chosen o = store_value c (choose c s o)

  chosen-current :
      (o : Option Value)
      → get k (chosen o).current
        ≡ (if str_eq c.id k then some (stored_or_initial c o) else get k s.current)
  chosen-current none = get-insert c.id k c.initial_value s.current
  chosen-current (some v) = get-insert c.id k v s.current

  chosen-capabilities :
      (o : Option Value)
      → get k (chosen o).capabilities ≡ (if str_eq c.id k then some c else get k s.capabilities)
  chosen-capabilities none = get-insert c.id k c s.capabilities
  chosen-capabilities (some v) = get-insert c.id k c s.capabilities

  chosen-persisted :
      (o : Option Value) → str_eq c.id k ≡ false → get k (chosen o).persisted ≡ get k s.persisted
  chosen-persisted none other = get-insert c.id k c.initial_value s.persisted ∙ rw other
  chosen-persisted (some v) other = refl

restore_capability-chosen :
    (id : DeviceId) (c : Capability) (s t : Restored)
    → restore_capability id c s ≡ ok t
    → store_value c (choose c s (get c.id s.persisted)) ≡ t
unfolding restore_capability
restore_capability-chosen id c s t h = (checked-ok _ _ t id h).1

-- What is left of the loop after its first round, by the result of that round.
unroll :
    (id : DeviceId) (c : Capability) (cs : List Capability) (s u t : Restored)
    → restore_capability id c s ≡ ok u
    → restore_all id (c ∷ cs) s ≡ ok t
    → restore_all id cs u ≡ ok t
unfolding restore_all
unroll id c cs s u t e h =
    subst (λ x. (elim x [ ok v ↦ restore_all id cs v | err y ↦ err y ]) ≡ ok t) e h

unroll-err :
    (id : DeviceId) (c : Capability) (cs : List Capability) (s t : Restored) (x : RuntimeError)
    → restore_capability id c s ≡ err x
    → restore_all id (c ∷ cs) s ≡ ok t
    → ⊥
unfolding restore_all
unroll-err id c cs s t x e h =
    err_ne_ok (subst (λ y. (elim y [ ok v ↦ restore_all id cs v | err z ↦ err z ]) ≡ ok t) e h)

restore_all-step :
    (id : DeviceId) (c : Capability) (cs : List Capability) (s t : Restored)
    → restore_all id (c ∷ cs) s ≡ ok t
    → restore_all id cs (store_value c (choose c s (get c.id s.persisted))) ≡ ok t
restore_all-step id c cs s t h = elim (Result-cases (restore_capability id c s)) [
  | inl (u, e) ↦
      ap (restore_all id cs) (restore_capability-chosen id c s u e) ∙ unroll id c cs s u t e h
  | inr (x, e) ↦ absurd (unroll-err id c cs s t x e h)
]

-- The later rounds leave the entries of other capabilities alone.
restore_all-other :
    (id : DeviceId) (cs : List Capability) (s t : Restored) (k : CapabilityId)
    → restore_all id cs s ≡ ok t
    → All (λ (x : Capability). k ≢ x.id) cs
    → (get k t.current ≡ get k s.current) × (get k t.capabilities ≡ get k s.capabilities)
unfolding restore_all
restore_all-other id [] s t k h a = (
  ap (λ (x : Restored). get k x.current) (sym (ok_injective h)),
  ap (λ (x : Restored). get k x.capabilities) (sym (ok_injective h)),
)
restore_all-other id (c ∷ cs) s t k h a =
    let other : str_eq c.id k ≡ false = ground (arith, eq_iff c.id k, a.0) in
    let (p, q) = restore_all-other id cs _ t k (restore_all-step id c cs s t h) a.1 in
    (
      p ∙ chosen-current c s k (get c.id s.persisted) ∙ rw other,
      q ∙ chosen-capabilities c s k (get c.id s.persisted) ∙ rw other,
    )

differs :
    (c x : Capability) (cs : List Capability)
    → All (λ (y : Capability). x.id ≢ y.id) cs
    → IsIn c cs
    → x.id ≢ c.id
differs c x [] a i = elim i [ ]
differs c x (y ∷ cs) a (inl e) = subst (λ (z : Capability). x.id ≢ z.id) e a.0
differs c x (y ∷ cs) a (inr i) = differs c x cs a.1 i

restore_all-current :
    (id : DeviceId) (cs : List Capability) (s t : Restored) (c : Capability)
    → restore_all id cs s ≡ ok t
    → Unique cs
    → IsIn c cs
    → (get c.id t.current ≡ some (stored_or_initial c (get c.id s.persisted)))
      × (get c.id t.capabilities ≡ some c)
restore_all-current id [] s t c h unique i = elim i [ ]
restore_all-current id (x ∷ cs) s t c h unique (inl e) =
    subst
      (λ (y : Capability).
        (get y.id t.current ≡ some (stored_or_initial y (get y.id s.persisted)))
        × (get y.id t.capabilities ≡ some y))
      e
      (let same : str_eq x.id x.id ≡ true = (eq_iff x.id x.id).1 refl in
        let (p, q) = restore_all-other id cs _ t x.id (restore_all-step id x cs s t h) unique.0 in
        (
          p ∙ chosen-current x s x.id (get x.id s.persisted) ∙ rw same,
          q ∙ chosen-capabilities x s x.id (get x.id s.persisted) ∙ rw same,
        ))
restore_all-current id (x ∷ cs) s t c h unique (inr i) =
    let other : str_eq x.id c.id ≡ false =
      ground (arith, eq_iff x.id c.id, differs c x cs unique.0 i) in
    let (p, q) = restore_all-current id cs _ t c (restore_all-step id x cs s t h) unique.1 i in
    (
      p
          ∙ ap (λ o. some (stored_or_initial c o))
              (chosen-persisted x s c.id (get x.id s.persisted) other),
      q,
    )

module _ {H : Host} where
  insert_device-read :
      (d : Device) (handler : Option (CommandHandler H)) (s : Restored) (r r' : Runtime H)
      (c : Capability) (v : Value)
      → r.state.started ≡ true
      → r'.state ≡ insert_device d handler s r.state
      → c.permissions.read ≡ true
      → get c.id s.current ≡ some v
      → get c.id s.capabilities ≡ some c
      → (read d.id c.id r').0 ≡ ok v
  unfolding insert_device
  insert_device-read d handler s r r' c v on st readable current has =
      read-ok d.id c.id r' (new_registration d handler s r.state.next_arc) c v
        (ap (λ (x : RuntimeState H). x.started) st ∙ on)
        (ap (λ (x : RuntimeState H). get d.id x.devices) st
          ∙ get-insert_self d.id _ r.state.devices)
        has readable current

  outcome-read :
      (d : Device) (handler : Option (CommandHandler H)) (r : Runtime H) (c : Capability)
      (loaded : Option (Map CapabilityId Value)) (out : Result RuntimeError (Unit {0}) × Runtime H)
      → IsIn c d.capabilities
      → c.permissions.read ≡ true
      → (load_device (λ m. restore d.id (external m)) d.id r).0 ≡ ok loaded
      → out.0 ≡ ok tt
      → RegisterOutcome d handler r out
      → (read d.id c.id out.1).0 ≡ ok (stored_or_initial c (get c.id (or_default loaded)))
  outcome-read d handler r c loaded out i readable stored h (RegisterOutcome.refused e p q) =
      absurd (err_ne_ok (sym p ∙ h))
  outcome-read d handler r c loaded out i readable stored h
        (registered l s valid handled on new p q res st) =
      let (current, has) =
        restore_all-current d.id d.capabilities (begin l) s c q
          ((validate_device_iff d).0 valid).unique i in
      let same : l ≡ loaded = ok_injective (sym p ∙ stored) in
      insert_device-read d handler s r out.1 c _ on st readable current has
      ∙ ap (λ o. ok (stored_or_initial c (get c.id (or_default o)))) same

  -- After a successful registration, a read of a readable capability of the device returns the value
  -- that the store held for it, or its initial value if the store held none or there is no store.
  pub read-register :
      (d : Device) (handler : Option (CommandHandler H)) (r : Runtime H) (c : Capability)
      (loaded : Option (Map CapabilityId Value))
      → IsIn c d.capabilities
      → c.permissions.read ≡ true
      → (load_device (λ m. restore d.id (external m)) d.id r).0 ≡ ok loaded
      → (register d handler r).0 ≡ ok tt
      → (read d.id c.id (register d handler r).1).0
        ≡ ok (stored_or_initial c (get c.id (or_default loaded)))
  read-register d handler r c loaded i readable stored h =
      outcome-read d handler r c loaded (register d handler r) i readable stored h
        (register_cases d handler r)
