-- ===== src/Core/Runtime/Restore.antt =====
-- The loop of `register` that restores a device's values.
use oikade.Prelude.{
  ◌≡◌, refl, subst, arith, Bool, false, ◌&&◌, Option, none, some, List, [], ◌∷◌, All, eq_iff,
  Bool-cases, inl, inr,
}
use oikade.Prelude.Result.{Result, ok, err, Result-cases, ok_injective, err_ne_ok}
use oikade.Prelude.Maps.{Map, get, insert, string_key, get-insert, get-insert_self}
use oikade.Core.Model.{DeviceId, CapabilityId, Value, Capability}
use oikade.Core.Runtime.Types.{RuntimeError}
use oikade.Core.Runtime.Value.{validate_capability_value}
use oikade.Core.Runtime.Ops.{
  Restored, choose, store_value, checked, restore_capability, restore_all, begin, check_handlers,
}

pub checked-ok :
    {A : Type 0} (x : Result RuntimeError (Unit {0})) (a b : A) (id : DeviceId)
    → checked x a id ≡ ok b
    → (x ≡ ok tt) × (a ≡ b)
checked-ok (ok u) a b id h = (refl, cc)
checked-ok (err e) a b id h = cc

module _ (P : Capability → Type 0) where
  -- The entry of one capability: its own identifier, one valid value, current and stored.
  pub record Entry (current persisted : Map CapabilityId Value) (k : CapabilityId) (c : Capability)
      : Type 0 where
    pub own : c.id ≡ k
    pub value : Value
    pub is_current : get k current ≡ some value
    pub is_persisted : get k persisted ≡ some value
    pub accepted : validate_capability_value c value ≡ ok tt
    pub also : P c

  pub record IsRestored (s : Restored) : Type 0 where
    pub entries :
        (k : CapabilityId) (c : Capability)
        → get k s.capabilities ≡ some c
        → Entry s.current s.persisted k c

  pub begin-IsRestored : (loaded : Option (Map CapabilityId Value)) → IsRestored (begin loaded)
  unfolding get
  begin-IsRestored loaded = record { entries = λ k c h. cc }

  -- A capability whose value is stored and valid is taken into both maps.
  store_value-IsRestored :
      (c : Capability) (v : Value) (s : Restored)
      → P c
      → validate_capability_value c v ≡ ok tt
      → get c.id s.persisted ≡ some v
      → IsRestored s
      → IsRestored (store_value c (v, s))
  store_value-IsRestored c v s p valid stored inv = record { entries = entries }
    where
      entries :
          (k : CapabilityId) (x : Capability)
          → get k (insert c.id c s.capabilities) ≡ some x
          → Entry (insert c.id v s.current) s.persisted k x
      entries k x h = elim (Bool-cases (string_key.eqb c.id k)) [
        | inl same ↦
            let e : x ≡ c = ground (arith, get-insert c.id k c s.capabilities) in
            let k_eq : c.id ≡ k = (eq_iff c.id k).0 same in
            rw e (record {
              own = k_eq;
              value = v;
              is_current = rw (get-insert c.id k v s.current, same);
              is_persisted = rw (← k_eq) stored;
              accepted = valid;
              also = p;
            })
        | inr other ↦
            let old = inv.entries k x (ground (arith, get-insert c.id k c s.capabilities)) in
            record {
              own = old.own;
              value = old.value;
              is_current = rw (get-insert c.id k v s.current, other) old.is_current;
              is_persisted = old.is_persisted;
              accepted = old.accepted;
              also = old.also;
            }
      ]

  -- A missing value is stored without touching another capability's.
  add_initial-IsRestored :
      (c : Capability) (s : Restored)
      → get c.id s.persisted ≡ none
      → IsRestored s
      → IsRestored (choose c s none).1
  add_initial-IsRestored c s absent inv = record { entries = entries }
    where
      entries :
          (k : CapabilityId) (x : Capability)
          → get k s.capabilities ≡ some x
          → Entry s.current (insert c.id c.initial_value s.persisted) k x
      entries k x h =
          let old = inv.entries k x h in
          record {
            own = old.own;
            value = old.value;
            is_current = old.is_current;
            is_persisted = ground (
              arith,
              get-insert c.id k c.initial_value s.persisted,
              old.is_persisted,
              eq_iff c.id k,
            );
            accepted = old.accepted;
            also = old.also;
          }

  restore_capability-IsRestored :
      (id : DeviceId) (c : Capability) (s t : Restored)
      → P c
      → IsRestored s
      → restore_capability id c s ≡ ok t
      → IsRestored t
  unfolding restore_capability
  restore_capability-IsRestored id c s t p inv h =
      let done = checked-ok _ _ t id h in
      subst IsRestored done.1 (pick (get c.id s.persisted) refl done.0)
    where
      pick :
          (o : Option Value)
          → get c.id s.persisted ≡ o
          → validate_capability_value c (choose c s o).0 ≡ ok tt
          → IsRestored (store_value c (choose c s o))
      pick none absent valid =
          store_value-IsRestored c c.initial_value (choose c s none).1 p valid
            (get-insert_self c.id c.initial_value s.persisted)
            (add_initial-IsRestored c s absent inv)
      pick (some v) present valid = store_value-IsRestored c v s p valid present inv

  pub restore_all-IsRestored :
      (id : DeviceId) (cs : List Capability) (s t : Restored)
      → All P cs
      → IsRestored s
      → restore_all id cs s ≡ ok t
      → IsRestored t
  unfolding restore_all
  restore_all-IsRestored id [] s t ps inv h = subst IsRestored (ok_injective h) inv
  restore_all-IsRestored id (c ∷ cs) s t ps inv h =
      elim (Result-cases (restore_capability id c s)) [
        | inl (u, p) ↦
            restore_all-IsRestored id cs u t ps.1
              (restore_capability-IsRestored id c s u ps.0 inv p) (rw (p, restore_all) at h)
        | inr (e, p) ↦ absurd (err_ne_ok (rw (p, restore_all) at h))
      ]

-- Every capability that may be written has a handler.
pub check_handlers-All :
    (id : DeviceId) (missing : Bool) (cs : List Capability)
    → check_handlers id missing cs ≡ ok tt
    → All (λ c. (c.permissions.write && missing) ≡ false) cs
unfolding check_handlers
check_handlers-All id missing [] h = tt
check_handlers-All id missing (c ∷ cs) h =
    (ground arith, check_handlers-All id missing cs (ground arith))
