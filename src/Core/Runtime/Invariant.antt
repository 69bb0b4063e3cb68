-- ===== src/Core/Runtime/Invariant.antt =====
-- What always holds of a runtime's state, and that every call keeps it.
use oikade.Prelude.{
  ℕ, ◌≡◌, refl, arith, true, false, ◌&&◌, Option, some, [], eq_iff, Bool-cases, inl, inr,
}
use oikade.Prelude.Result.{ok}
use oikade.Prelude.Maps.{get, insert, string_key, get-insert, forall_insert, forall_remove}
use oikade.Core.Model.{DeviceId, CapabilityId, Value, Capability, Device, validate_device}
use oikade.Core.Runtime.Types.{Host, CommandHandler, RegisteredDevice, RuntimeState}
use oikade.Core.Runtime.Value.{validate_capability_value}
use oikade.Core.Runtime.Ops.{
  is_none, apply_commit, insert_device, remove_device, Restored, new_registration, with_value,
}
use oikade.Core.Runtime.HubInvariant.{HubInv, dispatch-HubInv}
use oikade.Core.Runtime.Restore.{Entry, IsRestored}

-- A capability that may be written belongs to a device with a handler.
abbrev pub IsHandled : {A : Type 0} → Option A → Capability → Type 0
IsHandled handler c = (c.permissions.write && is_none handler) ≡ false

module _ {H : Host} where
  -- A registered device is valid and stands under its own identifier, and each of its capabilities
  -- has one valid value, both current and stored.
  pub record IsRegistered (id : DeviceId) (reg : RegisteredDevice H) : Type 0 where
    pub named : reg.definition.id ≡ id
    pub valid : validate_device reg.definition ≡ ok tt
    pub entries :
        (k : CapabilityId) (c : Capability)
        → get k reg.capabilities ≡ some c
        → Entry (IsHandled reg.handler) reg.values.current reg.values.persisted k c

  pub record Inv (s : RuntimeState H) : Type 0 where
    pub stopped_empty : s.started ≡ false → s.devices ≡ []
    pub registered :
        (id : DeviceId) (reg : RegisteredDevice H)
        → get id s.devices ≡ some reg
        → IsRegistered id reg
    pub events_inv : HubInv s.events
    pub topology_inv : HubInv s.topology

  pub insert_device-Inv :
      (d : Device) (handler : Option (CommandHandler H)) (t : Restored) (s : RuntimeState H)
      → s.started ≡ true
      → validate_device d ≡ ok tt
      → IsRestored (IsHandled handler) t
      → Inv s
      → Inv (insert_device d handler t s)
  unfolding insert_device
  insert_device-Inv d handler t s on valid restored v = record {
    stopped_empty = λ off. cc;
    registered =
        forall_insert IsRegistered d.id (new_registration d handler t s.next_arc) s.devices
          (record { named = refl; valid = valid; entries = restored.entries }) v.registered;
    events_inv = v.events_inv;
    topology_inv = dispatch-HubInv _ s.topology v.topology_inv;
  }

  pub remove_device-Inv :
      (id : DeviceId) (s : RuntimeState H) → s.started ≡ true → Inv s → Inv (remove_device id s)
  unfolding remove_device
  remove_device-Inv id s on v = record {
    stopped_empty = λ off. cc;
    registered = forall_remove IsRegistered id s.devices v.registered;
    events_inv = v.events_inv;
    topology_inv = dispatch-HubInv _ s.topology v.topology_inv;
  }

  -- The entries of a device after a valid value has been stored for one capability.
  with_value-entries :
      (reg : RegisteredDevice H) (k : CapabilityId) (c : Capability) (v : Value) (id : DeviceId)
      → IsRegistered id reg
      → get k reg.capabilities ≡ some c
      → validate_capability_value c v ≡ ok tt
      → IsRegistered id (with_value reg c v)
  with_value-entries reg k c v id r has valid = record {
    named = r.named;
    valid = r.valid;
    entries = entries;
  }
    where
      mine : Entry (IsHandled reg.handler) reg.values.current reg.values.persisted k c
      mine = r.entries k c has

      entries :
          (j : CapabilityId) (x : Capability)
          → get j reg.capabilities ≡ some x
          → Entry
              (IsHandled reg.handler)
              (insert c.id v reg.values.current)
              (insert c.id v reg.values.persisted)
              j
              x
      entries j x h = elim (Bool-cases (string_key.eqb c.id j)) [
        | inl same ↦
            let e : x ≡ c = ground (arith, mine.own, (eq_iff c.id j).0 same) in
            rw e (record {
              own = (eq_iff c.id j).0 same;
              value = v;
              is_current = rw (get-insert c.id j v reg.values.current, same);
              is_persisted = rw (get-insert c.id j v reg.values.persisted, same);
              accepted = valid;
              also = mine.also;
            })
        | inr other ↦
            let old = r.entries j x h in
            record {
              own = old.own;
              value = old.value;
              is_current = rw (get-insert c.id j v reg.values.current, other) old.is_current;
              is_persisted = rw (get-insert c.id j v reg.values.persisted, other) old.is_persisted;
              accepted = old.accepted;
              also = old.also;
            }
      ]

  pub apply_commit-Inv :
      (reg : RegisteredDevice H) (id : DeviceId) (k : CapabilityId) (c : Capability) (v : Value)
      (now : ℕ) (s : RuntimeState H)
      → s.started ≡ true
      → get id s.devices ≡ some reg
      → get k reg.capabilities ≡ some c
      → validate_capability_value c v ≡ ok tt
      → Inv s
      → Inv (apply_commit reg id c v now s)
  unfolding apply_commit
  apply_commit-Inv reg id k c v now s on found has valid inv = record {
    stopped_empty = λ off. cc;
    registered =
        forall_insert IsRegistered id (with_value reg c v) s.devices
          (with_value-entries reg k c v id (inv.registered id reg found) has valid) inv.registered;
    events_inv = elim (Bool-cases c.permissions.observe) [
      | inl p ↦ rw p (dispatch-HubInv _ s.events inv.events_inv)
      | inr p ↦ rw p inv.events_inv
    ];
    topology_inv = inv.topology_inv;
  }
