-- ===== src/Core/Runtime/ReadWrite.antt =====
-- What a reader sees after a write.
use oikade.Prelude.{
  ℕ, ◌≡◌, ◌≢◌, sym, subst, ap, ◌∙◌, ◌⊎◌, inl, inr, arith, true, some, Option-cases, eq_iff,
}
use oikade.Prelude.Result.{Result, ok, ok_ne_err, ok_injective}
use oikade.Prelude.Maps.{get, insert, string_key, get-insert, get-insert_self}
use oikade.Core.Model.{
  DeviceId, CapabilityId, Value, value_eq, value_eq_refl, Capability, validate_builtin,
  lookup_builtin_capability,
}
use oikade.Core.Runtime.Types.{Host, Command, RuntimeError, RegisteredDevice, RuntimeState, Runtime}
use oikade.Core.Runtime.Value.{validate_capability_value}
use oikade.Core.Runtime.Lookup.{lookup, find_device, ensure_started}
use oikade.Core.Runtime.Ops.{read, write_value, publish, apply_commit, with_value}
use oikade.Core.Runtime.Commit.{
  WriteOutcome, refused, accepted, was_current, is_new, write_value_cases, publish_cases,
}
use oikade.Core.Runtime.Invariant.{Inv}

-- What `validate_capability_value` accepts is valid in itself, so it equals itself.
pub value_eq-validate_capability_value :
    (c : Capability) (v : Value) → validate_capability_value c v ≡ ok tt → value_eq v v ≡ true
unfolding validate_capability_value validate_builtin
value_eq-validate_capability_value c v h =
    value_eq_refl v (elim (Option-cases (lookup_builtin_capability c.capability_type)) [
      | inl p ↦ ground arith
      | inr (b, p) ↦ ground arith
    ])

module _ {H : Host} where
  -- The capability `k` of the device `id` may be read.
  pub record IsReadable (s : RuntimeState H) (id : DeviceId) (k : CapabilityId) : Type 0 where
    pub permitted :
        (reg : RegisteredDevice H) (c : Capability)
        → get id s.devices ≡ some reg
        → get k reg.capabilities ≡ some c
        → c.permissions.read ≡ true

  pub read-ok :
      (id : DeviceId) (k : CapabilityId) (r : Runtime H) (reg : RegisteredDevice H) (c : Capability)
      (v : Value)
      → r.state.started ≡ true
      → get id r.state.devices ≡ some reg
      → get k reg.capabilities ≡ some c
      → c.permissions.read ≡ true
      → get k reg.values.current ≡ some v
      → (read id k r).0 ≡ ok v
  unfolding read lookup ensure_started find_device
  read-ok id k r reg c v on found has readable is_there = ground arith

  -- The reader of a written capability gets a value equal to the one written.
  WriteOutcome-read :
      {A : Type 0} (a : A) (r : Runtime H) (id : DeviceId) (k : CapabilityId) (v : Value)
      (out : Result RuntimeError A × Runtime H)
      → Inv r.state
      → IsReadable r.state id k
      → out.0 ≡ ok a
      → WriteOutcome a r id k v out
      → (w : Value) × ((read id k out.1).0 ≡ ok w) × (value_eq w v ≡ true)
  unfolding apply_commit
  WriteOutcome-read a r id k v out inv readable done (refused e p q) =
      absurd (ok_ne_err (sym done ∙ p))
  WriteOutcome-read a r id k v out inv readable done
        (accepted reg c on found has valid p (was_current same q)) =
      let entry = (inv.registered id reg found).entries k c has in
      (
        entry.value,
        read-ok id k out.1 reg c entry.value (ap (λ (s : RuntimeState H). s.started) q ∙ on)
            (ap (λ (s : RuntimeState H). get id s.devices) q ∙ found) has
            (readable.permitted reg c found has) entry.is_current,
        ground (arith, entry.own, entry.is_current, same),
      )
  WriteOutcome-read a r id k v out inv readable done
        (accepted reg c on found has valid p (is_new now q)) =
      let entry = (inv.registered id reg found).entries k c has in
      (
        v,
        read-ok id k out.1 (with_value reg c v) c v (ap (λ (s : RuntimeState H). s.started) q ∙ on)
            (ap (λ (s : RuntimeState H). get id s.devices) q
              ∙ get-insert_self id (with_value reg c v) r.state.devices)
            has (readable.permitted reg c found has)
            (subst (λ j. get j (insert c.id v reg.values.current) ≡ some v) entry.own
              (get-insert_self c.id v reg.values.current)),
        value_eq-validate_capability_value c v valid,
      )

  WriteOutcome-answer :
      {A : Type 0} (a : A) (r : Runtime H) (id : DeviceId) (k : CapabilityId) (v : Value)
      (out : Result RuntimeError A × Runtime H) (b : A)
      → WriteOutcome a r id k v out
      → out.0 ≡ ok b
      → b ≡ a
  WriteOutcome-answer a r id k v out b (refused e p q) h = absurd (ok_ne_err (sym h ∙ p))
  WriteOutcome-answer a r id k v out b (accepted reg c on found has valid p q) h =
      ok_injective (sym h ∙ p)

  -- Where the invariant holds, after a successful write of a readable capability a read succeeds,
  -- and its value equals the effective value that the write returned (as `==` compares them).
  pub read-write_value :
      (r : Runtime H) (c : Command) (v : Value)
      → Inv r.state
      → IsReadable r.state c.device_id c.capability_id
      → (write_value c r).0 ≡ ok v
      → (w : Value) × ((read c.device_id c.capability_id (write_value c r).1).0 ≡ ok w)
        × (value_eq w v ≡ true)
  read-write_value r c v inv readable h =
      let (x, out) = write_value_cases c r in
      let same = WriteOutcome-answer x r c.device_id c.capability_id x (write_value c r) v out h in
      let (w, p, q) =
        WriteOutcome-read x r c.device_id c.capability_id x (write_value c r) inv readable
          (h ∙ ap ok same) out in
      (w, p, subst (λ y. value_eq w y ≡ true) (sym same) q)

  -- Where the invariant holds, after a successful publication of a readable capability a read
  -- returns an equal value.
  pub read-publish :
      (r : Runtime H) (id : DeviceId) (k : CapabilityId) (v : Value)
      → Inv r.state
      → IsReadable r.state id k
      → (publish id k v r).0 ≡ ok tt
      → (w : Value) × ((read id k (publish id k v r).1).0 ≡ ok w) × (value_eq w v ≡ true)
  read-publish r id k v inv readable h =
      WriteOutcome-read tt r id k v (publish id k v r) inv readable h (publish_cases id k v r)

  read_state :
      (id : DeviceId) (k : CapabilityId) (r s : Runtime H)
      → r.state ≡ s.state
      → (read id k r).0 ≡ (read id k s).0
  unfolding read lookup ensure_started find_device
  read_state id k r s p = ground arith

  read-apply_commit_ne :
      (r : Runtime H) (reg : RegisteredDevice H) (c : Capability) (id id' : DeviceId)
      (k' : CapabilityId) (v : Value) (now : ℕ)
      → get id r.state.devices ≡ some reg
      → (id ≢ id') ⊎ (c.id ≢ k')
      → (read id' k' (record r { state = apply_commit reg id c v now r.state })).0
        ≡ (read id' k' r).0
  unfolding read lookup ensure_started find_device apply_commit
  read-apply_commit_ne r reg c id id' k' v now found other = ground (
    arith,
    get-insert id id' (with_value reg c v) r.state.devices,
    get-insert c.id k' v reg.values.current,
    eq_iff id id',
    eq_iff c.id k',
  )

  -- The value that a reader of another capability gets is not touched.
  WriteOutcome-read_ne :
      {A : Type 0} (a : A) (r : Runtime H) (id : DeviceId) (k : CapabilityId) (v : Value)
      (out : Result RuntimeError A × Runtime H) (id' : DeviceId) (k' : CapabilityId)
      → Inv r.state
      → (id ≢ id') ⊎ (k ≢ k')
      → WriteOutcome a r id k v out
      → (read id' k' out.1).0 ≡ (read id' k' r).0
  WriteOutcome-read_ne a r id k v out id' k' inv other (refused e p q) = read_state id' k' out.1 r q
  WriteOutcome-read_ne a r id k v out id' k' inv other
        (accepted reg c on found has valid p (was_current same q)) =
      read_state id' k' out.1 r q
  WriteOutcome-read_ne a r id k v out id' k' inv other
        (accepted reg c on found has valid p (is_new now q)) =
      let entry = (inv.registered id reg found).entries k c has in
      read_state id' k' out.1 (record r { state = apply_commit reg id c v now r.state }) q
      ∙ read-apply_commit_ne r reg c id id' k' v now found (rw (entry.own) other)

  -- Where the invariant holds, whether or not a publication succeeds, a read of any other capability
  -- answers as before it.
  pub read-publish_ne :
      (r : Runtime H) (id id' : DeviceId) (k k' : CapabilityId) (v : Value)
      → Inv r.state
      → (id ≢ id') ⊎ (k ≢ k')
      → (read id' k' (publish id k v r).1).0 ≡ (read id' k' r).0
  read-publish_ne r id id' k k' v inv other =
      WriteOutcome-read_ne tt r id k v (publish id k v r) id' k' inv other (publish_cases id k v r)
