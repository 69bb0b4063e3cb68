-- ===== src/Core/Runtime/Lookup.antt =====
-- crates/oikade-core/src/runtime.rs: what the methods share: `ensure_started`, `lookup`,
-- `confirm_registration`, and the calls of the store.
use oikade.Prelude.{◌≡◌, refl, arith, String, Bool, true, not, Option, none, some, ◌==◌}
use oikade.Prelude.Result.{Result, ok, map_err, ok_or}
use oikade.Prelude.Maps.{Map, get, string_key}
use oikade.Core.Model.{DeviceId, CapabilityId, Value, Capability}
use oikade.Core.Runtime.Types.{
  Host, device, capability, RuntimeError, stopped, not_found, StateStore, RegisteredDevice, Runtime,
}
use oikade.Core.Runtime.Exec.{Exec, pure, lift, raise_if, ◌>>=◌, ◌>>◌}

module _ {H : Host} where
  unfoldable pub ensure_started : Exec H (Unit {0})
  ensure_started r = raise_if (not r.state.started) stopped r

  -- `state.devices.get(id).cloned().ok_or(NotFound)`
  unfoldable pub find_device : DeviceId → Exec H (RegisteredDevice H)
  find_device id r = lift (ok_or (get id r.state.devices) (not_found (device id))) r

  unfoldable pub lookup : DeviceId → CapabilityId → Exec H (RegisteredDevice H × Capability)
  lookup id capability_id = do
    ensure_started
    registered ← find_device id
    c ← lift (
        ok_or (get capability_id registered.capabilities) (not_found (capability id capability_id)))
    pure (registered, c)

  -- `is_none_or(|current| !Arc::ptr_eq(current, registered))`
  abbrev pub is_other : Option (RegisteredDevice H) → RegisteredDevice H → Bool
  is_other none registered = true
  is_other (some current) registered = not (current.arc == registered.arc)

  unfoldable pub confirm_registration : DeviceId → RegisteredDevice H → Exec H (Unit {0})
  confirm_registration id registered = do
    ensure_started
    λ r. raise_if (is_other (get id r.state.devices) registered) (not_found (device id)) r

  -- `if let Some(store) = &self.inner.store`
  unfoldable pub load_device :
      (String → RuntimeError) → DeviceId → Exec H (Option (Map CapabilityId Value))
  load_device wrap id r = go r.store
    where
      answer :
          Result String (Option (Map CapabilityId Value)) × H.World
          → Result RuntimeError (Option (Map CapabilityId Value)) × Runtime H
      answer (x, w) = (map_err wrap x, record r { world = w })

      go : Option (StateStore H) → Result RuntimeError (Option (Map CapabilityId Value)) × Runtime H
      go none = (ok none, r)
      go (some store) = answer (store.load_device id r.world)

  unfoldable pub save_device :
      (String → RuntimeError) → DeviceId → Map CapabilityId Value → Exec H (Unit {0})
  save_device wrap id values r = go r.store
    where
      answer : Result String (Unit {0}) × H.World → Result RuntimeError (Unit {0}) × Runtime H
      answer (x, w) = (map_err wrap x, record r { world = w })

      go : Option (StateStore H) → Result RuntimeError (Unit {0}) × Runtime H
      go none = (ok tt, r)
      go (some store) = answer (store.save_device id values r.world)

  -- The looking up changes nothing, and the store changes the world alone.
  pub ensure_started_keeps : (r : Runtime H) → (ensure_started r).1 ≡ r
  unfolding ensure_started
  ensure_started_keeps r = ground arith

  pub find_device_keeps : (id : DeviceId) (r : Runtime H) → (find_device id r).1 ≡ r
  unfolding find_device
  find_device_keeps id r = refl

  pub confirm_registration_keeps :
      (id : DeviceId) (reg : RegisteredDevice H) (r : Runtime H)
      → (confirm_registration id reg r).1 ≡ r
  unfolding confirm_registration ensure_started
  confirm_registration_keeps id reg r = ground arith

  pub lookup_keeps : (id : DeviceId) (c : CapabilityId) (r : Runtime H) → (lookup id c r).1 ≡ r
  unfolding lookup ensure_started find_device
  lookup_keeps id c r = ground arith

  pub state-load_device :
      (f : String → RuntimeError) (id : DeviceId) (r : Runtime H)
      → (load_device f id r).1.state ≡ r.state
  unfolding load_device
  state-load_device f id r = ground arith

  pub state-save_device :
      (f : String → RuntimeError) (id : DeviceId) (m : Map CapabilityId Value) (r : Runtime H)
      → (save_device f id m r).1.state ≡ r.state
  unfolding save_device
  state-save_device f id m r = ground arith

  -- What a successful `lookup` has found.
  pub lookup-ok :
      (id : DeviceId) (c : CapabilityId) (r : Runtime H) {reg : RegisteredDevice H} {x : Capability}
      → (lookup id c r).0 ≡ ok (reg, x)
      → (r.state.started ≡ true)
        × (get id r.state.devices ≡ some reg)
        × (get c reg.capabilities ≡ some x)
  unfolding lookup ensure_started find_device
  lookup-ok id c r h = (ground arith, ground arith, ground arith)
