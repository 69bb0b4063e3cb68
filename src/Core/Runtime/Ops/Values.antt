-- ===== src/Core/Runtime/Ops/Values.antt =====
-- crates/oikade-core/src/runtime.rs: `read`, `write_value`, `write`, `publish` and `commit`.
use oikade.Prelude.{ℕ, ◌+◌, String, Bool, false, not, Option, none, some, if◌then◌else◌}
use oikade.Prelude.Result.{Result, map_err, ok_or}
use oikade.Prelude.Maps.{get, insert, string_key}
use oikade.Core.Model.{DeviceId, CapabilityId, Value, value_eq, Capability}
use oikade.Core.Runtime.Types.{
  Host, capability, integration_returned, external, RuntimeError, not_found, not_readable,
  not_writable, invalid_value, missing_command_handler, persist, command, Command, Event,
  CommandHandler, RegisteredDevice, RuntimeState, Runtime,
}
use oikade.Core.Runtime.Exec.{Exec, pure, lift, modify, raise_if, ◌>>=◌, ◌>>◌}
use oikade.Core.Runtime.Hub.{dispatch}
use oikade.Core.Runtime.Value.{validate_capability_value}
use oikade.Core.Runtime.Lookup.{lookup, confirm_registration, save_device}

-- `values.current.get(&capability.id) == Some(&value)`
abbrev pub is_current : Option Value → Value → Bool
is_current none v = false
is_current (some w) v = value_eq w v

abbrev pub change_event : DeviceId → Capability → Value → ℕ → ℕ → Event
change_event id c v revision now = record {
  device_id = id;
  capability_id = c.id;
  value = v;
  revision = revision;
  occurred_at = now;
}

module _ {H : Host} where
  unfoldable pub read : DeviceId → CapabilityId → Exec H Value
  read id capability_id = do
    found ← lookup id capability_id
    raise_if (not found.1.permissions.read) (not_readable id capability_id)
    lift
        (ok_or (get capability_id found.0.values.current) (not_found (capability id capability_id)))

  abbrev pub with_value : RegisteredDevice H → Capability → Value → RegisteredDevice H
  with_value registered c v = record registered {
    values = record {
      current = insert c.id v registered.values.current;
      persisted = insert c.id v registered.values.persisted;
    };
  }

  -- The new values, the new revision, and the event if the capability may be observed.
  unfoldable pub apply_commit :
      RegisteredDevice H → DeviceId → Capability → Value → ℕ → RuntimeState H → RuntimeState H
  apply_commit registered id c v now state = record state {
    devices = insert id (with_value registered c v) state.devices;
    events =
        if c.permissions.observe
        then dispatch (change_event id c v (state.revision + 1) now) state.events
        else state.events;
    revision = state.revision + 1;
  }

  unfoldable pub commit : RegisteredDevice H → DeviceId → Capability → Value → Exec H (Unit {0})
  commit registered id c v =
      if is_current (get c.id registered.values.current) v then pure tt else do
        save_device (λ m. persist id c.id (external m)) id
            (insert c.id v registered.values.persisted)
        confirm_registration id registered
        λ r. modify (apply_commit registered id c v (H.now r.world)) r

  unfoldable pub handle_command : CommandHandler H → Command → Exec H Value
  handle_command handler c r = answer (handler c r.world)
    where
      answer : Result String Value × H.World → Result RuntimeError Value × Runtime H
      answer (x, w) = (
        map_err (λ m. command c.device_id c.capability_id (external m)) x,
        record r { world = w },
      )

  unfoldable pub write_value : Command → Exec H Value
  write_value c = do
    found ← lookup c.device_id c.capability_id
    raise_if (not found.1.permissions.write) (not_writable c.device_id c.capability_id)
    lift (validate_capability_value found.1 c.value)
    confirm_registration c.device_id found.0
    handler ← lift (ok_or found.0.handler (missing_command_handler c.device_id c.capability_id))
    effective ← handle_command handler c
    lift (
        map_err (λ e. invalid_value (integration_returned e))
          (validate_capability_value found.1 effective))
    commit found.0 c.device_id found.1 effective
    pure effective

  unfoldable pub write : Command → Exec H (Unit {0})
  write c = do _ ← write_value c; pure tt

  unfoldable pub publish : DeviceId → CapabilityId → Value → Exec H (Unit {0})
  publish id capability_id v = do
    found ← lookup id capability_id
    lift (validate_capability_value found.1 v)
    confirm_registration id found.0
    commit found.0 id found.1 v
