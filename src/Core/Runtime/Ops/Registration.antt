-- ===== src/Core/Runtime/Ops/Registration.antt =====
-- crates/oikade-core/src/runtime.rs: `register` and `unregister`.
use oikade.Prelude.{
  ℕ, ◌+◌, Bool, true, false, not, ◌&&◌, Option, none, some, List, [], ◌∷◌, if◌then◌else◌,
}
use oikade.Prelude.Result.{Result, ok, err, map_err}
use oikade.Prelude.Maps.{Map, get, insert, remove, string_key}
use oikade.Core.Model.{DeviceId, CapabilityId, Value, Capability, Device, validate_device}
use oikade.Core.Runtime.Types.{
  Host, device, model_error, nested, external, RuntimeError, already_exists, not_found,
  invalid_value, missing_command_handler, restore, persist, CommandHandler, RegisteredDevice,
  RuntimeState,
}
use oikade.Core.Runtime.Exec.{Exec, pure, lift, modify, raise_if, ◌>>=◌, ◌>>◌}
use oikade.Core.Runtime.Hub.{dispatch}
use oikade.Core.Runtime.Value.{validate_capability_value}
use oikade.Core.Runtime.Lookup.{ensure_started, find_device, is_other, load_device, save_device}

abbrev pub is_none : {A : Type 0} → Option A → Bool
is_none none = true
is_none (some a) = false

abbrev pub or_default : Option (Map CapabilityId Value) → Map CapabilityId Value
or_default none = []
or_default (some m) = m

-- The variables of the loop over the capabilities.
pub record Restored : Type 0 where
  pub current : Map CapabilityId Value
  pub persisted : Map CapabilityId Value
  pub dirty : Bool
  pub capabilities : Map CapabilityId Capability

-- The value of one capability: the stored one, or else the initial one, which is then stored too.
abbrev pub choose : Capability → Restored → Option Value → Value × Restored
choose c s (some v) = (v, s)
choose c s none = (
  c.initial_value,
  record s { persisted = insert c.id c.initial_value s.persisted; dirty = true },
)

abbrev pub store_value : Capability → Value × Restored → Restored
store_value c (v, t) = record t {
  current = insert c.id v t.current;
  capabilities = insert c.id c t.capabilities;
}

abbrev pub checked :
    {A : Type 0} → Result RuntimeError (Unit {0}) → A → DeviceId → Result RuntimeError A
checked (ok _) a id = ok a
checked (err e) a id = err (restore id (nested e))

-- One round of the loop over the capabilities.
unfoldable pub restore_capability : DeviceId → Capability → Restored → Result RuntimeError Restored
restore_capability id c s =
    let picked = choose c s (get c.id s.persisted) in
    checked (validate_capability_value c picked.0) (store_value c picked) id

unfoldable pub restore_all : DeviceId → List Capability → Restored → Result RuntimeError Restored
restore_all id [] s = ok s
restore_all id (c ∷ cs) s = elim (restore_capability id c s) [
  | ok t ↦ restore_all id cs t
  | err e ↦ err e
]

abbrev pub begin : Option (Map CapabilityId Value) → Restored
begin loaded = record {
  current = [];
  persisted = or_default loaded;
  dirty = is_none loaded;
  capabilities = [];
}

-- The loop that refuses a writable capability without a handler.
unfoldable pub check_handlers : DeviceId → Bool → List Capability → Result RuntimeError (Unit {0})
check_handlers id missing [] = ok tt
check_handlers id missing (c ∷ cs) =
    if c.permissions.write && missing
    then err (missing_command_handler id c.id)
    else check_handlers id missing cs

module _ {H : Host} where
  unfoldable pub refuse_existing : DeviceId → Exec H (Unit {0})
  refuse_existing id r = raise_if (not (is_none (get id r.state.devices))) (already_exists id) r

  abbrev pub new_registration :
      Device → Option (CommandHandler H) → Restored → ℕ → RegisteredDevice H
  new_registration d handler s arc = record {
    arc = arc;
    definition = d;
    capabilities = s.capabilities;
    values = record { current = s.current; persisted = s.persisted };
    handler = handler;
  }

  -- Insert the device under a new `Arc`, count a revision and tell the topology subscribers.
  unfoldable pub insert_device :
      Device → Option (CommandHandler H) → Restored → RuntimeState H → RuntimeState H
  insert_device d handler s state = record state {
    devices = insert d.id (new_registration d handler s state.next_arc) state.devices;
    topology = dispatch (record { revision = state.revision + 1 }) state.topology;
    revision = state.revision + 1;
    next_arc = state.next_arc + 1;
  }

  abbrev pub save_restored : Device → Restored → Exec H (Unit {0})
  save_restored d s =
      if s.dirty
      then save_device (λ m. persist d.id "initial-state" (external m)) d.id s.persisted
      else pure tt

  unfoldable pub register : Device → Option (CommandHandler H) → Exec H (Unit {0})
  register d handler = do
    lift (map_err (λ e. invalid_value (model_error e)) (validate_device d))
    lift (check_handlers d.id (is_none handler) d.capabilities)
    ensure_started
    refuse_existing d.id
    loaded ← load_device (λ m. restore d.id (external m)) d.id
    s ← lift (restore_all d.id d.capabilities (begin loaded))
    save_restored d s
    ensure_started
    refuse_existing d.id
    modify (insert_device d handler s)

  unfoldable pub remove_device : DeviceId → RuntimeState H → RuntimeState H
  remove_device id state = record state {
    devices = remove id state.devices;
    topology = dispatch (record { revision = state.revision + 1 }) state.topology;
    revision = state.revision + 1;
  }

  unfoldable pub unregister : DeviceId → Exec H (Unit {0})
  unregister id = do
    ensure_started
    registered ← find_device id
    λ r. raise_if (is_other (get id r.state.devices) registered) (not_found (device id)) r
    modify (remove_device id)
