-- ===== src/Core/Runtime/Examples.antt =====
-- A runtime on a concrete host, and the theorems about it at concrete calls.
use oikade.Prelude.{
  ℕ, Bool, true, false, Option, none, some, List, [], ◌∷◌, ◌++◌, ltb, length, if◌then◌else◌, ◌≢◌,
  ◌≡◌, refl, subst, arith, String, eq_iff, inl, ◌+◌,
}
use oikade.Prelude.Result.{ok}
use oikade.Core.Model.{
  Device, Capability, bool, bool_kind, validate_device, validate_capability, validate_capabilities,
  contains, value_eq, Value, lookup_builtin_capability, validate_builtin,
}
use oikade.Core.Runtime.Types.{
  Host, SendOutcome, sent, full, closed, Command, CommandHandler, Runtime, stopped,
  RegisteredDevice, Event, StateStore, restore, external,
}
use oikade.Core.Runtime.Ops.{
  new, start, register, refuse_existing, restore_all, restore_capability, insert_device,
  check_handlers, write_value, publish, handle_command, commit, apply_commit, read, stop, subscribe,
}
use oikade.Core.Runtime.Step.{
  Call, starts, registers, writes, run, perform, step, stops, subscribes, publishes,
}
use oikade.Core.Runtime.Hub.{dispatch}
use oikade.Core.Runtime.Closing.{terminated, stop-terminated}
use oikade.Core.Runtime.Delivery.{served, kept, dispatch-served}
use oikade.Core.Runtime.Restoring.{stored_or_initial, read-register}
use oikade.Core.Runtime.Atomic.{step-err, step-revision, Counts}
use oikade.Core.Runtime.ReadWrite.{IsReadable, read-write_value, read-publish, read-publish_ne}
use oikade.Core.Runtime.Lookup.{
  ensure_started, load_device, save_device, lookup, find_device, confirm_registration,
}
use oikade.Core.Runtime.Value.{validate_capability_value}
use oikade.Prelude.Maps.{get, insert, string_key, nat_key}
use oikade.Core.Runtime.Invariant.{Inv}
use oikade.Core.Runtime.Reachable.{run-Inv}

-- A bounded queue: its capacity, whether it is closed, and its contents.
abbrev Queue : Type 0 → Type 0
Queue T = ℕ × Bool × List T

abbrev queue_send : (T : Type 0) → T → Queue T → SendOutcome × Queue T
queue_send T x (n, true, xs) = (closed, (n, true, xs))
queue_send T x (n, false, xs) =
    if ltb (length xs) n then (sent, (n, false, xs ++ x ∷ [])) else (full, (n, false, xs))

abbrev queue_recv : (T : Type 0) → Queue T → Option T × Queue T
queue_recv T (n, c, []) = (none, (n, c, []))
queue_recv T (n, c, x ∷ xs) = (some x, (n, c, xs))

abbrev queue_close : (T : Type 0) → Queue T → Queue T
queue_close T (n, c, xs) = (n, true, xs)

abbrev pub test_host : Host
test_host = record {
  World = ℕ;
  now = λ w. w;
  Chan = Queue;
  channel = λ T n. (n, false, []);
  try_send = queue_send;
  recv = queue_recv;
  close = queue_close;
}

abbrev pub on_capability : Capability
on_capability = record {
  id = "on";
  capability_type = "oikade.switch.on";
  name = "On";
  kind = bool_kind;
  permissions = record { read = true; write = true; observe = true };
  initial_value = bool false;
}

abbrev pub lamp : Device
lamp = record {
  id = "lamp";
  name = "Lamp";
  manufacturer = "";
  model = "";
  capabilities = on_capability ∷ [];
}

-- A handler that does what it is told.
abbrev pub obey : CommandHandler test_host
obey c w = (ok c.value, w)

abbrev pub setup : List (Call test_host)
setup = starts ∷ registers lamp (some obey) ∷ []

abbrev pub empty : Runtime test_host
empty = new none 0

abbrev pub ready : Runtime test_host
ready = run setup empty

abbrev pub switch_on : Command
switch_on = record { device_id = "lamp"; capability_id = "on"; value = bool true }

run-Inv_example : Inv (run (setup ++ writes switch_on ∷ []) empty).state
run-Inv_example = run-Inv (setup ++ writes switch_on ∷ []) none 0

step-err_example : (step (writes switch_on) empty).state ≡ empty.state
unfolding perform write_value lookup ensure_started new
step-err_example = step-err (writes switch_on) empty stopped refl

starts-ne-stops : ◌≢◌ {A = Call test_host} (registers lamp (some obey)) stops
starts-ne-stops h = cc

step-revision_example : Counts ready.state (step (registers lamp (some obey)) ready).state
step-revision_example = step-revision (registers lamp (some obey)) ready starts-ne-stops

pub ready-Inv : Inv ready.state
ready-Inv = run-Inv setup none 0

abbrev registered_lamp : RegisteredDevice test_host
registered_lamp = record {
  arc = 0;
  definition = lamp;
  capabilities = ("on", on_capability) ∷ [];
  values = record { current = ("on", bool false) ∷ []; persisted = ("on", bool false) ∷ [] };
  handler = some obey;
}

ready-devices : ready.state.devices ≡ ("lamp", registered_lamp) ∷ []
unfolding run step perform start register new ensure_started refuse_existing load_device restore_all
    restore_capability save_device insert_device get insert validate_device validate_capability
    validate_capabilities check_handlers contains validate_capability_value
    lookup_builtin_capability validate_builtin
ready-devices = refl

found_lamp :
    (reg : RegisteredDevice test_host)
    → get "lamp" ready.state.devices ≡ some reg
    → registered_lamp ≡ reg
unfolding get
found_lamp reg f = cc (ready-devices, f)

pub ready-IsReadable : IsReadable ready.state "lamp" "on"
unfolding get
ready-IsReadable = record {
  permitted = λ reg c f h.
      subst
        (λ (x : RegisteredDevice test_host).
          get "on" x.capabilities ≡ some c → c.permissions.read ≡ true)
        (found_lamp reg f) (λ p. on_readable c p) h;
}
  where
    on_readable :
        (c : Capability)
        → ◌≡◌ {A = Option Capability} (some on_capability) (some c)
        → c.permissions.read ≡ true
    on_readable c p = cc

pub write_value-ok : (write_value switch_on ready).0 ≡ ok (bool true)
unfolding run step perform start register new ensure_started refuse_existing load_device restore_all
    restore_capability save_device insert_device get insert validate_device validate_capability
    validate_capabilities check_handlers contains write_value lookup find_device
    confirm_registration validate_capability_value handle_command commit apply_commit
    lookup_builtin_capability validate_builtin value_eq
write_value-ok = refl

read-write_value_example :
    (w : Value) × ((read "lamp" "on" (write_value switch_on ready).1).0 ≡ ok w)
    × (value_eq w (bool true) ≡ true)
read-write_value_example =
    read-write_value ready switch_on (bool true) ready-Inv ready-IsReadable write_value-ok

publish-ok : (publish "lamp" "on" (bool true) ready).0 ≡ ok tt
unfolding run step perform start register new ensure_started refuse_existing load_device restore_all
    restore_capability save_device insert_device get insert validate_device validate_capability
    validate_capabilities check_handlers contains validate_capability_value publish lookup
    find_device confirm_registration commit apply_commit lookup_builtin_capability validate_builtin
    value_eq
publish-ok = refl

read-publish_example :
    (w : Value) × ((read "lamp" "on" (publish "lamp" "on" (bool true) ready).1).0 ≡ ok w)
    × (value_eq w (bool true) ≡ true)
read-publish_example =
    read-publish ready "lamp" "on" (bool true) ready-Inv ready-IsReadable publish-ok

other_device : ◌≢◌ {A = String} "lamp" "fan"
other_device h = ground (arith, (eq_iff "lamp" "fan").1 h)

read-publish_ne_example :
    (read "fan" "on" (publish "lamp" "on" (bool true) ready).1).0 ≡ (read "fan" "on" ready).0
read-publish_ne_example =
    read-publish_ne ready "lamp" "fan" "on" "on" (bool true) ready-Inv (inl other_device)

-- Two subscribers, the first of which has a buffer of one event and has not received it.
abbrev busy : Runtime test_host
busy = run (setup ++ subscribes 1 ∷ subscribes 4 ∷ publishes "lamp" "on" (bool true) ∷ []) empty

busy-Inv : Inv busy.state
busy-Inv =
    run-Inv (setup ++ subscribes 1 ∷ subscribes 4 ∷ publishes "lamp" "on" (bool true) ∷ []) none 0

abbrev news : Event
news = record {
  device_id = "lamp";
  capability_id = "on";
  value = bool false;
  revision = 3;
  occurred_at = 0;
}

dispatch-served_example :
    ((dispatch news busy.state.events).mailboxes 1
      ≡ served news (get 1 busy.state.events.subscriptions) (busy.state.events.mailboxes 1))
    × (get 1 (dispatch news busy.state.events).subscriptions
        ≡ kept news (get 1 busy.state.events.subscriptions) (busy.state.events.mailboxes 1))
dispatch-served_example = dispatch-served news busy.state.events 1 busy-Inv.events_inv

abbrev followed : Runtime test_host
followed = run (starts ∷ subscribes 1 ∷ []) empty

followed-Inv : Inv followed.state
followed-Inv = run-Inv (starts ∷ subscribes 1 ∷ []) none 0

followed-started : followed.state.started ≡ true
unfolding run step perform start subscribe ensure_started new
followed-started = refl

stop-terminated_example :
    ((stop followed).0 ≡ ok tt)
    × ((stop followed).1.state.devices ≡ [])
    × ((stop followed).1.state.revision ≡ followed.state.revision)
    × ((stop followed).1.state.events.subscriptions ≡ [])
    × ((stop followed).1.state.topology.subscriptions ≡ [])
    × ((stop followed).1.state.events.mailboxes 1
        ≡ terminated stopped
            (get 1 followed.state.events.subscriptions)
            (followed.state.events.mailboxes 1))
    × ((stop followed).1.state.topology.mailboxes 1
        ≡ terminated stopped
            (get 1 followed.state.topology.subscriptions)
            (followed.state.topology.mailboxes 1))
stop-terminated_example = stop-terminated followed 1 followed-Inv followed-started

-- A store that holds one value for every device.
abbrev bright_store : StateStore test_host
bright_store = record {
  load_device = λ id w. (ok (some (("on", bool true) ∷ [])), w);
  save_device = λ id values w. (ok tt, w + 1);
}

abbrev restarted : Runtime test_host
restarted = run (starts ∷ []) (new (some bright_store) 0)

stored_lamp :
    (load_device {H = test_host} (λ m. restore "lamp" (external m)) "lamp" restarted).0
    ≡ ok (some (("on", bool true) ∷ []))
unfolding run step perform start new load_device
stored_lamp = refl

lamp-registered : (register lamp (some obey) restarted).0 ≡ ok tt
unfolding run step perform start register new ensure_started refuse_existing load_device restore_all
    restore_capability save_device insert_device get insert validate_device validate_capability
    validate_capabilities check_handlers contains validate_capability_value
    lookup_builtin_capability validate_builtin
lamp-registered = refl

read-register_example :
    (read "lamp" "on" (register lamp (some obey) restarted).1).0
    ≡ ok (stored_or_initial on_capability (get {K = String} "on" (("on", bool true) ∷ [])))
read-register_example =
    read-register lamp (some obey) restarted on_capability (some (("on", bool true) ∷ []))
      (inl refl) refl stored_lamp lamp-registered
