-- ===== src/Core/Runtime/Ops/Lifecycle.antt =====
-- crates/oikade-core/src/runtime.rs: `new`, `start`, `stop`, `subscribe`, `subscribe_topology`,
-- `snapshot`; and `cancel` of runtime/subscription.rs.
use oikade.Prelude.{
  ℕ, Bool, true, false, not, ◌&&◌, Option, none, List, [], map, leb, length, if◌then◌else◌,
}
use oikade.Prelude.Result.{ok}
use oikade.Prelude.Maps.{Map}
use oikade.Core.Model.{DeviceId, CapabilityId, Value, Device}
use oikade.Core.Runtime.Types.{
  Host, stopped, already_started, invalid_subscription_buffer, Event, TopologyEvent, Hub,
  StateStore, RegisteredDevice, RuntimeState, Runtime,
}
use oikade.Core.Runtime.Exec.{Exec, modify, raise_if, ◌>>◌}
use oikade.Core.Runtime.Hub.{max_subscription_buffer, close_all, add_subscription, cancel, recv}
use oikade.Core.Runtime.Lookup.{ensure_started}

-- `!(1..=MAX_SUBSCRIPTION_BUFFER).contains(&buffer)`
abbrev pub bad_buffer : ℕ → Bool
bad_buffer buffer = not (leb 1 buffer && leb buffer max_subscription_buffer)

module _ {H : Host} where
  -- No place of `mailboxes` is in use.
  unfoldable pub empty_hub : (T : Type 0) → Hub H T
  empty_hub T = record {
    subscriptions = [];
    next_subscriber = 0;
    mailboxes = λ _. record { queue = H.channel T 1; terminal = none };
  }

  unfoldable pub new : Option (StateStore H) → H.World → Runtime H
  unfolding empty_hub
  new store world = record {
    state = record {
      started = false;
      devices = [];
      events = empty_hub Event;
      topology = empty_hub TopologyEvent;
      revision = 0;
      next_arc = 0;
    };
    store = store;
    world = world;
  }

  unfoldable pub start : Exec H (Unit {0})
  start = do
    λ r. raise_if r.state.started already_started r
    modify λ state. record state { started = true }

  abbrev stopped_state : RuntimeState H → RuntimeState H
  stopped_state state = record state {
    started = false;
    devices = [];
    events = close_all stopped state.events;
    topology = close_all stopped state.topology;
  }

  unfoldable pub stop : Exec H (Unit {0})
  stop = modify λ state. if state.started then stopped_state state else state

  abbrev pub open_subscription : ℕ → Exec H ℕ
  open_subscription buffer r =
      let (id, hub) = add_subscription buffer r.state.events in
      (ok id, record r { state = record r.state { events = hub } })

  unfoldable pub subscribe : ℕ → Exec H ℕ
  subscribe buffer = do
    raise_if (bad_buffer buffer) invalid_subscription_buffer
    ensure_started
    open_subscription buffer

  abbrev pub open_topology : ℕ → Exec H ℕ
  open_topology buffer r =
      let (id, hub) = add_subscription buffer r.state.topology in
      (ok id, record r { state = record r.state { topology = hub } })

  unfoldable pub subscribe_topology : ℕ → Exec H ℕ
  subscribe_topology buffer = do
    raise_if (bad_buffer buffer) invalid_subscription_buffer
    ensure_started
    open_topology buffer

  -- `Subscription::recv`, when it need not wait: the oldest event in the buffer, if there is one.
  unfoldable pub receive : ℕ → Exec H (Option Event)
  receive id r =
      let (event, hub) = recv id r.state.events in
      (ok event, record r { state = record r.state { events = hub } })

  unfoldable pub receive_topology : ℕ → Exec H (Option TopologyEvent)
  receive_topology id r =
      let (event, hub) = recv id r.state.topology in
      (ok event, record r { state = record r.state { topology = hub } })

  unfoldable pub cancel_events : ℕ → Exec H (Unit {0})
  cancel_events id = modify λ state. record state { events = cancel id state.events }

  unfoldable pub cancel_topology : ℕ → Exec H (Unit {0})
  cancel_topology id = modify λ state. record state { topology = cancel id state.topology }

pub record DeviceState : Type 0 where
  pub device : Device
  pub values : Map CapabilityId Value

pub record Snapshot : Type 0 where
  pub started : Bool
  pub revision : ℕ
  pub devices : List DeviceState
  pub subscriptions : ℕ

module _ {H : Host} where
  unfoldable pub device_state : DeviceId × RegisteredDevice H → DeviceState
  device_state (id, registered) = record {
    device = registered.definition;
    values = registered.values.current;
  }

  unfoldable pub snapshot : RuntimeState H → Snapshot
  unfolding device_state
  snapshot state = record {
    started = state.started;
    revision = state.revision;
    devices = map device_state state.devices;
    subscriptions = length state.events.subscriptions;
  }
