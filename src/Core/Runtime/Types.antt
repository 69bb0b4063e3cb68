-- ===== src/Core/Runtime/Types.antt =====
-- crates/oikade-core/src/runtime.rs: the runtime's data. What the runtime does not implement (the
-- clock, tokio's channels, the world behind stores and handlers) is a `Host`.
use oikade.Prelude.{ℕ, String, Bool, Option}
use oikade.Prelude.Result.{Result}
use oikade.Prelude.Maps.{Map}
use oikade.Core.Model.{DeviceId, CapabilityId, ValueKind, Value, ModelError, Capability, Device}

-- The outcome of `mpsc::Sender::try_send`.
pub data SendOutcome : Type 0 where
  sent full closed : SendOutcome

pub record Host : Type 1 where
  -- What stores and command handlers read and change.
  pub World : Type 0
  pub now : World → ℕ
  -- tokio's bounded mpsc channel: `mpsc::channel`, `try_send`, the receiving end's buffer, `close`.
  pub Chan : Type 0 → Type 0
  pub channel : (T : Type 0) → ℕ → Chan T
  pub try_send : (T : Type 0) → T → Chan T → SendOutcome × Chan T
  pub recv : (T : Type 0) → Chan T → Option T × Chan T
  pub close : (T : Type 0) → Chan T → Chan T

-- What a `NotFound` names.
pub data Target : Type 0 where
  device : DeviceId → Target
  capability : DeviceId → CapabilityId → Target

-- `Message` is the text that an error carries.
mutual
  pub data Message : Type 0 where
    model_error : ModelError → Message
    requires_kind : CapabilityId → ValueKind → ValueKind → Message
    integration_returned : RuntimeError → Message
    nested : RuntimeError → Message
    external : String → Message

  pub data RuntimeError : Type 0 where
    stopped already_started slow_consumer invalid_subscription_buffer : RuntimeError
    already_exists : DeviceId → RuntimeError
    not_found : Target → RuntimeError
    not_readable not_writable : DeviceId → CapabilityId → RuntimeError
    invalid_value : Message → RuntimeError
    missing_command_handler : DeviceId → CapabilityId → RuntimeError
    restore : DeviceId → Message → RuntimeError
    persist : DeviceId → CapabilityId → Message → RuntimeError
    command : DeviceId → CapabilityId → Message → RuntimeError

pub record Command : Type 0 where
  pub device_id : DeviceId
  pub capability_id : CapabilityId
  pub value : Value

pub record Event : Type 0 where
  pub device_id : DeviceId
  pub capability_id : CapabilityId
  pub value : Value
  pub revision : ℕ
  pub occurred_at : ℕ

pub record TopologyEvent : Type 0 where
  pub revision : ℕ

pub record DeviceValues : Type 0 where
  pub current : Map CapabilityId Value
  pub persisted : Map CapabilityId Value

-- A channel and the `terminal` cell that a subscription shares with the runtime.
pub record Mailbox (H : Host) (T : Type 0) : Type 0 where
  pub queue : H.Chan T
  pub terminal : Option RuntimeError

-- `SubscriptionState`: the sender and the terminal cell, by the place of their mailbox.
pub record SubscriptionState : Type 0 where
  pub mailbox : ℕ

-- A map of subscriptions, its counter of identifiers, and the mailboxes, which outlive their entry.
pub record Hub (H : Host) (T : Type 0) : Type 0 where
  pub subscriptions : Map ℕ SubscriptionState
  pub next_subscriber : ℕ
  pub mailboxes : ℕ → Mailbox H T

module _ (H : Host) where
  -- The traits `StateStore` and `CommandHandler`; a `BoxError` is its text.
  pub record StateStore : Type 0 where
    pub load_device : DeviceId → H.World → Result String (Option (Map CapabilityId Value)) × H.World
    pub save_device :
        DeviceId → Map CapabilityId Value → H.World → Result String (Unit {0}) × H.World

  abbrev pub CommandHandler : Type 0
  CommandHandler = Command → H.World → Result String Value × H.World

  -- `arc` is the identity of the `Arc` that holds the device.
  pub record RegisteredDevice : Type 0 where
    pub arc : ℕ
    pub definition : Device
    pub capabilities : Map CapabilityId Capability
    pub values : DeviceValues
    pub handler : Option CommandHandler

  pub record RuntimeState : Type 0 where
    pub started : Bool
    pub devices : Map DeviceId RegisteredDevice
    pub events : Hub H Event
    pub topology : Hub H TopologyEvent
    pub revision : ℕ
    pub next_arc : ℕ

  -- The runtime and the world around it.
  pub record Runtime : Type 0 where
    pub state : RuntimeState
    pub store : Option StateStore
    pub world : H.World
