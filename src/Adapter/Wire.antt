-- ===== src/Adapter/Wire.antt =====
-- crates/oikade-adapter-api/src/v1.rs: the messages of the adapter protocol. A body is its JSON text.
use oikade.Prelude.{ℕ, String, Bool, Option, List}
use oikade.Prelude.Float.{F64}
use oikade.Prelude.Int.{ℤ}

abbrev pub version : ℕ
version = 1

pub data FrameKind : Type 0 where
  request response notification : FrameKind

pub record ProtocolError : Type 0 where
  pub code : String
  pub message : String

pub record Envelope : Type 0 where
  pub version : ℕ
  pub kind : FrameKind
  pub id : ℕ
  pub method : String
  pub body : Option String
  pub error : Option ProtocolError

-- `Permissions`, `Capability`, `Device`, `Value`, `CapabilityState` and `DeviceState` of v1.rs.
pub record ApiPermissions : Type 0 where
  pub read : Bool
  pub write : Bool
  pub observe : Bool

pub record ApiCapability : Type 0 where
  pub id : String
  pub capability_type : String
  pub name : String
  pub kind : String
  pub permissions : ApiPermissions

pub record ApiDevice : Type 0 where
  pub id : String
  pub name : String
  pub manufacturer : String
  pub model : String
  pub capabilities : List ApiCapability

pub record ApiValue : Type 0 where
  pub kind : String
  pub bool : Option Bool
  pub integer : Option ℤ
  pub number : Option F64
  pub string : Option String

pub record ApiCapabilityState : Type 0 where
  pub capability_id : String
  pub value : ApiValue

pub record ApiDeviceState : Type 0 where
  pub device : ApiDevice
  pub values : List ApiCapabilityState

pub record SyncRequest : Type 0 where
  pub generation : ℕ
  pub revision : ℕ
  pub devices : List ApiDeviceState

-- `Projection` of v1.rs: a capability that the adapter exposes.
pub record ApiProjection : Type 0 where
  pub device_id : String
  pub capability_id : String

pub record CommandRequest : Type 0 where
  pub device_id : String
  pub capability_id : String
  pub value : ApiValue

pub record CommandResponse : Type 0 where
  pub value : ApiValue
