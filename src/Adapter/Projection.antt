-- ===== src/Adapter/Projection.antt =====
-- crates/oikade-adapter-host/src/projection.rs: `sync_request`, the keys of a projection,
-- `contains`, and the command handler that a session calls.
use oikade.Prelude.{ℕ, ◌+◌, String, Bool, not, Option, none, some, List, [], ◌∷◌, map}
use oikade.Prelude.Result.{Result, ok, err, fail_if, map_err, ok_or, ◌>>=◌, ◌>>◌}
use oikade.Prelude.Maps.{Map, get, insert, string_key}
use oikade.Core.Model.{CapabilityId, Value, Capability, Device, kind_as_str, new_identifier}
use oikade.Core.Runtime.Types.{
  Host, RuntimeError, stopped, not_found, not_writable, invalid_value, Event, Command, Runtime,
}
use oikade.Core.Runtime.Ops.{Snapshot, DeviceState, write_value, is_none}
use oikade.Adapter.Wire.{
  ApiCapability, ApiDevice, ApiDeviceState, ApiCapabilityState, SyncRequest, ApiProjection,
  CommandRequest, CommandResponse,
}
use oikade.Adapter.Convert.{value_from_api, value_to_api}

pub data SyncError : Type 0 where
  runtime_stopped : SyncError
  missing_state : String → CapabilityId → SyncError

abbrev api_capability : Capability → ApiCapability
api_capability c = record {
  id = c.id;
  capability_type = c.capability_type;
  name = c.name;
  kind = kind_as_str c.kind;
  permissions = record {
    read = c.permissions.read;
    write = c.permissions.write;
    observe = c.permissions.observe;
  };
}

-- The inner loop of `sync_request`.
unfoldable pub sync_values :
    DeviceState → List Capability → Result SyncError (List ApiCapabilityState)
sync_values state [] = ok []
sync_values state (c ∷ cs) = do
  value ← ok_or (get c.id state.values) (missing_state state.device.id c.id)
  values ← sync_values state cs
  ok (record { capability_id = c.id; value = value_to_api value } ∷ values)

abbrev api_device : Device → ApiDevice
api_device d = record {
  id = d.id;
  name = d.name;
  manufacturer = d.manufacturer;
  model = d.model;
  capabilities = map api_capability d.capabilities;
}

unfoldable pub sync_devices : List DeviceState → Result SyncError (List ApiDeviceState)
unfolding sync_values
sync_devices [] = ok []
sync_devices (state ∷ states) = do
  values ← sync_values state state.device.capabilities
  devices ← sync_devices states
  ok (record { device = api_device state.device; values = values } ∷ devices)

unfoldable pub sync_request : Snapshot → ℕ → Result SyncError SyncRequest
unfolding sync_devices
sync_request snapshot generation = do
  fail_if (not snapshot.started) runtime_stopped
  devices ← sync_devices snapshot.devices
  ok (record { generation = generation; revision = snapshot.revision; devices = devices })

-- `BTreeSet<String>`, and `BTreeMap<String, BTreeSet<String>>`
abbrev pub Keys : Type 0
Keys = Map String (Unit {0})

abbrev pub ProjectionKeys : Type 0
ProjectionKeys = Map String Keys

abbrev pub has : String → Keys → Bool
has k keys = not (is_none (get k keys))

abbrev pub keys_or_default : Option Keys → Keys
keys_or_default none = []
keys_or_default (some keys) = keys

-- `contains` on the identifiers of an event.
unfoldable pub holds : String → String → ProjectionKeys → Bool
holds device capability keys = has capability (keys_or_default (get device keys))

abbrev pub contains : ProjectionKeys → Event → Bool
contains keys event = holds event.device_id event.capability_id keys

-- `projection_keys`
abbrev collect : List ApiCapability → Keys
collect [] = []
collect (c ∷ cs) = insert c.id tt (collect cs)

unfoldable pub projection_keys : List ApiDeviceState → ProjectionKeys → ProjectionKeys
projection_keys [] keys = keys
projection_keys (state ∷ states) keys =
    projection_keys states (insert state.device.id (collect state.device.capabilities) keys)

pub data AcceptError : Type 0 where
  unknown_device : ℕ → String → AcceptError
  unknown_capability duplicate_capability : ℕ → String → String → AcceptError

-- The loop of `accepted_projection_keys`.
unfoldable pub accept :
    ℕ → List ApiProjection → ProjectionKeys → ProjectionKeys → Result AcceptError ProjectionKeys
accept index [] available accepted = ok accepted
accept index (p ∷ ps) available accepted = do
  capabilities ← ok_or (get p.device_id available) (unknown_device index p.device_id)
  fail_if (not (has p.capability_id capabilities))
      (unknown_capability index p.device_id p.capability_id)
  fail_if (has p.capability_id (keys_or_default (get p.device_id accepted)))
      (duplicate_capability index p.device_id p.capability_id)
  accept (index + 1) ps available (
      insert p.device_id (insert p.capability_id tt (keys_or_default (get p.device_id accepted)))
        accepted)

unfoldable pub accepted_projection_keys :
    Option (List ApiProjection) → ProjectionKeys → Result AcceptError ProjectionKeys
unfolding accept
accepted_projection_keys none available = ok available
accepted_projection_keys (some projections) available = accept 0 projections available []

-- The codes of the `ProtocolError` that `handle` returns.
pub data ErrorCode : Type 0 where
  code_invalid_value code_not_found code_not_writable code_unavailable code_command_failed :
      ErrorCode

unfoldable pub runtime_error : RuntimeError → ErrorCode
runtime_error (not_found target) = code_not_found
runtime_error (not_writable device capability) = code_not_writable
runtime_error (invalid_value message) = code_invalid_value
runtime_error stopped = code_unavailable
runtime_error _ = code_command_failed

abbrev with_code : {E A : Type 0} → ErrorCode → Result E A → Result ErrorCode A
with_code code x = map_err (λ _. code) x

abbrev pub parse_command : CommandRequest → Result ErrorCode Command
parse_command request = do
  value ← with_code code_invalid_value (value_from_api request.value)
  device_id ← with_code code_not_found (new_identifier request.device_id)
  capability_id ← with_code code_not_found (new_identifier request.capability_id)
  ok (record { device_id = device_id; capability_id = capability_id; value = value })

module _ {H : Host} where
  abbrev pub answer :
      Result RuntimeError Value × Runtime H → Result ErrorCode CommandResponse × Runtime H
  answer (ok effective, r) = (ok (record { value = value_to_api effective }), r)
  answer (err e, r) = (err (runtime_error e), r)

  abbrev pub submit :
      Result ErrorCode Command → Runtime H → Result ErrorCode CommandResponse × Runtime H
  submit (err code) r = (err code, r)
  submit (ok command) r = answer (write_value command r)

  -- `RuntimeCommandHandler::handle`
  unfoldable pub handle : CommandRequest → Runtime H → Result ErrorCode CommandResponse × Runtime H
  handle request r = submit (parse_command request) r
