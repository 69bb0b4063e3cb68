-- ===== src/Adapter/Examples.antt =====
-- The theorems about the adapter protocol at concrete messages.
use oikade.Prelude.{◌≡◌, refl, ap, arith, true, String, none, some, List, [], ◌∷◌}
use oikade.Prelude.Result.{Result, ok, err, ok_injective, err_ne_ok}
use oikade.Prelude.Maps.{get, insert, string_key}
use oikade.Prelude.Int.{pos}
use oikade.Core.Model.{Value, bool, integer, validate_value, value_eq, new_identifier}
use oikade.Core.Runtime.Ops.{read, write_value}
use oikade.Core.Runtime.Lookup.{lookup, ensure_started}
use oikade.Core.Runtime.Ops.{new}
use oikade.Core.Runtime.Types.{Command, RuntimeError, Runtime}
use oikade.Prelude.Text.{as_bytes}
use oikade.Core.Runtime.Examples.{
  test_host, empty, ready, ready-Inv, ready-IsReadable, write_value-ok,
}
use oikade.Adapter.Wire.{ApiValue, ApiProjection, CommandRequest}
use oikade.Adapter.Codec.{read_line}
use oikade.Adapter.Framing.{forget, next_line, read_line-next_line, IsChunked}
use oikade.Adapter.Strict.{
  Visit, map, member, no_members, seq, element, no_elements, u64, strict, duplicate_key, is_key,
}
use oikade.Adapter.StrictLaws.{Checked, strict-Checked}
use oikade.Adapter.Convert.{value_from_api, value_to_api, pick}
use oikade.Adapter.ConvertLaws.{value_from_api-value_to_api, value_to_api-value_from_api}
use oikade.Adapter.Projection.{
  ProjectionKeys, holds, accepted_projection_keys, handle, parse_command, code_unavailable, answer,
  runtime_error,
}
use oikade.Adapter.Accepted.{listed, accepted_projection_keys-listed}
use oikade.Adapter.Handle.{handle-err, read-handle}

valid_seven : validate_value (integer (pos 7)) ≡ ok tt
unfolding validate_value
valid_seven = refl

value_from_api-value_to_api_example :
    value_from_api (value_to_api (integer (pos 7))) ≡ ok (integer (pos 7))
value_from_api-value_to_api_example = value_from_api-value_to_api (integer (pos 7)) valid_seven

abbrev api_true : ApiValue
api_true = record { kind = "bool"; bool = some true; integer = none; number = none; string = none }

parsed_true : value_from_api api_true ≡ ok (bool true)
unfolding value_from_api pick validate_value
parsed_true = refl

value_to_api-value_from_api_example : value_to_api (bool true) ≡ api_true
value_to_api-value_from_api_example = value_to_api-value_from_api api_true (bool true) parsed_true

abbrev available : ProjectionKeys
available = ("lamp", ("level", tt) ∷ ("on", tt) ∷ []) ∷ []

abbrev reported : List ApiProjection
reported = record { device_id = "lamp"; capability_id = "on" } ∷ []

accepted_one :
    accepted_projection_keys (some reported) available ≡ ok (("lamp", ("on", tt) ∷ []) ∷ [])
unfolding accepted_projection_keys get insert
accepted_one = refl

accepted_projection_keys-listed_example :
    (holds "lamp" "on" (("lamp", ("on", tt) ∷ []) ∷ []) ≡ listed "lamp" "on" reported)
    × (holds "lamp" "on" (("lamp", ("on", tt) ∷ []) ∷ []) ≡ true
        → holds "lamp" "on" available ≡ true)
accepted_projection_keys-listed_example =
    accepted_projection_keys-listed reported available (("lamp", ("on", tt) ∷ []) ∷ []) "lamp" "on"
      accepted_one

abbrev command : CommandRequest
command = record { device_id = "lamp"; capability_id = "on"; value = api_true }

refused_command : (handle {H = test_host} command empty).0 ≡ err code_unavailable
unfolding handle value_from_api pick validate_value new_identifier as_bytes write_value lookup
    ensure_started new runtime_error
refused_command = refl

handle-err_example : (handle {H = test_host} command empty).1.state ≡ empty.state
handle-err_example = handle-err command empty code_unavailable refused_command

abbrev lamp_on : Command
lamp_on = record { device_id = "lamp"; capability_id = "on"; value = bool true }

parsed_command : parse_command command ≡ ok lamp_on
unfolding value_from_api pick validate_value new_identifier as_bytes
parsed_command = refl

answer-ok_true :
    (out : Result RuntimeError Value × Runtime test_host)
    → out.0 ≡ ok (bool true)
    → (answer out).0 ≡ ok (record { value = api_true })
unfolding value_to_api
answer-ok_true (ok v, r) h =
    ap (λ (x : Value). ok (record { value = value_to_api x })) (ok_injective h)
answer-ok_true (err e, r) h = absurd (err_ne_ok h)

answered : (handle {H = test_host} command ready).0 ≡ ok (record { value = api_true })
unfolding handle
answered = rw parsed_command (answer-ok_true (write_value lamp_on ready) write_value-ok)

read-handle_example :
    (v w : Value) × (api_true ≡ value_to_api v)
    × ((read "lamp" "on" (handle {H = test_host} command ready).1).0 ≡ ok w)
    × (value_eq w v ≡ true)
read-handle_example =
    read-handle command lamp_on ready (record { value = api_true }) ready-Inv parsed_command
      ready-IsReadable answered

-- Two lines in three chunks.
two_lines : IsChunked ((1 ∷ 2 ∷ []) ∷ (3 ∷ 10 ∷ 4 ∷ []) ∷ (10 ∷ []) ∷ [])
two_lines = ((λ h. cc), ((λ h. cc), ((λ h. cc), tt)))

read_line-next_line_example :
    forget (read_line [] ((1 ∷ 2 ∷ []) ∷ (3 ∷ 10 ∷ 4 ∷ []) ∷ (10 ∷ []) ∷ []))
    ≡ next_line [] (1 ∷ 2 ∷ 3 ∷ 10 ∷ 4 ∷ 10 ∷ [])
read_line-next_line_example =
    read_line-next_line [] ((1 ∷ 2 ∷ []) ∷ (3 ∷ 10 ∷ 4 ∷ []) ∷ (10 ∷ []) ∷ []) two_lines
      (omega arith)

-- `{"a": {"b": 1}, "c": [2]}`, and the same with `a` for `c`.
abbrev nested : String → Visit
nested name = map (
    member "a" (map (member "b" (u64 1) no_members))
      (member name (seq (element (u64 2) no_elements)) no_members))

strict-Checked_example : Checked (nested "c") (strict (nested "c"))
strict-Checked_example = strict-Checked (nested "c")

refused_duplicate : strict (nested "a") ≡ err duplicate_key
unfolding strict is_key
refused_duplicate = refl
