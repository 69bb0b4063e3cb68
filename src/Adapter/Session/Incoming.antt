-- ===== src/Adapter/Session/Incoming.antt =====
-- crates/oikade-adapter-host/src/session.rs: `read_loop`, `dispatch_command` and `respond`.
use text.Mathlib.Text.{◌==◌ as str_eq}
use oikade.Prelude.{
  ℕ, zero, suc, String, Bool, true, false, not, ◌&&◌, ◌||◌, Option, none, some, List, [], ◌∷◌, ◌++◌,
  ltb, length, if◌then◌else◌,
}
use oikade.Prelude.Result.{Result, ok, err}
use oikade.Adapter.Wire.{
  Envelope, FrameKind, ProtocolError, request, response, notification, version,
}
use oikade.Adapter.Session.Ids.{has, erase}
use oikade.Adapter.Session.State.{
  Session, Reader, reading, stopped, matching, sent, max_inbound_calls, at_call, receive, fail,
  Expected, hello_body, command_body,
}

abbrev pub method_hello : String
method_hello = "hello"

abbrev pub method_command : String
method_command = "command"

-- `read_loop` ends with a failure.
abbrev pub stop_reading : String → Session → Session
stop_reading error s = record (fail error s) { reader = stopped }

abbrev pub received : Option String → Bool
received none = false
received (some hello) = true

-- What the decoder returns: a frame, the end of the stream, or an error.
pub data Incoming : Type 0 where
  frame : Envelope → Incoming
  end_of_stream : Incoming
  read_failure : String → Incoming

abbrev pub duplicate : String
duplicate = "adapter sent an unsupported or duplicate notification"

abbrev pub hello_required : String
hello_required = "adapter hello body is required"

abbrev pub before_hello : String
before_hello = "adapter sent traffic before hello or an unsupported request"

abbrev pub closed_transport : String
closed_transport = "adapter closed the RPC transport"

-- The text of this error leaves out the id.
abbrev pub unknown_request : String
unknown_request = "adapter response references unknown request"

-- `decode_body` for `Hello`: its error, if it has one. The hello is kept as its text.
module _ (decode_error : Expected → String → Option String) where
  abbrev pub take_hello : Option String → Session → Session
  take_hello none s = stop_reading hello_required s
  take_hello (some body) s = elim (decode_error hello_body body) [
    | none ↦ record s { hello = some body }
    | some e ↦ stop_reading e s
  ]

  abbrev pub take_response : Envelope → Session → Session
  take_response e s =
      if has e.id s.ignored
      then record s { ignored = erase e.id s.ignored }
      else record s { reader = matching e }

  abbrev pub unexpected : Session → Session
  unexpected = stop_reading before_hello

  abbrev pub take_frame : FrameKind → Envelope → Session → Session
  take_frame notification e s =
      if not (str_eq e.method method_hello) || received s.hello
      then stop_reading duplicate s
      else take_hello e.body s
  take_frame response e s = if received s.hello then take_response e s else unexpected s
  take_frame request e s =
      if received s.hello && str_eq e.method method_command
      then record s { spawned = s.spawned ++ e ∷ [] }
      else unexpected s

  abbrev pub take_incoming : Incoming → Session → Session
  take_incoming (frame e) s = take_frame e.kind e s
  take_incoming end_of_stream s = stop_reading closed_transport s
  take_incoming (read_failure e) s = stop_reading e s

  abbrev pub incoming_reader : Reader → Incoming → Session → Option Session
  incoming_reader reading i s = some (take_incoming i s)
  incoming_reader stopped i s = none
  incoming_reader (matching e) i s = none

  unfoldable pub incoming : Incoming → Session → Option Session
  incoming i s = incoming_reader s.reader i s

-- The response goes to the call that is `pending` under its id.
abbrev pub match_reader : Reader → Session → Option Session
match_reader (matching e) s =
    if has e.id s.pending
    then some (
        at_call (receive (sent (ok e))) e.id
          (record s { pending = erase e.id s.pending; reader = reading }))
    else some (stop_reading unknown_request s)
match_reader reading s = none
match_reader stopped s = none

unfoldable pub match_response : Session → Option Session
match_response s = match_reader s.reader s

-- What is sent back for a command: the text of the body, or an error.
abbrev pub reply : Envelope → Option String → Option ProtocolError → Envelope
reply e body error = record {
  version = version;
  kind = response;
  id = e.id;
  method = e.method;
  body = body;
  error = error;
}

-- `respond`, with the result of `encode_body`; a closed channel is ignored.
abbrev pub respond :
    Bool → Envelope → Result ProtocolError (Result String String) → Session → Session
respond true e (err error) s = record s { outbound = reply e none (some error) ∷ s.outbound }
respond true e (ok (ok body)) s = record s { outbound = reply e (some body) none ∷ s.outbound }
respond false e (err error) s = s
respond false e (ok (ok body)) s = s
respond is_open e (ok (err error)) s = fail error s

abbrev pub busy : ProtocolError
busy = record { code = "busy"; message = "adapter command concurrency limit reached" }

abbrev pub put_first :
    Envelope → Option (Envelope × List Envelope) → Option (Envelope × List Envelope)
put_first e none = none
put_first e (some (x, es)) = some (x, e ∷ es)

-- A task of a list, and the others.
unfoldable pub pick : ℕ → List Envelope → Option (Envelope × List Envelope)
pick n [] = none
pick zero (e ∷ es) = some (e, es)
pick (suc n) (e ∷ es) = put_first e (pick n es)

abbrev pub admit_picked : Bool → Option (Envelope × List Envelope) → Session → Option Session
admit_picked is_open none s = none
admit_picked is_open (some (e, es)) s =
    if ltb (length s.running) max_inbound_calls
    then some (record s { spawned = es; running = e ∷ s.running })
    else some (respond is_open e (err busy) (record s { spawned = es }))

-- A spawned command asks for a permit.
unfoldable pub admit : ℕ → Bool → Session → Option Session
unfolding pick
admit n is_open s = admit_picked is_open (pick n s.spawned) s

abbrev pub invalid_request : String → ProtocolError
invalid_request message = record { code = "invalid_request"; message = message }

-- What is answered, where `handled` is the result of the handler.
abbrev pub command_result :
    (Expected → String → Option String)
    → Option String
    → Result ProtocolError (Result String String)
    → Result ProtocolError (Result String String)
command_result decode_error none handled = err (invalid_request "adapter command body is required")
command_result decode_error (some body) handled = elim (decode_error command_body body) [
  | none ↦ handled
  | some e ↦ err (invalid_request e)
]

abbrev pub complete_picked :
    (Expected → String → Option String)
    → Bool
    → Result ProtocolError (Result String String)
    → Option (Envelope × List Envelope)
    → Session
    → Option Session
complete_picked decode_error is_open handled none s = none
complete_picked decode_error is_open handled (some (e, es)) s =
    some
      (respond is_open e (command_result decode_error e.body handled) (record s { running = es }))

-- A command that holds a permit is answered, and gives the permit back.
unfoldable pub complete :
    (Expected → String → Option String)
    → ℕ
    → Bool
    → Result ProtocolError (Result String String)
    → Session
    → Option Session
unfolding pick
complete decode_error n is_open handled s =
    complete_picked decode_error is_open handled (pick n s.running) s
