-- ===== src/Adapter/Session/Step.antt =====
-- The steps of a session, and the sessions that they lead to.
use oikade.Prelude.{ℕ, ◌≡◌, String, Bool, Option, none, some, List, [], ◌∷◌}
use oikade.Prelude.Result.{Result}
use oikade.Adapter.Wire.{ProtocolError}
use oikade.Adapter.Session.State.{Session, spawn, sweep, Expected}
use oikade.Adapter.Session.Calls.{start, register, submit, withdraw, wake, expire, abandon, ignore}
use oikade.Adapter.Session.Incoming.{Incoming, incoming, match_response, admit, complete}
use oikade.Adapter.Session.State

pub data Event : Type 0 where
  start_call : String → Event
  register_call withdraw_call wake_call expire_call abandon_call ignore_call : ℕ → Event
  submit_call : Result String String → Bool → ℕ → Event
  incoming_frame : Incoming → Event
  matched sweeping : Event
  admit_command : ℕ → Bool → Event
  complete_command : ℕ → Bool → Result ProtocolError (Result String String) → Event
  -- The task that writes, and the one that watches the process, may fail the session.
  failing late_failing : String → Event
  set_pid : ℕ → Event

module _ (decode_error : Expected → String → Option String) where
  abbrev pub step : Event → Session → Option Session
  step (start_call method) = start method
  step (register_call id) = register id
  step (submit_call encoded is_open id) = submit encoded is_open id
  step (withdraw_call id) = withdraw id
  step (wake_call id) = wake decode_error id
  step (expire_call id) = expire id
  step (abandon_call id) = abandon id
  step (ignore_call id) = ignore id
  step (incoming_frame i) = incoming decode_error i
  step matched = match_response
  step sweeping = sweep
  step (admit_command n is_open) = admit n is_open
  step (complete_command n is_open handled) = complete decode_error n is_open handled
  step (failing error) = λ s. some (State.fail error s)
  step (late_failing error) = State.late_fail error
  step (set_pid pid) = λ s. some (record s { pid = pid })

  -- A session that can come about, whatever the order of the steps of its tasks.
  pub data Reachable : Session → Type 0 where
    spawned : Reachable spawn
    stepped : {s t : Session} (e : Event) → Reachable s → step e s ≡ some t → Reachable t

  abbrev pub run_step : List Event → Option Session → Option Session
  run_step [] s = s
  run_step (e ∷ events) none = none
  run_step (e ∷ events) (some s) = run_step events (step e s)
