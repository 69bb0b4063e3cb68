-- ===== src/Adapter/Session/Examples.antt =====
-- The theorems about sessions at concrete ones.
use oikade.Prelude.{◌≡◌, refl, String, true, Option, none, some, [], ◌∷◌}
use oikade.Prelude.Result.{ok, err}
use oikade.Prelude.Maps.{get, insert, nat_key}
use oikade.Adapter.Wire.{Envelope, FrameKind}
use oikade.Adapter.Session.Ids.{has}
use oikade.Adapter.Session.State.{
  Session, spawn, sweep, Call, Phase, waiting, expiring, empty, sent, fail, send_all, Expected,
}
use oikade.Adapter.Session.Calls.{start, register, submit, wake, expire}
use oikade.Adapter.Session.Incoming.{frame, incoming, unknown_request}
use oikade.Adapter.Session.Step.{
  Reachable, spawned, stepped, run_step, start_call, register_call, submit_call, expire_call,
  incoming_frame, failing, abandon_call, matched,
}
use oikade.Adapter.Session.Invariant.{Inv}
use oikade.Adapter.Session.Safety.{Reachable-Inv}
use oikade.Adapter.Session.Progress.{sweep-wakes, late_response-fails, failure_of, Returns}

-- Every body decodes.
abbrev decode_error : Expected → String → Option String
decode_error expected body = none

abbrev hello_frame : Envelope
hello_frame = record {
  version = 1;
  kind = FrameKind.notification;
  id = 0;
  method = "hello";
  body = some "{}";
  error = none;
}

abbrev answer : Envelope
answer = record {
  version = 1;
  kind = FrameKind.response;
  id = 1;
  method = "health";
  body = some "{}";
  error = none;
}

-- The adapter has said hello; the call is registered, and waits.
abbrev greeted : Session
greeted = record spawn { hello = some "{}" }

abbrev call_at : Phase → Call
call_at p = record { method = "health"; phase = p; receiver = empty }

abbrev calling : Phase → Session
calling p = record greeted { next_id = 1; calls = (1, call_at p) ∷ [] }

abbrev outgoing_frame : Envelope
outgoing_frame = record {
  version = 1;
  kind = FrameKind.request;
  id = 1;
  method = "health";
  body = some "{}";
  error = none;
}

abbrev called : Phase → Session
called p = record (calling p) { pending = 1 ∷ []; outbound = outgoing_frame ∷ [] }

greeted-Reachable : Reachable decode_error greeted
unfolding incoming
greeted-Reachable = stepped (incoming_frame (frame hello_frame)) spawned refl

waiting-Reachable : Reachable decode_error (called waiting)
unfolding start register submit insert get
waiting-Reachable =
    stepped (submit_call (ok "{}") true 1)
      (stepped (register_call 1) (stepped (start_call "health") greeted-Reachable refl) refl) refl

Reachable-Inv_example : Inv (called waiting)
Reachable-Inv_example = Reachable-Inv decode_error waiting-Reachable

-- The session fails while the call waits.
abbrev failed : Session
failed = record (called waiting) { failure = some "gone"; failing = "gone" ∷ [] }

failed-Reachable : Reachable decode_error failed
unfolding fail
failed-Reachable = stepped (failing "gone") waiting-Reachable refl

abbrev swept : Session
swept = record failed {
  failing = [];
  pending = [];
  calls = (1, record { method = "health"; phase = waiting; receiver = sent (err "gone") }) ∷ [];
}

failed-swept : sweep failed ≡ some swept
unfolding sweep send_all insert get
failed-swept = refl

swept-call :
    get 1 swept.calls
    ≡ some (record { method = "health"; phase = waiting; receiver = sent (err "gone") })
unfolding get
swept-call = refl

sweep-wakes_example : Returns 1 "health" (sent (err "gone")) (wake decode_error 1 swept)
sweep-wakes_example =
    sweep-wakes decode_error swept 1 "health" (sent (err "gone")) failed-Reachable failed-swept
      swept-call

-- The deadline of the call is over.
expiring-Reachable : Reachable decode_error (called expiring)
unfolding expire get insert
expiring-Reachable = stepped (expire_call 1) waiting-Reachable refl

expiring-call : get 1 (called expiring).calls ≡ some (call_at expiring)
unfolding get
expiring-call = refl

expiring-pending : has 1 (called expiring).pending ≡ true
unfolding has
expiring-pending = refl

late_response-fails_example :
    failure_of decode_error (
      run_step decode_error
        (abandon_call 1 ∷ incoming_frame (frame answer) ∷ matched ∷ [])
        (some (called expiring)))
    ≡ some unknown_request
late_response-fails_example =
    late_response-fails decode_error answer "health" "{}" empty expiring-Reachable expiring-call
      expiring-pending refl refl refl refl
