-- ===== src/Adapter/Session/Safety.antt =====
-- What a session guarantees to its callers, whatever the order of the steps of its tasks.
use oikade.Prelude.{◌≡◌, refl, subst, String, Option, some, arith}
use oikade.Prelude.Maps.{nat_key, get}
use oikade.Adapter.Session.Ids.{has}
use oikade.Adapter.Session.State.{Session, spawn, Expected}
use oikade.Adapter.Session.Step.{
  Event, step, Reachable, spawned, stepped, start_call, register_call, withdraw_call, wake_call,
  expire_call, abandon_call, ignore_call, submit_call, incoming_frame, matched, sweeping,
  admit_command, complete_command, failing, set_pid, late_failing,
}
use oikade.Adapter.Session.Invariant.{Inv}
use oikade.Adapter.Session.Moves.{some_injective, fail-Inv, late_fail-Inv}
use oikade.Adapter.Session.CallLaws.{
  start-Inv, register-Inv, submit-Inv, withdraw-Inv, wake-Inv, expire-Inv, abandon-Inv, ignore-Inv,
}
use oikade.Adapter.Session.IncomingLaws.{incoming-Inv, match_response-Inv, admit-Inv, complete-Inv}
use oikade.Adapter.Session.Sweep.{sweep-Inv}

spawn-Inv : Inv spawn
unfolding has get
spawn-Inv = record {
  each = λ id. (refl, refl);
  fresh = λ id h. refl;
  few_pending = omega arith;
  few_ignored = omega arith;
  few_running = omega arith;
}

module _ (decode_error : Expected → String → Option String) where
  step-Inv : (e : Event) (s t : Session) → Inv s → step decode_error e s ≡ some t → Inv t
  step-Inv (start_call method) s t inv h = start-Inv s inv method t h
  step-Inv (register_call id) s t inv h = register-Inv s inv t id h
  step-Inv (submit_call encoded is_open id) s t inv h = submit-Inv s inv t id encoded is_open h
  step-Inv (withdraw_call id) s t inv h = withdraw-Inv s inv t id h
  step-Inv (wake_call id) s t inv h = wake-Inv s inv t id decode_error h
  step-Inv (expire_call id) s t inv h = expire-Inv s inv t id h
  step-Inv (abandon_call id) s t inv h = abandon-Inv s inv t id h
  step-Inv (ignore_call id) s t inv h = ignore-Inv s inv t id h
  step-Inv (incoming_frame i) s t inv h = incoming-Inv decode_error s inv i t h
  step-Inv matched s t inv h = match_response-Inv s t inv h
  step-Inv sweeping s t inv h = sweep-Inv s t inv h
  step-Inv (admit_command n is_open) s t inv h = admit-Inv s inv is_open t n h
  step-Inv (complete_command n is_open handled) s t inv h =
      complete-Inv s inv is_open t decode_error n handled h
  step-Inv (failing error) s t inv h = subst Inv (some_injective h) (fail-Inv error s inv)
  step-Inv (late_failing error) s t inv h = late_fail-Inv error s t inv h
  step-Inv (set_pid pid) s t inv h = subst Inv (some_injective h) inv

  -- Whatever the order of the steps of its tasks, a session keeps its pending calls, ignored responses
  -- and running commands within their limits; a call that waits is pending or has been answered; a
  -- response that reached a call has its id; and a call that succeeded returned the body of a response
  -- with its id and its method.
  pub Reachable-Inv : {s : Session} → Reachable decode_error s → Inv s
  Reachable-Inv spawned = spawn-Inv
  Reachable-Inv (stepped {s} {t} e r h) = step-Inv e s t (Reachable-Inv r) h
