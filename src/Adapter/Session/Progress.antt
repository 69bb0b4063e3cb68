-- ===== src/Adapter/Session/Progress.antt =====
-- Calls that are answered when the session fails, and the response to a call that has timed out.
use text.Mathlib.Text.{◌==◌ as str_eq}
use oikade.Prelude.{
  ℕ, ◌≡◌, refl, sym, ap, subst, ◌∙◌, String, Bool, true, false, Option, none, some, List, [], ◌∷◌,
  ==_iff, if◌then◌else◌,
}
use oikade.Prelude.Result.{Result, ok, err}
use oikade.Prelude.Maps.{nat_key, get}
use oikade.Adapter.Wire.{Envelope, FrameKind}
use oikade.Adapter.Session.Ids.{has, erase, has-erase}
use oikade.Adapter.Session.State.{
  Session, SessionError, invalid, finished, fail, sweep, sweep_first, waiting, expiring, reading,
  Receiver, empty, dropped, sent, at_call, move_to, ignoring, matching, Expected,
}
use oikade.Adapter.Session.Calls.{
  wake, wake_phase, outcome, finish, wrong_method_error, abandon, on_found, abandon_phase,
}
use oikade.Adapter.Session.Incoming.{incoming, match_response, unknown_request, frame, stop_reading}
use oikade.Adapter.Session.Step.{
  Reachable, stepped, run_step, abandon_call, incoming_frame, matched, sweeping,
}
use oikade.Adapter.Session.Invariant.{Answerable, Inv}
use oikade.Adapter.Session.Moves.{some_injective, none_ne_some, entry-of}
use oikade.Adapter.Session.IncomingLaws.{true-ne-false}
use oikade.Adapter.Session.CallLaws.{fail-calls}
use oikade.Adapter.Session.Sweep.{get-update_call}
use oikade.Adapter.Session.Safety.{Reachable-Inv}

if-enabled : (b : Bool) (x y : Session) → (u : Session) × ((if b then some x else some y) ≡ some u)
if-enabled true x y = (x, refl)
if-enabled false x y = (y, refl)

-- A call that has returned.
abbrev pub Returned : ℕ → String → Receiver → Session → Type 0
Returned id m r u =
    (o : Result SessionError String) × (get id u.calls
      ≡ some (record { method = m; phase = finished o; receiver = r }))

-- The step of a call after which it has returned.
abbrev pub Returns : ℕ → String → Receiver → Option Session → Type 0
Returns id m r x = (u : Session) × (x ≡ some u) × Returned id m r u

if-Returns :
    (b : Bool) (x y : Session) (id : ℕ) (m : String) (r : Receiver)
    → Returned id m r x
    → Returned id m r y
    → Returns id m r (if b then some x else some y)
if-Returns true x y id m r p q = (x, refl, p)
if-Returns false x y id m r p q = (y, refl, q)

finish-Returned :
    (o : Result SessionError String) (id : ℕ) (m : String) (r : Receiver) (s : Session)
    → get id s.calls ≡ some (record { method = m; phase = waiting; receiver = r })
    → Returned id m r (finish o id s)
finish-Returned o id m r s found = (
  o,
  get-update_call (move_to (finished o)) id id s.calls ∙ rw ((==_iff id id).1 refl, found) refl,
)

module _ (decode_error : Expected → String → Option String) where
  -- A call that has something to receive returns.
  wake_phase-Returns :
      (id : ℕ) (m : String) (r : Receiver) (s : Session)
      → Answerable id r false
      → get id s.calls ≡ some (record { method = m; phase = waiting; receiver = r })
      → Returns id m r (wake_phase decode_error waiting r id m s)
  wake_phase-Returns id m empty s a found = absurd (true-ne-false (sym a))
  wake_phase-Returns id m dropped s a found = (_, refl, finish-Returned _ id m dropped s found)
  wake_phase-Returns id m (sent (ok e)) s a found =
      if-Returns (str_eq e.method m) _ _ id m (sent (ok e))
        (finish-Returned (outcome decode_error e) id m (sent (ok e)) s found)
        (finish-Returned (err (invalid wrong_method_error)) id m (sent (ok e))
          (fail wrong_method_error s) (ap (get id) (fail-calls wrong_method_error s) ∙ found))
  wake_phase-Returns id m (sent (err e)) s a found =
      (_, refl, finish-Returned _ id m (sent (err e)) s found)

  -- In a session that can come about, a call that waits and has left `pending` returns.
  waiting-Returns :
      (s : Session) (id : ℕ) (m : String) (r : Receiver)
      → Inv s
      → has id s.pending ≡ false
      → get id s.calls ≡ some (record { method = m; phase = waiting; receiver = r })
      → Returns id m r (wake decode_error id s)
  unfolding wake
  waiting-Returns s id m r inv gone found =
      let fits = entry-of s inv id _ found in
      let (u, enabled, returned) =
        wake_phase-Returns id m r s (subst (Answerable id r) gone fits.0) found in
      (
        u,
        ap (λ o. on_found (λ c. wake_phase decode_error c.phase c.receiver id c.method) o s) found
            ∙ enabled,
        returned,
      )

  sweep-pending :
      (failing : List String) (s t : Session) → sweep_first failing s ≡ some t → t.pending ≡ []
  sweep-pending [] s t h = absurd (none_ne_some h)
  sweep-pending (error ∷ failing) s t h = ap (λ (x : Session). x.pending) (sym (some_injective h))

  -- Directly after `fail` has emptied `pending`, every call that waits then has something to receive:
  -- with its next step it returns, and no deadline is needed for it. This is not said of a call that
  -- is registered later.
  pub sweep-wakes :
      {s : Session} (t : Session) (id : ℕ) (m : String) (r : Receiver)
      → Reachable decode_error s
      → sweep s ≡ some t
      → get id t.calls ≡ some (record { method = m; phase = waiting; receiver = r })
      → Returns id m r (wake decode_error id t)
  unfolding sweep has
  sweep-wakes {s} t id m r reachable h found =
      waiting-Returns t id m r (Reachable-Inv decode_error (stepped sweeping reachable h))
        (ap (has id) (sweep-pending s.failing s t h)) found

  -- The session between the two locks of `abandon`, and when `ignored` does not name the response.
  abbrev left_pending : ℕ → Session → Session
  left_pending id s = at_call (move_to ignoring) id (record s { pending = erase id s.pending })

  abbrev compared : Envelope → Session → Session
  compared e s = record (left_pending e.id s) { reader = matching e }

  abbrev pub failure_of : Option Session → Option String
  failure_of none = none
  failure_of (some s) = s.failure

  -- A response whose call has just left `pending` in `abandon`, and is not yet in `ignored`, is taken for
  -- one to an unknown request and fails the session, although the adapter answered a request of its.
  pub late_response-fails :
      {s : Session} (e : Envelope) (m hello : String) (r : Receiver)
      → Reachable decode_error s
      → get e.id s.calls ≡ some (record { method = m; phase = expiring; receiver = r })
      → has e.id s.pending ≡ true
      → s.reader ≡ reading
      → s.hello ≡ some hello
      → s.failure ≡ none
      → e.kind ≡ FrameKind.response
      → failure_of (
          run_step decode_error
            (abandon_call e.id ∷ incoming_frame (frame e) ∷ matched ∷ [])
            (some s))
        ≡ some unknown_request
  unfolding abandon incoming match_response fail
  late_response-fails {s} e m hello r reachable found here idle greeted alive is_response =
      let inv = Reachable-Inv decode_error reachable in
      let fits = entry-of s inv e.id _ found in
      let left : has e.id (erase e.id s.pending) ≡ false =
        rw (has-erase e.id e.id s.pending, (==_iff e.id e.id).1 refl) refl in
      let abandoned : abandon e.id s ≡ some (left_pending e.id s) =
        ap (λ o. on_found (λ c. abandon_phase c.phase e.id) o s) found ∙ rw here refl in
      let read : incoming decode_error (frame e) (left_pending e.id s) ≡ some (compared e s) =
        rw (idle, is_response, greeted, fits.1) refl in
      let compared_fails : match_response (compared e s)
          ≡ some (stop_reading unknown_request (compared e s)) =
        rw left refl in
      let failed : (fail unknown_request (compared e s)).failure ≡ some unknown_request =
        rw alive refl in
      ap (λ x. failure_of (run_step decode_error (incoming_frame (frame e) ∷ matched ∷ []) x))
        abandoned
      ∙ ap (λ x. failure_of (run_step decode_error (matched ∷ []) x)) read
      ∙ ap failure_of compared_fails
      ∙ failed
