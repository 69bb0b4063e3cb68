-- ===== src/Adapter/Session/Calls.antt =====
-- crates/oikade-adapter-host/src/session.rs: `call` and `abandon`. A step that is not the next one of
-- the call has no result.
use text.Mathlib.Text.{◌==◌ as str_eq}
use oikade.Prelude.{
  ℕ, ◌+◌, ◌^◌, String, Bool, true, false, Option, none, some, List, ◌∷◌, ltb, leb, length,
  if◌then◌else◌,
}
use oikade.Prelude.Result.{Result, ok, err}
use oikade.Prelude.Maps.{nat_key, get, insert}
use oikade.Adapter.Wire.{Envelope, FrameKind, version}
use oikade.Adapter.Session.Ids.{has, erase}
use oikade.Adapter.Session.State.{
  Session, SessionError, closed, invalid, protocol, timeout, pending_limit, Call, Phase, starting,
  registered, withdrawing, waiting, expiring, ignoring, finished, Receiver, empty, dropped, sent,
  max_pending_calls, max_ignored_responses, closed_error, at_call, move_to, fail, Expected,
  response_body,
}

-- `fetch_add(1) + 1`; the addition fails at the end of `u64`.
unfoldable pub start : String → Session → Option Session
start method s =
    let id = s.next_id + 1 in
    if ltb id (2 ^ 64)
    then some (record s {
      next_id = id;
      calls = insert id (record { method = method; phase = starting; receiver = empty }) s.calls;
    })
    else none

abbrev pub finish : Result SessionError String → ℕ → Session → Session
finish outcome = at_call (move_to (finished outcome))

abbrev pub register_phase : Phase → ℕ → Session → Option Session
register_phase starting id s =
    if leb max_pending_calls (length s.pending)
    then some (finish (err pending_limit) id s)
    else some (at_call (move_to registered) id (record s { pending = id ∷ s.pending }))
register_phase _ id s = none

-- The request that `call` hands to the writer.
abbrev pub outgoing : ℕ → String → String → Envelope
outgoing id method body = record {
  version = version;
  kind = FrameKind.request;
  id = id;
  method = method;
  body = some body;
  error = none;
}

-- The body may not be encoded, and the channel to the writer may be closed.
abbrev pub submit_phase :
    Phase → Result String String → Bool → ℕ → String → Session → Option Session
submit_phase registered (err e) is_open id method s = some (finish (err (invalid e)) id s)
submit_phase registered (ok body) true id method s =
    some
      (at_call (move_to waiting) id (record s { outbound = outgoing id method body ∷ s.outbound }))
submit_phase registered (ok body) false id method s = some (at_call (move_to withdrawing) id s)
submit_phase _ _ _ id method s = none

abbrev pub withdraw_phase : Phase → ℕ → Session → Option Session
withdraw_phase withdrawing id s =
    some (finish (err (closed_error s)) id (record s { pending = erase id s.pending }))
withdraw_phase _ id s = none

abbrev pub expire_phase : Phase → Receiver → ℕ → Session → Option Session
expire_phase waiting empty id s = some (at_call (move_to expiring) id s)
expire_phase _ _ id s = none

abbrev pub abandon_phase : Phase → ℕ → Session → Option Session
abandon_phase expiring id s =
    if has id s.pending
    then some (at_call (move_to ignoring) id (record s { pending = erase id s.pending }))
    else some (finish (err timeout) id s)
abandon_phase _ id s = none

abbrev pub add_ignored : ℕ → List ℕ → List ℕ
add_ignored id ids = if has id ids then ids else id ∷ ids

abbrev pub limit_reached : String
limit_reached = "adapter abandoned response limit reached"

abbrev pub ignore_phase : Phase → ℕ → Session → Option Session
ignore_phase ignoring id s =
    if leb max_ignored_responses (length s.ignored)
    then some (finish (err timeout) id (fail limit_reached s))
    else some (finish (err timeout) id (record s { ignored = add_ignored id s.ignored }))
ignore_phase _ id s = none

-- The text of the error leaves out the two names.
abbrev pub wrong_method_error : String
wrong_method_error = "response method does not match request"

-- `decode_body` for the type that is expected: its error, if it has one. Where a response is decoded,
-- its method is the call's.
module _ (decode_error : Expected → String → Option String) where
  abbrev pub body_outcome : String → Option String → Result SessionError String
  body_outcome method none = err (invalid "response body is required")
  body_outcome method (some body) = elim (decode_error (response_body method) body) [
    | none ↦ ok body
    | some e ↦ err (invalid e)
  ]

  abbrev pub outcome : Envelope → Result SessionError String
  outcome envelope = elim envelope.error [
    | some e ↦ err (protocol e.code e.message)
    | none ↦ body_outcome envelope.method envelope.body
  ]

  abbrev pub wake_phase : Phase → Receiver → ℕ → String → Session → Option Session
  wake_phase waiting (sent (ok envelope)) id method s =
      if str_eq envelope.method method
      then some (finish (outcome envelope) id s)
      else some (finish (err (invalid wrong_method_error)) id (fail wrong_method_error s))
  wake_phase waiting (sent (err e)) id method s = some (finish (err (closed e)) id s)
  wake_phase waiting dropped id method s = some (finish (err (closed_error s)) id s)
  wake_phase _ _ id method s = none

abbrev pub on_found : (Call → Session → Option Session) → Option Call → Session → Option Session
on_found f none s = none
on_found f (some c) s = f c s

abbrev pub with_call : (Call → Session → Option Session) → ℕ → Session → Option Session
with_call f id s = on_found f (get id s.calls) s

unfoldable pub register : ℕ → Session → Option Session
register id = with_call (λ c. register_phase c.phase id) id

unfoldable pub submit : Result String String → Bool → ℕ → Session → Option Session
submit encoded is_open id = with_call (λ c. submit_phase c.phase encoded is_open id c.method) id

unfoldable pub withdraw : ℕ → Session → Option Session
withdraw id = with_call (λ c. withdraw_phase c.phase id) id

unfoldable pub wake : (Expected → String → Option String) → ℕ → Session → Option Session
wake decode_error id = with_call (λ c. wake_phase decode_error c.phase c.receiver id c.method) id

unfoldable pub expire : ℕ → Session → Option Session
expire id = with_call (λ c. expire_phase c.phase c.receiver id) id

unfoldable pub abandon : ℕ → Session → Option Session
abandon id = with_call (λ c. abandon_phase c.phase id) id

unfoldable pub ignore : ℕ → Session → Option Session
ignore id = with_call (λ c. ignore_phase c.phase id) id
