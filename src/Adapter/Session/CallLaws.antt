-- ===== src/Adapter/Session/CallLaws.antt =====
-- The steps of `call` and `abandon` keep the invariant of the session.
use text.Mathlib.Text.{◌==◌ as str_eq}
use oikade.Prelude.{
  ℕ, ◌+◌, ◌^◌, ◌≤◌, ◌<◌, ◌≡◌, refl, sym, ap, subst, ◌∙◌, String, Bool, true, false, Option, none,
  some, List, ◌∷◌, ◌==◌, ltb, leb, length, if◌then◌else◌, arith, inl, inr, Bool-cases,
}
use oikade.Prelude.Result.{Result, ok, err, err_ne_ok, ok_injective}
use oikade.Prelude.Maps.{nat_key, get, insert, get-insert}
use oikade.Adapter.Wire.{Envelope, ProtocolError}
use oikade.Adapter.Session.Ids.{has}
use oikade.Adapter.Session.State.{
  Session, SessionError, Call, Phase, starting, registered, withdrawing, waiting, expiring,
  ignoring, finished, Receiver, empty, dropped, sent, max_pending_calls, max_ignored_responses,
  move_to, fail, fail_after, invalid, protocol, Expected, response_body,
}
use oikade.Adapter.Session.Calls.{
  start, register, register_phase, submit, submit_phase, withdraw, withdraw_phase, wake, wake_phase,
  outcome, expire, expire_phase, abandon, abandon_phase, ignore, ignore_phase, add_ignored, finish,
  with_call, body_outcome, limit_reached, wrong_method_error, on_found,
}
use oikade.Adapter.Session.Invariant.{Entry, IsConsistent, Inv, set-Each, Answerable}
use oikade.Adapter.Session.Moves.{
  some_injective, none_ne_some, if-some, has-kept, has-add, fail-Inv, entry-of, moved, moved-only,
  moved-erased, guard-some,
}

abbrev At : ℕ → String → Phase → Receiver → Session → Type 0
At id m ph r s = get id s.calls ≡ some (record { method = m; phase = ph; receiver = r })

not-both : {b : Bool} → b ≡ false → b ≡ true → ⊥
not-both f t = cc

pub fail-calls : (error : String) (s : Session) → (fail error s).calls ≡ s.calls
unfolding fail
fail-calls error s = after s.failure
  where
    after : (x : Option String) → (fail_after x error s).calls ≡ s.calls
    after none = refl
    after (some e) = refl

-- What an outcome that is not an error says of the response.
module _ (decode_error : Expected → String → Option String) where
  body_outcome-ok :
      (m : String) (x : Option String) (body : String)
      → body_outcome decode_error m x ≡ ok body
      → x ≡ some body
  body_outcome-ok m none body h = absurd (err_ne_ok h)
  body_outcome-ok m (some b) body h = decoded (decode_error (response_body m) b) h
    where
      decoded :
          (d : Option String)
          → (elim d [ none ↦ ok b | some e ↦ err (invalid e) ]) ≡ ok body
          → some b ≡ some body
      decoded none x = ap some (ok_injective x)
      decoded (some e) x = absurd (err_ne_ok x)

  outcome-ok :
      (e : Envelope) (body : String)
      → outcome decode_error e ≡ ok body
      → (e.error ≡ none) × (e.body ≡ some body)
  outcome-ok e body h = checked e.error refl h
    where
      checked :
          (x : Option ProtocolError)
          → e.error ≡ x
          → (elim x [
            | some p ↦ err (protocol p.code p.message)
            | none ↦ body_outcome decode_error e.method e.body
          ])
            ≡ ok body
          → (e.error ≡ none) × (e.body ≡ some body)
      checked none p x = (p, body_outcome-ok e.method e.body body x)
      checked (some y) p x = absurd (err_ne_ok x)

has-add_ignored :
    (id : ℕ) (ids : List ℕ) (j : ℕ)
    → has j (add_ignored id ids) ≡ (if id == j then true else has j ids)
unfolding has
has-add_ignored id ids j = elim (Bool-cases (has id ids)) [
  | inl e ↦ rw e (has-kept id true ids e j)
  | inr e ↦ rw e (has-add id ids j)
]

length-add_ignored :
    (id : ℕ) (ids : List ℕ)
    → leb max_ignored_responses (length ids) ≡ false
    → length (add_ignored id ids) ≤ max_ignored_responses
length-add_ignored id ids room = ground (arith, room)

module _ (s : Session) (inv : Inv s) (id : ℕ) (m : String) (r : Receiver) (t : Session) where
  abbrev call_in : Phase → Call
  call_in ph = record { method = m; phase = ph; receiver = r }

  register_phase-Inv : (ph : Phase) → At id m ph r s → register_phase ph id s ≡ some t → Inv t
  register_phase-Inv starting found h =
      let fits = entry-of s inv id (call_in starting) found in
      if-some Inv (leb max_pending_calls (length s.pending)) _ _ t h
        (λ full. moved-only s inv id (call_in starting) found (move_to _) (λ x. fits.1))
        (λ room.
          moved s inv id (call_in starting) found (move_to registered) true (has id s.ignored)
            (id ∷ s.pending) s.ignored (has-add id s.pending) (has-kept id _ s.ignored refl)
            (subst (λ x. Answerable id x true) (sym fits.0) refl, fits.2) (ground (arith, room))
            inv.few_ignored)
  register_phase-Inv _ found h = absurd (none_ne_some h)

  submit_phase-Inv :
      (ph : Phase) (encoded : Result String String) (is_open : Bool)
      → At id m ph r s
      → submit_phase ph encoded is_open id m s ≡ some t
      → Inv t
  submit_phase-Inv registered (err e) is_open found h =
      let fits = entry-of s inv id (call_in registered) found in
      subst Inv (some_injective h) (
        moved-only s inv id (call_in registered) found (move_to (finished (err (invalid e))))
          (λ x. absurd (not-both fits.1 x)))
  submit_phase-Inv registered (ok body) true found h =
      let fits = entry-of s inv id (call_in registered) found in
      subst Inv (some_injective h)
        (moved-only s inv id (call_in registered) found (move_to waiting) fits)
  submit_phase-Inv registered (ok body) false found h =
      let fits = entry-of s inv id (call_in registered) found in
      subst Inv (some_injective h)
        (moved-only s inv id (call_in registered) found (move_to withdrawing) fits)
  submit_phase-Inv _ encoded is_open found h = absurd (none_ne_some h)

  withdraw_phase-Inv : (ph : Phase) → At id m ph r s → withdraw_phase ph id s ≡ some t → Inv t
  withdraw_phase-Inv withdrawing found h =
      subst Inv (some_injective h)
        (moved-erased s inv id (call_in withdrawing) found (move_to _) (λ x. refl))
  withdraw_phase-Inv _ found h = absurd (none_ne_some h)

  abandon_phase-Inv : (ph : Phase) → At id m ph r s → abandon_phase ph id s ≡ some t → Inv t
  abandon_phase-Inv expiring found h =
      let fits = entry-of s inv id (call_in expiring) found in
      if-some Inv (has id s.pending) _ _ t h
        (λ here. moved-erased s inv id (call_in expiring) found (move_to ignoring) (refl, fits.1))
        (λ gone. moved-only s inv id (call_in expiring) found (move_to _) (λ x. gone))
  abandon_phase-Inv _ found h = absurd (none_ne_some h)

  -- The call of a session that has failed.
  failed : (error : String) (ph : Phase) → At id m ph r s → At id m ph r (fail error s)
  failed error ph found = ap (get id) (fail-calls error s) ∙ found

  ignore_phase-Inv : (ph : Phase) → At id m ph r s → ignore_phase ph id s ≡ some t → Inv t
  ignore_phase-Inv ignoring found h =
      let fits = entry-of s inv id (call_in ignoring) found in
      if-some Inv (leb max_ignored_responses (length s.ignored)) _ _ t h
        (λ full.
          let inv' = fail-Inv limit_reached s inv in
          let found' = failed limit_reached ignoring found in
          let fits' = entry-of (fail limit_reached s) inv' id (call_in ignoring) found' in
          moved-only (fail limit_reached s) inv' id (call_in ignoring) found' (move_to _)
            (λ x. fits'.0))
        (λ room.
          moved s inv id (call_in ignoring) found (move_to _) (has id s.pending) true s.pending
            (add_ignored id s.ignored) (has-kept id _ s.pending refl) (has-add_ignored id s.ignored)
            (λ x. fits.0) inv.few_pending (length-add_ignored id s.ignored room))
  ignore_phase-Inv _ found h = absurd (none_ne_some h)

module _ (s : Session) (inv : Inv s) (id : ℕ) (m : String) (t : Session) where
  expire_phase-Inv :
      (ph : Phase) (r : Receiver) → At id m ph r s → expire_phase ph r id s ≡ some t → Inv t
  expire_phase-Inv waiting empty found h =
      let fits = entry-of s inv id (call_in s inv id m empty t waiting) found in
      subst Inv (some_injective h)
        (moved-only s inv id (call_in s inv id m empty t waiting) found (move_to expiring) fits)
  expire_phase-Inv _ _ found h = absurd (none_ne_some h)

  -- The receiver of a call that returned with a failure is of no use to it.
  stopped-Inv :
      (r : Receiver) (x : Session) (e : SessionError)
      → Inv x
      → At id m waiting r x
      → has id x.pending ≡ false
      → Inv (finish (err e) id x)
  stopped-Inv r x e inv' found gone =
      moved-only x inv' id (record { method = m; phase = waiting; receiver = r }) found (move_to _)
        (λ y. gone)

  answered-Inv :
      (decode_error : Expected → String → Option String) (e : Envelope)
      (o : Result SessionError String)
      → outcome decode_error e ≡ o
      → At id m waiting (sent (ok e)) s
      → str_eq e.method m ≡ true
      → Inv (finish o id s)
  answered-Inv decode_error e (err x) p found same =
      let fits = entry-of s inv id (call_in s inv id m (sent (ok e)) t waiting) found in
      stopped-Inv (sent (ok e)) s x inv found fits.0.0
  answered-Inv decode_error e (ok body) p found same =
      let fits = entry-of s inv id (call_in s inv id m (sent (ok e)) t waiting) found in
      let (no_error, has_body) = outcome-ok decode_error e body p in
      moved-only s inv id (call_in s inv id m (sent (ok e)) t waiting) found (move_to _)
        ((e, refl, fits.0.1, same, no_error, has_body), fits.0.0, fits.1)

  wake_phase-Inv :
      (decode_error : Expected → String → Option String) (ph : Phase) (r : Receiver)
      → At id m ph r s
      → wake_phase decode_error ph r id m s ≡ some t
      → Inv t
  wake_phase-Inv decode_error waiting (sent (ok e)) found h =
      let fits = entry-of s inv id (call_in s inv id m (sent (ok e)) t waiting) found in
      if-some Inv (str_eq e.method m) _ _ t h
        (λ same. answered-Inv decode_error e (outcome decode_error e) refl found same)
        (λ other.
          let found' = failed s inv id m (sent (ok e)) t wrong_method_error waiting found in
          let inv' = fail-Inv wrong_method_error s inv in
          let fits' =
            entry-of (fail wrong_method_error s) inv' id
              (call_in s inv id m (sent (ok e)) t waiting) found' in
          stopped-Inv (sent (ok e)) (fail wrong_method_error s) _ inv' found' fits'.0.0)
  wake_phase-Inv decode_error waiting (sent (err e)) found h =
      let fits = entry-of s inv id (call_in s inv id m (sent (err e)) t waiting) found in
      subst Inv (some_injective h) (stopped-Inv (sent (err e)) s _ inv found fits.0)
  wake_phase-Inv decode_error waiting dropped found h =
      let fits = entry-of s inv id (call_in s inv id m dropped t waiting) found in
      subst Inv (some_injective h) (stopped-Inv dropped s _ inv found fits.0)
  wake_phase-Inv decode_error _ _ found h = absurd (none_ne_some h)

-- A step of a call is one of a call that there is.
with_call-Inv :
    (f : Call → Session → Option Session) (id : ℕ) (s t : Session)
    → with_call f id s ≡ some t
    → ((c : Call) → get id s.calls ≡ some c → f c s ≡ some t → Inv t)
    → Inv t
with_call-Inv f id s t h each = at_found (get id s.calls) refl h
  where
    at_found : (o : Option Call) → get id s.calls ≡ o → on_found f o s ≡ some t → Inv t
    at_found none p x = absurd (none_ne_some x)
    at_found (some c) p x = each c p x

module _ (s : Session) (inv : Inv s) (t : Session) (id : ℕ) where
  pub register-Inv : register id s ≡ some t → Inv t
  unfolding register
  register-Inv h =
      with_call-Inv (λ c. register_phase c.phase id) id s t h
        (λ c found x. register_phase-Inv s inv id c.method c.receiver t c.phase found x)

  pub submit-Inv :
      (encoded : Result String String) (is_open : Bool)
      → submit encoded is_open id s ≡ some t
      → Inv t
  unfolding submit
  submit-Inv encoded is_open h =
      with_call-Inv (λ c. submit_phase c.phase encoded is_open id c.method) id s t h
        (λ c found x.
          submit_phase-Inv s inv id c.method c.receiver t c.phase encoded is_open found x)

  pub withdraw-Inv : withdraw id s ≡ some t → Inv t
  unfolding withdraw
  withdraw-Inv h =
      with_call-Inv (λ c. withdraw_phase c.phase id) id s t h
        (λ c found x. withdraw_phase-Inv s inv id c.method c.receiver t c.phase found x)

  pub wake-Inv :
      (decode_error : Expected → String → Option String) → wake decode_error id s ≡ some t → Inv t
  unfolding wake
  wake-Inv decode_error h =
      with_call-Inv (λ c. wake_phase decode_error c.phase c.receiver id c.method) id s t h
        (λ c found x. wake_phase-Inv s inv id c.method t decode_error c.phase c.receiver found x)

  pub expire-Inv : expire id s ≡ some t → Inv t
  unfolding expire
  expire-Inv h =
      with_call-Inv (λ c. expire_phase c.phase c.receiver id) id s t h
        (λ c found x. expire_phase-Inv s inv id c.method t c.phase c.receiver found x)

  pub abandon-Inv : abandon id s ≡ some t → Inv t
  unfolding abandon
  abandon-Inv h =
      with_call-Inv (λ c. abandon_phase c.phase id) id s t h
        (λ c found x. abandon_phase-Inv s inv id c.method c.receiver t c.phase found x)

  pub ignore-Inv : ignore id s ≡ some t → Inv t
  unfolding ignore
  ignore-Inv h =
      with_call-Inv (λ c. ignore_phase c.phase id) id s t h
        (λ c found x. ignore_phase-Inv s inv id c.method c.receiver t c.phase found x)

-- The identifier of a new call is new.
pub start-Inv :
    (s : Session) → Inv s → (method : String) (t : Session) → start method s ≡ some t → Inv t
unfolding start
start-Inv s inv method t h = guard-some Inv (ltb (s.next_id + 1) (2 ^ 64)) _ t h started
  where
    id : ℕ
    id = s.next_id + 1

    c : Call
    c = record { method = method; phase = starting; receiver = empty }

    unknown : Entry id none (has id s.pending) (has id s.ignored)
    unknown =
        subst (λ o. Entry id o (has id s.pending) (has id s.ignored)) (inv.fresh id (omega arith))
          (inv.each id)

    later : (j : ℕ) → id < j → get j (insert id c s.calls) ≡ none
    later j p =
        let other : (id == j) ≡ false = ground (arith, p) in
        rw (get-insert id j c s.calls, other) (inv.fresh j (omega (arith, p)))

    started : IsConsistent s.pending s.ignored id s.running (insert id c s.calls)
    started = record {
      each =
          set-Each id c false false s.pending s.ignored s.pending s.ignored s.calls inv.each
            (has-kept id false s.pending unknown.0) (has-kept id false s.ignored unknown.1)
            (refl, refl, refl);
      fresh = later;
      few_pending = inv.few_pending;
      few_ignored = inv.few_ignored;
      few_running = inv.few_running;
    }
