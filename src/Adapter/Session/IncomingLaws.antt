-- ===== src/Adapter/Session/IncomingLaws.antt =====
-- The steps of the reader, of the commands and of `fail` keep the invariant of the session.
use text.Mathlib.Text.{◌==◌ as str_eq}
use oikade.Prelude.{
  ℕ, zero, suc, ◌≤◌, ◌≡◌, refl, sym, ap, subst, ◌∙◌, String, Bool, true, false, Option, none, some,
  List, [], ◌∷◌, ◌==◌, ltb, length, if◌then◌else◌, arith, inl, inr, Bool-cases, not, ◌||◌, ◌&&◌,
  ◌++◌,
}
use oikade.Prelude.Result.{Result, ok, err}
use oikade.Prelude.Maps.{nat_key, get}
use oikade.Adapter.Wire.{Envelope, FrameKind, ProtocolError}
use oikade.Adapter.Session.Ids.{has, erase, has-erase, length-erase}
use oikade.Adapter.Session.State.{
  Session, Call, Phase, starting, registered, withdrawing, waiting, expiring, ignoring, finished,
  Receiver, empty, dropped, sent, first, receive, Reader, reading, matching, max_inbound_calls,
  Expected, hello_body,
}
use oikade.Adapter.Session.Incoming.{
  Incoming, incoming, take_incoming, take_frame, take_hello, take_response, match_reader,
  match_response, stop_reading, admit, admit_picked, complete, complete_picked, pick, respond, busy,
  incoming_reader, duplicate, hello_required, before_hello, closed_transport, unknown_request,
  unexpected, received, method_hello, method_command, put_first,
}
use oikade.Adapter.Session.Invariant.{Answerable, Fits, Entry, Each, Inv}
use oikade.Adapter.Session.Moves.{
  some_injective, none_ne_some, if-some, fail-Inv, entry-of, moved-erased,
}

pub true-ne-false : true ≡ false → ⊥
true-ne-false h = cc

-- A pending call that something comes to.
first-Answerable :
    (id : ℕ) (r x : Receiver)
    → Answerable id x false
    → Answerable id r true
    → Answerable id (first r x) false
first-Answerable id empty x new old = new
first-Answerable id dropped x new old = absurd (true-ne-false old)
first-Answerable id (sent (ok e)) x new old = absurd (true-ne-false old.0)
first-Answerable id (sent (err e)) x new old = absurd (true-ne-false old)

pub receive-Fits :
    (id : ℕ) (c : Call) (x : Receiver) (i : Bool)
    → Answerable id x false
    → (ph : Phase) → Fits id c ph true i
    → Fits id (receive x c) ph false i
receive-Fits id c x i new starting old = absurd (true-ne-false old.1)
receive-Fits id c x i new registered old = (first-Answerable id c.receiver x new old.0, old.1)
receive-Fits id c x i new withdrawing old = (first-Answerable id c.receiver x new old.0, old.1)
receive-Fits id c x i new waiting old = (first-Answerable id c.receiver x new old.0, old.1)
receive-Fits id c x i new expiring old = (first-Answerable id c.receiver x new old.0, old.1)
receive-Fits id c x i new ignoring old = absurd (true-ne-false old.0)
receive-Fits id c x i new (finished (ok body)) old = absurd (true-ne-false old.1)
receive-Fits id c x i new (finished (err e)) old = λ y. refl

-- An id leaves `ignored`.
unignored-Fits :
    (id : ℕ) (c : Call) (ph : Phase) (p i : Bool) → Fits id c ph p i → Fits id c ph p false
unignored-Fits id c starting p i old = (old.0, old.1, refl)
unignored-Fits id c registered p i old = (old.0, refl)
unignored-Fits id c withdrawing p i old = (old.0, refl)
unignored-Fits id c waiting p i old = (old.0, refl)
unignored-Fits id c expiring p i old = (old.0, refl)
unignored-Fits id c ignoring p i old = (old.0, refl)
unignored-Fits id c (finished (ok body)) p i old = (old.0, old.1, refl)
unignored-Fits id c (finished (err e)) p i old = λ y. absurd (true-ne-false (sym y))

unignored-Entry : (id : ℕ) (o : Option Call) (p i : Bool) → Entry id o p i → Entry id o p false
unignored-Entry id none p i old = (old.0, refl)
unignored-Entry id (some c) p i old = unignored-Fits id c c.phase p i old

unignored-Inv : (id : ℕ) (s : Session) → Inv s → Inv (record s { ignored = erase id s.ignored })
unignored-Inv id s inv = record {
  each = left;
  fresh = inv.fresh;
  few_pending = inv.few_pending;
  few_ignored = omega (arith, length-erase id s.ignored, inv.few_ignored);
  few_running = inv.few_running;
}
  where
    left : Each s.pending (erase id s.ignored) s.calls
    left j = elim (Bool-cases (id == j)) [
      | inl e ↦ rw (has-erase id j s.ignored, e) (unignored-Entry j _ _ _ (inv.each j))
      | inr e ↦ rw (has-erase id j s.ignored, e) (inv.each j)
    ]

if-Inv : (b : Bool) (x y : Session) → Inv x → Inv y → Inv (if b then x else y)
if-Inv true x y p q = p
if-Inv false x y p q = q

module _ (decode_error : Expected → String → Option String) (s : Session) (inv : Inv s) where
  take_hello-Inv : (body : Option String) → Inv (take_hello decode_error body s)
  take_hello-Inv none = fail-Inv hello_required s inv
  take_hello-Inv (some body) = decoded (decode_error hello_body body)
    where
      decoded :
          (d : Option String)
          → Inv (elim d [ none ↦ record s { hello = some body } | some e ↦ stop_reading e s ])
      decoded none = inv
      decoded (some e) = fail-Inv e s inv

  take_frame-Inv : (k : FrameKind) (e : Envelope) → Inv (take_frame decode_error k e s)
  take_frame-Inv FrameKind.notification e =
      if-Inv (not (str_eq e.method method_hello) || received s.hello) (stop_reading duplicate s)
        (take_hello decode_error e.body s) (fail-Inv duplicate s inv) (take_hello-Inv e.body)
  take_frame-Inv FrameKind.response e =
      if-Inv (received s.hello) (take_response decode_error e s) (unexpected decode_error s)
        (if-Inv (has e.id s.ignored) (record s { ignored = erase e.id s.ignored })
          (record s { reader = matching e }) (unignored-Inv e.id s inv) inv)
        (fail-Inv before_hello s inv)
  take_frame-Inv FrameKind.request e =
      if-Inv (received s.hello && str_eq e.method method_command)
        (record s { spawned = s.spawned ++ e ∷ [] }) (unexpected decode_error s) inv
        (fail-Inv before_hello s inv)

  take_incoming-Inv : (i : Incoming) → Inv (take_incoming decode_error i s)
  take_incoming-Inv (Incoming.frame e) = take_frame-Inv e.kind e
  take_incoming-Inv Incoming.end_of_stream = fail-Inv closed_transport s inv
  take_incoming-Inv (Incoming.read_failure e) = fail-Inv e s inv

  incoming_reader-Inv :
      (r : Reader) (i : Incoming) (t : Session)
      → incoming_reader decode_error r i s ≡ some t
      → Inv t
  incoming_reader-Inv reading i t h = subst Inv (some_injective h) (take_incoming-Inv i)
  incoming_reader-Inv _ i t h = absurd (none_ne_some h)

  pub incoming-Inv : (i : Incoming) (t : Session) → incoming decode_error i s ≡ some t → Inv t
  unfolding incoming
  incoming-Inv i t h = incoming_reader-Inv s.reader i t h

found_pending :
    (s : Session)
    → Inv s
    → (id : ℕ) → has id s.pending ≡ true
    → (c : Call) × (get id s.calls ≡ some c)
found_pending s inv id h = known (get id s.calls) refl
  where
    known : (o : Option Call) → get id s.calls ≡ o → (c : Call) × (get id s.calls ≡ some c)
    known (some c) p = (c, p)
    known none p = absurd (
        true-ne-false (
          sym h
          ∙ (subst (λ x. Entry id x (has id s.pending) (has id s.ignored)) p (inv.each id)).0))

match_reader-Inv : (r : Reader) (s t : Session) → Inv s → match_reader r s ≡ some t → Inv t
match_reader-Inv (matching e) s t inv h =
    if-some Inv (has e.id s.pending) _ _ t h
      (λ here.
        let (c, found) = found_pending s inv e.id here in
        let old =
          subst (λ b. Fits e.id c c.phase b (has e.id s.ignored)) here
            (entry-of s inv e.id c found) in
        moved-erased s inv e.id c found (receive (sent (ok e)))
          (receive-Fits e.id c (sent (ok e)) (has e.id s.ignored) (refl, refl) c.phase old))
      (λ gone. fail-Inv unknown_request s inv)
match_reader-Inv _ s t inv h = absurd (none_ne_some h)

pub match_response-Inv : (s t : Session) → Inv s → match_response s ≡ some t → Inv t
unfolding match_response
match_response-Inv s t inv h = match_reader-Inv s.reader s t inv h

-- The commands.
pick-length :
    (n : ℕ) (es rest : List Envelope) (e : Envelope)
    → pick n es ≡ some (e, rest)
    → length es ≡ suc (length rest)
unfolding pick
pick-length n [] rest e h = absurd (none_ne_some h)
pick-length zero (x ∷ es) rest e h = ap (λ p. suc (length p.1)) (some_injective h)
pick-length (suc n) (x ∷ es) rest e h = later (pick-length n es) (pick n es) refl h
  where
    later :
        ((ys : List Envelope) (y : Envelope)
          → pick n es ≡ some (y, ys)
          → length es ≡ suc (length ys))
        → (o : Option (Envelope × List Envelope)) → pick n es ≡ o
        → put_first x o ≡ some (e, rest)
        → suc (length es) ≡ suc (length rest)
    later shorter none p q = absurd (none_ne_some q)
    later shorter (some (y, ys)) p q =
        ap suc (shorter ys y p) ∙ ap (λ z. suc (length z.1)) (some_injective q)

with_running :
    (s : Session)
    → Inv s
    → (es : List Envelope) → length es ≤ max_inbound_calls
    → Inv (record s { running = es })
with_running s inv es few = record {
  each = inv.each;
  fresh = inv.fresh;
  few_pending = inv.few_pending;
  few_ignored = inv.few_ignored;
  few_running = few;
}

respond-Inv :
    (s : Session)
    → Inv s
    → (is_open : Bool) (e : Envelope) (r : Result ProtocolError (Result String String))
    → Inv (respond is_open e r s)
respond-Inv s inv true e (err x) = inv
respond-Inv s inv true e (ok (ok body)) = inv
respond-Inv s inv true e (ok (err x)) = fail-Inv x s inv
respond-Inv s inv false e (err x) = inv
respond-Inv s inv false e (ok (ok body)) = inv
respond-Inv s inv false e (ok (err x)) = fail-Inv x s inv

module _ (s : Session) (inv : Inv s) (is_open : Bool) (t : Session) where
  admit_picked-Inv :
      (o : Option (Envelope × List Envelope)) → admit_picked is_open o s ≡ some t → Inv t
  admit_picked-Inv none h = absurd (none_ne_some h)
  admit_picked-Inv (some (e, es)) h =
      if-some Inv (ltb (length s.running) max_inbound_calls) _ _ t h
        (λ room. with_running s inv (e ∷ s.running) (ground (arith, room)))
        (λ full. respond-Inv (record s { spawned = es }) inv is_open e (err busy))

  pub admit-Inv : (n : ℕ) → admit n is_open s ≡ some t → Inv t
  unfolding admit
  admit-Inv n h = admit_picked-Inv (pick n s.spawned) h

  complete_picked-Inv :
      (decode_error : Expected → String → Option String) (n : ℕ)
      (handled : Result ProtocolError (Result String String))
      (o : Option (Envelope × List Envelope))
      → pick n s.running ≡ o
      → complete_picked decode_error is_open handled o s ≡ some t
      → Inv t
  complete_picked-Inv decode_error n handled none p h = absurd (none_ne_some h)
  complete_picked-Inv decode_error n handled (some (e, es)) p h =
      let fewer =
        with_running s inv es (omega (arith, pick-length n s.running es e p, inv.few_running)) in
      subst Inv (some_injective h) (respond-Inv (record s { running = es }) fewer is_open e _)

  pub complete-Inv :
      (decode_error : Expected → String → Option String) (n : ℕ)
      (handled : Result ProtocolError (Result String String))
      → complete decode_error n is_open handled s ≡ some t
      → Inv t
  unfolding complete
  complete-Inv decode_error n handled h =
      complete_picked-Inv decode_error n handled (pick n s.running) refl h
