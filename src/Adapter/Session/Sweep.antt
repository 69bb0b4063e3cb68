-- ===== src/Adapter/Session/Sweep.antt =====
-- `fail` answers every call that is pending, and keeps the invariant of the session.
use oikade.Prelude.{
  ℕ, ◌≡◌, refl, ap, subst, ◌∙◌, String, Bool, true, false, Option, none, some, List, [], ◌∷◌, ◌==◌,
  ==_iff, ◌||◌, if◌then◌else◌, arith, inl, inr, Bool-cases,
}
use oikade.Prelude.Result.{err}
use oikade.Prelude.Maps.{Map, nat_key, get, get-insert}
use oikade.Adapter.Session.Ids.{has}
use oikade.Adapter.Session.State.{
  Session, Call, Receiver, empty, dropped, sent, first, receive, update_call, Response, send_all,
  sweep, sweep_first,
}
use oikade.Adapter.Session.Invariant.{Entry, Inv}
use oikade.Adapter.Session.Moves.{some_injective, none_ne_some}
use oikade.Adapter.Session.IncomingLaws.{receive-Fits, true-ne-false}

abbrev on_call : (Call → Call) → Option Call → Option Call
on_call f none = none
on_call f (some c) = some (f c)

pub get-update_call :
    (f : Call → Call) (id j : ℕ) (calls : Map ℕ Call)
    → get j (update_call f (get id calls) id calls)
      ≡ (if id == j then on_call f (get j calls) else get j calls)
get-update_call f id j calls = elim (Bool-cases (id == j)) [
  | inl e ↦
      let same : id ≡ j = (==_iff id j).0 e in
      rw e (
        subst (λ k. get k (update_call f (get id calls) id calls) ≡ on_call f (get k calls)) same
          (here (get id calls) refl))
  | inr e ↦ rw e (elsewhere e (get id calls))
]
  where
    here :
        (o : Option Call)
        → get id calls ≡ o
        → get id (update_call f o id calls) ≡ on_call f (get id calls)
    here none p = rw p refl
    here (some c) p = rw (get-insert id id (f c) calls, (==_iff id id).1 refl, p) refl

    elsewhere :
        (id == j) ≡ false → (o : Option Call) → get j (update_call f o id calls) ≡ get j calls
    elsewhere e none = refl
    elsewhere e (some c) = rw (get-insert id j (f c) calls, e) refl

first-first : (r x : Receiver) → first (first r x) x ≡ first r x
first-first empty empty = refl
first-first empty dropped = refl
first-first empty (sent y) = refl
first-first dropped x = refl
first-first (sent y) x = refl

receive-receive :
    (x : Receiver) (o : Option Call)
    → on_call (receive x) (on_call (receive x) o) ≡ on_call (receive x) o
receive-receive x none = refl
receive-receive x (some c) = ap (λ r. some (record c { receiver = r })) (first-first c.receiver x)

-- Every call that is named has the response, unless it had something before.
pub get-send_all :
    (response : Response) (ids : List ℕ) (j : ℕ) (calls : Map ℕ Call)
    → get j (send_all response ids calls)
      ≡ (if has j ids then on_call (receive (sent response)) (get j calls) else get j calls)
unfolding send_all has
get-send_all response [] j calls = refl
get-send_all response (id ∷ ids) j calls =
    let f = receive (sent response) in
    get-send_all response ids j (update_call f (get id calls) id calls)
    ∙ both f (id == j) (has j ids) (get j calls) _ (get-update_call f id j calls)
        (receive-receive (sent response) (get j calls))
  where
    both :
        (f : Call → Call) (a b : Bool) (o u : Option Call)
        → u ≡ (if a then on_call f o else o)
        → on_call f (on_call f o) ≡ on_call f o
        → (if b then on_call f u else u) ≡ (if a || b then on_call f o else o)
    both f true true o u p q = ap (on_call f) p ∙ q
    both f true false o u p q = p
    both f false true o u p q = ap (on_call f) p
    both f false false o u p q = p

swept-Entry :
    (id : ℕ) (error : String) (b i : Bool) (o : Option Call)
    → Entry id o b i
    → Entry id (if b then on_call (receive (sent (err error))) o else o) false i
swept-Entry id error true i none old = absurd (true-ne-false old.0)
swept-Entry id error true i (some c) old = receive-Fits id c (sent (err error)) i refl c.phase old
swept-Entry id error false i o old = old

sweep_first-Inv :
    (failing : List String) (s t : Session) → Inv s → sweep_first failing s ≡ some t → Inv t
unfolding has
sweep_first-Inv [] s t inv h = absurd (none_ne_some h)
sweep_first-Inv (error ∷ failing) s t inv h = subst Inv (some_injective h) (record {
  each = λ id.
      rw (get-send_all (err error) s.pending id s.calls)
        (swept-Entry id error (has id s.pending) (has id s.ignored) (get id s.calls) (inv.each id));
  fresh = λ id p.
      rw (get-send_all (err error) s.pending id s.calls, inv.fresh id p)
        (if-same (has id s.pending));
  few_pending = omega arith;
  few_ignored = inv.few_ignored;
  few_running = inv.few_running;
})
  where
    if-same : (b : Bool) → ◌≡◌ {A = Option Call} (if b then none else none) none
    if-same true = refl
    if-same false = refl

pub sweep-Inv : (s t : Session) → Inv s → sweep s ≡ some t → Inv t
unfolding sweep
sweep-Inv s t inv h = sweep_first-Inv s.failing s t inv h
