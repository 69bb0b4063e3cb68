-- ===== src/Adapter/Session/Moves.antt =====
-- How one step of a call keeps the invariant of the session.
use oikade.Prelude.{
  ℕ, ◌≤◌, ◌<◌, ◌≡◌, refl, sym, ap, subst, ◌∙◌, String, Bool, true, false, Option, none, some, List,
  ◌∷◌, ◌==◌, ==_iff, length, if◌then◌else◌, arith, inl, inr, Bool-cases,
}
use oikade.Prelude.Maps.{nat_key, get, insert, get-insert}
use oikade.Adapter.Session.Ids.{has, erase, has-erase, length-erase}
use oikade.Adapter.Session.State.{
  Session, Call, max_pending_calls, max_ignored_responses, update_call, fail, fail_after, late_fail,
  late_fail_after,
}
use oikade.Adapter.Session.Invariant.{Fits, Entry, IsConsistent, Inv, set-Each}

pub some_injective : {A : Type 0} {a b : A} → ◌≡◌ {A = Option A} (some a) (some b) → a ≡ b
some_injective h = cc

pub none_ne_some : {A : Type 0} {a : A} → ◌≡◌ {A = Option A} none (some a) → ⊥
none_ne_some h = cc

pub if-some :
    {A : Type 0} (P : A → Type 0) (b : Bool) (x y t : A)
    → (if b then some x else some y) ≡ some t
    → (b ≡ true → P x)
    → (b ≡ false → P y)
    → P t
if-some P true x y t h px py = subst P (some_injective h) (px refl)
if-some P false x y t h px py = subst P (some_injective h) (py refl)

-- A set that is not changed, and one that an id leaves or enters.
pub has-kept :
    (id : ℕ) (b : Bool) (xs : List ℕ)
    → has id xs ≡ b
    → (j : ℕ) → has j xs ≡ (if id == j then b else has j xs)
has-kept id b xs h j = elim (Bool-cases (id == j)) [
  | inl e ↦ rw e (subst (λ k. has k xs ≡ b) ((==_iff id j).0 e) h)
  | inr e ↦ rw e refl
]

pub has-add :
    (id : ℕ) (xs : List ℕ) (j : ℕ) → has j (id ∷ xs) ≡ (if id == j then true else has j xs)
unfolding has
has-add id xs j = ground arith

pub fail-Inv : (error : String) (s : Session) → Inv s → Inv (fail error s)
unfolding fail
fail-Inv error s inv = after s.failure
  where
    after : (x : Option String) → Inv (fail_after x error s)
    after none = inv
    after (some e) = inv

pub late_fail-Inv : (error : String) (s t : Session) → Inv s → late_fail error s ≡ some t → Inv t
unfolding late_fail
late_fail-Inv error s t inv = after s.failure
  where
    after : (x : Option String) → late_fail_after x error s ≡ some t → Inv t
    after none h = absurd (none_ne_some h)
    after (some e) h = subst Inv (some_injective h) inv

module _ (s : Session) (inv : Inv s) (id : ℕ) (c : Call) (found : get id s.calls ≡ some c) where
  pub entry-of : Fits id c c.phase (has id s.pending) (has id s.ignored)
  entry-of = subst (λ o. Entry id o (has id s.pending) (has id s.ignored)) found (inv.each id)

  pub updated :
      (f : Call → Call) → update_call f (get id s.calls) id s.calls ≡ insert id (f c) s.calls
  updated f = ap (λ o. update_call f o id s.calls) found

  moved_fresh : (c' : Call) (j : ℕ) → s.next_id < j → get j (insert id c' s.calls) ≡ none
  moved_fresh c' j h = elim (Bool-cases (id == j)) [
    | inl e ↦ absurd (none_ne_some (sym (inv.fresh id (ground (arith, e, h))) ∙ found))
    | inr e ↦ rw (get-insert id j c' s.calls, e) (inv.fresh j h)
  ]

  -- The call becomes `f c`, and the two sets change at its id at most.
  pub moved :
      (f : Call → Call) (p i : Bool) (pending' ignored' : List ℕ)
      → ((j : ℕ) → has j pending' ≡ (if id == j then p else has j s.pending))
      → ((j : ℕ) → has j ignored' ≡ (if id == j then i else has j s.ignored))
      → Entry id (some (f c)) p i
      → length pending' ≤ max_pending_calls
      → length ignored' ≤ max_ignored_responses
      → IsConsistent pending' ignored' s.next_id s.running
          (update_call f (get id s.calls) id s.calls)
  moved f p i pending' ignored' hp hi fits lp li =
      subst (IsConsistent pending' ignored' s.next_id s.running) (sym (updated f)) (record {
        each =
            set-Each id (f c) p i s.pending s.ignored pending' ignored' s.calls inv.each hp hi fits;
        fresh = moved_fresh (f c);
        few_pending = lp;
        few_ignored = li;
        few_running = inv.few_running;
      })

  -- The sets stay as they are.
  pub moved-only :
      (f : Call → Call)
      → Entry id (some (f c)) (has id s.pending) (has id s.ignored)
      → IsConsistent s.pending s.ignored s.next_id s.running
          (update_call f (get id s.calls) id s.calls)
  moved-only f fits =
      moved f (has id s.pending) (has id s.ignored) s.pending s.ignored
        (has-kept id (has id s.pending) s.pending refl)
        (has-kept id (has id s.ignored) s.ignored refl) fits inv.few_pending inv.few_ignored

  -- The id leaves `pending`.
  pub moved-erased :
      (f : Call → Call)
      → Entry id (some (f c)) false (has id s.ignored)
      → IsConsistent
          (erase id s.pending)
          s.ignored
          s.next_id
          s.running
          (update_call f (get id s.calls) id s.calls)
  moved-erased f fits =
      moved f false (has id s.ignored) (erase id s.pending) s.ignored
        (λ j. has-erase id j s.pending) (has-kept id (has id s.ignored) s.ignored refl) fits
        (omega (arith, length-erase id s.pending, inv.few_pending)) inv.few_ignored

pub guard-some :
    {A : Type 0} (P : A → Type 0) (b : Bool) (x t : A)
    → (if b then some x else none) ≡ some t
    → P x
    → P t
guard-some P true x t h px = subst P (some_injective h) px
guard-some P false x t h px = absurd (none_ne_some h)
