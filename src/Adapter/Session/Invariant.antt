-- ===== src/Adapter/Session/Invariant.antt =====
-- What holds of a session whatever the order of the steps of its tasks.
use text.Mathlib.Text.{◌==◌ as str_eq}
use oikade.Prelude.{
  ℕ, ◌≤◌, ◌<◌, ◌≡◌, refl, subst, String, Bool, true, false, Option, none, some, List, ◌==◌, ==_iff,
  length, if◌then◌else◌, inl, inr, Bool-cases,
}
use oikade.Prelude.Result.{ok, err}
use oikade.Prelude.Maps.{Map, nat_key, get, insert, get-insert}
use oikade.Adapter.Wire.{Envelope}
use oikade.Adapter.Session.Ids.{has}
use oikade.Adapter.Session.State.{
  Session, Call, Phase, starting, registered, withdrawing, waiting, expiring, ignoring, finished,
  Receiver, empty, dropped, sent, max_pending_calls, max_ignored_responses, max_inbound_calls,
}

-- A call whose sender is in `pending` has an empty receiver, and the other way round; a response that
-- was received has the id of the call.
abbrev pub Answerable : ℕ → Receiver → Bool → Type 0
Answerable id empty p = p ≡ true
Answerable id dropped p = p ≡ false
Answerable id (sent (ok e)) p = (p ≡ false) × (e.id ≡ id)
Answerable id (sent (err e)) p = p ≡ false

-- A call that succeeded received a response with its id and its method, and returned its body.
abbrev pub Answered : ℕ → Call → String → Type 0
Answered id c body =
    (e : Envelope) × (c.receiver ≡ sent (ok e))
    × (e.id ≡ id)
    × (str_eq e.method c.method ≡ true)
    × (e.error ≡ none)
    × (e.body ≡ some body)

-- A call in each phase, whether its id is in `pending`, and whether it is in `ignored`.
abbrev pub Fits : ℕ → Call → Phase → Bool → Bool → Type 0
Fits id c starting p i = (c.receiver ≡ empty) × (p ≡ false) × (i ≡ false)
Fits id c registered p i = Answerable id c.receiver p × (i ≡ false)
Fits id c withdrawing p i = Answerable id c.receiver p × (i ≡ false)
Fits id c waiting p i = Answerable id c.receiver p × (i ≡ false)
Fits id c expiring p i = Answerable id c.receiver p × (i ≡ false)
Fits id c ignoring p i = (p ≡ false) × (i ≡ false)
Fits id c (finished (ok body)) p i = Answered id c body × (p ≡ false) × (i ≡ false)
Fits id c (finished (err e)) p i = i ≡ true → p ≡ false

abbrev pub Entry : ℕ → Option Call → Bool → Bool → Type 0
Entry id none p i = (p ≡ false) × (i ≡ false)
Entry id (some c) p i = Fits id c c.phase p i

abbrev pub Each : List ℕ → List ℕ → Map ℕ Call → Type 0
Each pending ignored calls = (id : ℕ) → Entry id (get id calls) (has id pending) (has id ignored)

pub record IsConsistent (pending ignored : List ℕ) (next_id : ℕ) (running : List Envelope)
    (calls : Map ℕ Call) : Type 0 where
  pub each : Each pending ignored calls
  pub fresh : (id : ℕ) → next_id < id → get id calls ≡ none
  pub few_pending : length pending ≤ max_pending_calls
  pub few_ignored : length ignored ≤ max_ignored_responses
  pub few_running : length running ≤ max_inbound_calls

abbrev pub Inv : Session → Type 0
Inv s = IsConsistent s.pending s.ignored s.next_id s.running s.calls

-- One call and its place in the two sets are changed.
pub set-Each :
    (id : ℕ) (c : Call) (p i : Bool) (pending ignored pending' ignored' : List ℕ)
    (calls : Map ℕ Call)
    → Each pending ignored calls
    → ((j : ℕ) → has j pending' ≡ (if id == j then p else has j pending))
    → ((j : ℕ) → has j ignored' ≡ (if id == j then i else has j ignored))
    → Entry id (some c) p i
    → Each pending' ignored' (insert id c calls)
set-Each id c p i pending ignored pending' ignored' calls each hp hi new j =
    elim (Bool-cases (id == j)) [
      | inl e ↦
          subst (λ k. Entry k (get k (insert id c calls)) (has k pending') (has k ignored'))
            ((==_iff id j).0 e)
            (rw (get-insert id id c calls, hp id, hi id, (==_iff id id).1 refl) new)
      | inr e ↦ rw (get-insert id j c calls, hp j, hi j, e) (each j)
    ]
