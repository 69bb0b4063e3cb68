-- ===== src/Core/Runtime/Delivery.antt =====
-- What a dispatched event does to each subscription.
use oikade.Prelude.{
  ℕ, ◌≡◌, refl, ap, subst, ◌∙◌, arith, Bool, true, false, not, Option, none, some, List, [], ◌∷◌,
  ◌==◌, ==_iff, if◌then◌else◌, Bool-cases, inl, inr, ◌||◌, ◌&&◌,
}
use oikade.Prelude.Maps.{Map, get, remove, nat_key, get-remove}
use oikade.Core.Runtime.Types.{
  Host, SendOutcome, sent, full, closed, slow_consumer, SubscriptionState, Mailbox, Hub,
}
use oikade.Core.Runtime.Hub.{
  put, send_to, send_all, remove_all, dispatch, note_closed, set_terminal,
}
use oikade.Core.Runtime.Distinct.{Distinct}
use oikade.Core.Runtime.HubInvariant.{HubInv}

abbrev is_sent : SendOutcome → Bool
is_sent sent = true
is_sent _ = false

abbrev is_in : ℕ → List ℕ → Bool
is_in j [] = false
is_in j (i ∷ ids) = i == j || is_in j ids

get-remove_all :
    (ids : List ℕ) (m : Map ℕ SubscriptionState) (j : ℕ)
    → get j (remove_all ids m) ≡ (if is_in j ids then none else get j m)
get-remove_all [] m j = refl
get-remove_all (i ∷ ids) m j = ground (arith, get-remove_all ids (remove i m) j, get-remove i j m)

is_in-note_closed :
    (o : SendOutcome) (k i : ℕ) (ids : List ℕ)
    → is_in i (note_closed o k ids) ≡ ((k == i) && not (is_sent o)) || is_in i ids
is_in-note_closed sent k i ids = ground arith
is_in-note_closed full k i ids = ground arith
is_in-note_closed closed k i ids = ground arith

module _ {H : Host} {T : Type 0} where
  -- What becomes of the mailbox at a place, and of the subscription of that identifier, in terms of
  -- `send_to`.
  abbrev served_by : T → Option SubscriptionState → Mailbox H T → Mailbox H T
  served_by event none box = box
  served_by event (some s) box = (send_to event box).1

  abbrev kept_by : T → Option SubscriptionState → Mailbox H T → Option SubscriptionState
  kept_by event none box = none
  kept_by event (some s) box = if is_sent (send_to event box).0 then some s else none

  abbrev failed : T → Option SubscriptionState → Mailbox H T → Bool
  failed event none box = false
  failed event (some s) box = not (is_sent (send_to event box).0)

  kept_eq :
      (event : T) (o : Option SubscriptionState) (box : Mailbox H T)
      → (if failed event o box then none else o) ≡ kept_by event o box
  kept_eq event none box = refl
  kept_eq event (some s) box = ground arith

  pub put_same : (k : ℕ) (box : Mailbox H T) (boxes : ℕ → Mailbox H T) → put k box boxes k ≡ box
  unfolding put
  put_same k box boxes = rw ((==_iff k k).1 refl)

  pub put_other :
      (k i : ℕ) (box : Mailbox H T) (boxes : ℕ → Mailbox H T)
      → (k == i) ≡ false
      → put k box boxes i ≡ boxes i
  unfolding put
  put_other k i box boxes e = rw e

  -- The rest of the loop, after the mailbox of the first subscription has been served.
  abbrev Served : T → Map ℕ SubscriptionState → (ℕ → Mailbox H T) → ℕ → Type 0
  Served event m boxes i =
      ((send_all event m boxes).1 i ≡ served_by event (get i m) (boxes i))
      × (is_in i (send_all event m boxes).0 ≡ failed event (get i m) (boxes i))

  hit :
      (event : T) (k : ℕ) (s : SubscriptionState) (m : Map ℕ SubscriptionState)
      (boxes : ℕ → Mailbox H T)
      → s.mailbox ≡ k
      → get k m ≡ none
      → Served event m (put k (send_to event (boxes k)).1 boxes) k
      → Served event ((k, s) ∷ m) boxes k
  unfolding send_all get
  hit event k s m boxes mine fresh (a, b) =
      rw (mine, (==_iff k k).1 refl)
        (
          a ∙ rw fresh (put_same k (send_to event (boxes k)).1 boxes),
          is_in-note_closed (send_to event (boxes k)).0 k k _ ∙ ground (arith, b, fresh),
        )

  miss :
      (event : T) (k i : ℕ) (s : SubscriptionState) (m : Map ℕ SubscriptionState)
      (boxes : ℕ → Mailbox H T)
      → s.mailbox ≡ k
      → (k == i) ≡ false
      → Served event m (put k (send_to event (boxes k)).1 boxes) i
      → Served event ((k, s) ∷ m) boxes i
  unfolding send_all get
  miss event k i s m boxes mine other (a, b) =
      rw (mine, other)
        (
          a
              ∙ ap (served_by event (get i m))
                  (put_other k i (send_to event (boxes k)).1 boxes other),
          is_in-note_closed (send_to event (boxes k)).0 k i _
              ∙ rw other (
                  b
                  ∙ ap (failed event (get i m))
                      (put_other k i (send_to event (boxes k)).1 boxes other)),
        )

  send_all-Served :
      (event : T) (m : Map ℕ SubscriptionState) (boxes : ℕ → Mailbox H T) (i : ℕ)
      → Distinct m
      → ((id : ℕ) (s : SubscriptionState) → get id m ≡ some s → s.mailbox ≡ id)
      → Served event m boxes i
  unfolding send_all get
  send_all-Served event [] boxes i d own = (refl, refl)
  send_all-Served event ((k, s) ∷ m) boxes i d own = elim (Bool-cases (k == i)) [
    | inl e ↦
        let same : k ≡ i = (==_iff k i).0 e in
        subst (Served event ((k, s) ∷ m) boxes) same
          (hit event k s m boxes mine d.0 (send_all-Served event m _ k d.1 others))
    | inr e ↦ miss event k i s m boxes mine e (send_all-Served event m _ i d.1 others)
  ]
    where
      mine : s.mailbox ≡ k
      mine = own k s (rw ((==_iff k k).1 refl))

      others : (id : ℕ) (t : SubscriptionState) → get id m ≡ some t → t.mailbox ≡ id
      others id t h = own id t (ground (arith, h, d.0, ==_iff k id))

  -- A subscription to which an event was sent once: it has the channel that the one `try_send`
  -- leaves, and ends as a slow consumer if that was full.
  abbrev delivered : SendOutcome × H.Chan T → Mailbox H T → Mailbox H T
  delivered (sent, q) box = record { queue = q; terminal = box.terminal }
  delivered (full, q) box = record { queue = q; terminal = some slow_consumer }
  delivered (closed, q) box = record { queue = q; terminal = box.terminal }

  abbrev pub served : T → Option SubscriptionState → Mailbox H T → Mailbox H T
  served event none box = box
  served event (some s) box = delivered (H.try_send T event box.queue) box

  abbrev pub kept : T → Option SubscriptionState → Mailbox H T → Option SubscriptionState
  kept event none box = none
  kept event (some s) box = if is_sent (H.try_send T event box.queue).0 then some s else none

  send_to-delivered :
      (event : T) (box : Mailbox H T)
      → send_to event box
        ≡ ((H.try_send T event box.queue).0, delivered (H.try_send T event box.queue) box)
  unfolding send_to set_terminal
  send_to-delivered event box = of_outcome (H.try_send T event box.queue) refl
    where
      of_outcome :
          (x : SendOutcome × H.Chan T)
          → H.try_send T event box.queue ≡ x
          → send_to event box ≡ (x.0, delivered x box)
      of_outcome (sent, q) p = rw p refl
      of_outcome (full, q) p = rw p refl
      of_outcome (closed, q) p = rw p refl

  served_by-served :
      (event : T) (o : Option SubscriptionState) (box : Mailbox H T)
      → served_by event o box ≡ served event o box
  served_by-served event none box = refl
  served_by-served event (some s) box =
      ap (λ (x : SendOutcome × Mailbox H T). x.1) (send_to-delivered event box)

  kept_by-kept :
      (event : T) (o : Option SubscriptionState) (box : Mailbox H T)
      → kept_by event o box ≡ kept event o box
  kept_by-kept event none box = refl
  kept_by-kept event (some s) box =
      ap (λ (x : SendOutcome × Mailbox H T). if is_sent x.0 then some s else none)
        (send_to-delivered event box)

  -- Where the invariant holds, a dispatched event goes to the mailbox of every subscription by one
  -- `try_send`, and to no other mailbox. If the channel is full, the subscription ends as a slow
  -- consumer. Exactly those subscriptions are kept whose channel took the event.
  pub dispatch-served :
      (event : T) (hub : Hub H T) (id : ℕ)
      → HubInv hub
      → ((dispatch event hub).mailboxes id
          ≡ served event (get id hub.subscriptions) (hub.mailboxes id))
        × (get id (dispatch event hub).subscriptions
            ≡ kept event (get id hub.subscriptions) (hub.mailboxes id))
  unfolding dispatch
  dispatch-served event hub id v =
      let (a, b) = send_all-Served event hub.subscriptions hub.mailboxes id v.distinct v.own in
      (
        a ∙ served_by-served event (get id hub.subscriptions) (hub.mailboxes id),
        get-remove_all (send_all event hub.subscriptions hub.mailboxes).0 hub.subscriptions id
            ∙ rw b (kept_eq event (get id hub.subscriptions) (hub.mailboxes id))
            ∙ kept_by-kept event (get id hub.subscriptions) (hub.mailboxes id),
      )
