-- ===== src/Core/Runtime/HubInvariant.antt =====
-- Every subscription has a mailbox of its own, whose place is its identifier, and stands once.
use oikade.Prelude.{ℕ, ◌+◌, ◌≤◌, ◌≡◌, arith, List, [], ◌∷◌, some, none, Option-cases, inl, inr}
use oikade.Prelude.Maps.{Map, get, remove, nat_key, get-insert, get-remove, get-empty-some}
use oikade.Core.Runtime.Ops.{empty_hub}
use oikade.Core.Runtime.Types.{Host, RuntimeError, SubscriptionState, Hub}
use oikade.Core.Runtime.Hub.{
  send_all, dispatch, remove_all, close_all, add_subscription, cancel, recv,
}
use oikade.Core.Runtime.Distinct.{Distinct, insert-Distinct, remove-Distinct, remove_all-Distinct}

module _ {H : Host} {T : Type 0} where
  pub record HubInv (hub : Hub H T) : Type 0 where
    pub own : (id : ℕ) (s : SubscriptionState) → get id hub.subscriptions ≡ some s → s.mailbox ≡ id
    pub bounded :
        (id : ℕ) (s : SubscriptionState)
        → get id hub.subscriptions ≡ some s
        → (1 ≤ id) × (id ≤ hub.next_subscriber)
    pub distinct : Distinct hub.subscriptions

get-remove_all-some :
    (ids : List ℕ) (m : Map ℕ SubscriptionState) (id : ℕ) (s : SubscriptionState)
    → get id (remove_all ids m) ≡ some s
    → get id m ≡ some s
get-remove_all-some [] m id s h = h
get-remove_all-some (j ∷ ids) m id s h =
    ground (arith, get-remove_all-some ids (remove j m) id s h, get-remove j id m)

module _ {H : Host} {T : Type 0} where
  pub dispatch-HubInv : (event : T) (hub : Hub H T) → HubInv hub → HubInv (dispatch event hub)
  unfolding dispatch
  dispatch-HubInv event hub v = record {
    own = λ id s h. v.own id s (
        get-remove_all-some (send_all event hub.subscriptions hub.mailboxes).0 hub.subscriptions id
          s h);
    bounded = λ id s h. v.bounded id s (
        get-remove_all-some (send_all event hub.subscriptions hub.mailboxes).0 hub.subscriptions id
          s h);
    distinct =
        remove_all-Distinct (send_all event hub.subscriptions hub.mailboxes).0 hub.subscriptions
          v.distinct;
  }

  pub close_all-HubInv : (e : RuntimeError) (hub : Hub H T) → HubInv (close_all e hub)
  unfolding close_all get
  close_all-HubInv e hub = record { own = λ id s h. cc; bounded = λ id s h. cc; distinct = tt }

  -- The next identifier is not in use.
  fresh : (hub : Hub H T) → HubInv hub → get (hub.next_subscriber + 1) hub.subscriptions ≡ none
  fresh hub v = elim (Option-cases (get (hub.next_subscriber + 1) hub.subscriptions)) [
    | inl e ↦ e
    | inr (s, e) ↦
        let (low, high) = v.bounded (hub.next_subscriber + 1) s e in absurd (omega (arith, high))
  ]

  pub add_subscription-HubInv :
      (n : ℕ) (hub : Hub H T) → HubInv hub → HubInv (add_subscription n hub).1
  unfolding add_subscription
  add_subscription-HubInv n hub v = record {
    own = λ id s h. ground (
      arith,
      get-insert (hub.next_subscriber + 1) id (record { mailbox = hub.next_subscriber + 1 })
          hub.subscriptions,
      v.own id s,
    );
    bounded = λ id s h. ground (
      arith,
      get-insert (hub.next_subscriber + 1) id (record { mailbox = hub.next_subscriber + 1 })
          hub.subscriptions,
      v.bounded id s,
    );
    distinct =
        insert-Distinct (hub.next_subscriber + 1) (record { mailbox = hub.next_subscriber + 1 })
          hub.subscriptions (fresh hub v) v.distinct;
  }

  pub cancel-HubInv : (n : ℕ) (hub : Hub H T) → HubInv hub → HubInv (cancel n hub)
  unfolding cancel
  cancel-HubInv n hub v = record {
    own = λ id s h. ground (arith, get-remove n id hub.subscriptions, v.own id s);
    bounded = λ id s h. ground (arith, get-remove n id hub.subscriptions, v.bounded id s);
    distinct = remove-Distinct n hub.subscriptions v.distinct;
  }

  pub recv-HubInv : (n : ℕ) (hub : Hub H T) → HubInv hub → HubInv (recv n hub).1
  unfolding recv
  recv-HubInv n hub v = record { own = v.own; bounded = v.bounded; distinct = v.distinct }

  pub empty_hub-HubInv : HubInv (empty_hub {H = H} T)
  unfolding empty_hub
  empty_hub-HubInv = record {
    own = λ id s h. absurd (get-empty-some id s h);
    bounded = λ id s h. absurd (get-empty-some id s h);
    distinct = tt;
  }
