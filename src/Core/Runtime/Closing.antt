-- ===== src/Core/Runtime/Closing.antt =====
-- What `stop` does to the subscriptions.
use oikade.Prelude.{
  ℕ, ◌≡◌, refl, ap, subst, ◌∙◌, arith, true, Option, none, some, [], ◌∷◌, ◌==◌, ==_iff, Bool-cases,
  inl, inr,
}
use oikade.Prelude.Result.{ok}
use oikade.Prelude.Maps.{Map, get, nat_key}
use oikade.Core.Runtime.Types.{
  Host, RuntimeError, stopped, SubscriptionState, Mailbox, Hub, Runtime,
}
use oikade.Core.Runtime.Hub.{put, set_terminal, terminate_all, close_all}
use oikade.Core.Runtime.Ops.{stop}
use oikade.Core.Runtime.Distinct.{Distinct}
use oikade.Core.Runtime.HubInvariant.{HubInv}
use oikade.Core.Runtime.Invariant.{Inv}
use oikade.Core.Runtime.Delivery.{put_same, put_other}

module _ {H : Host} {T : Type 0} where
  abbrev pub terminated : RuntimeError → Option SubscriptionState → Mailbox H T → Mailbox H T
  terminated e none box = box
  terminated e (some s) box = record box { terminal = some e }

  terminate_all-terminated :
      (e : RuntimeError) (m : Map ℕ SubscriptionState) (boxes : ℕ → Mailbox H T) (i : ℕ)
      → Distinct m
      → ((id : ℕ) (s : SubscriptionState) → get id m ≡ some s → s.mailbox ≡ id)
      → terminate_all e m boxes i ≡ terminated e (get i m) (boxes i)
  unfolding terminate_all get set_terminal
  terminate_all-terminated e [] boxes i d own = refl
  terminate_all-terminated e ((k, s) ∷ m) boxes i d own = elim (Bool-cases (k == i)) [
    | inl p ↦
        let same : k ≡ i = (==_iff k i).0 p in
        subst
          (λ j. terminate_all e ((k, s) ∷ m) boxes j ≡ terminated e (get j ((k, s) ∷ m)) (boxes j))
          same
          (rw (mine, (==_iff k k).1 refl)
            (terminate_all-terminated e m (put k box boxes) k d.1 others
              ∙ rw (d.0) (put_same k box boxes)))
    | inr p ↦
        rw (mine, p)
          (terminate_all-terminated e m (put k box boxes) i d.1 others
            ∙ ap (terminated e (get i m)) (put_other k i box boxes p))
  ]
    where
      mine : s.mailbox ≡ k
      mine = own k s (rw ((==_iff k k).1 refl))

      box : Mailbox H T
      box = set_terminal e (boxes k)

      others : (id : ℕ) (t : SubscriptionState) → get id m ≡ some t → t.mailbox ≡ id
      others id t h = own id t (ground (arith, h, d.0, ==_iff k id))

  close_all-terminated :
      (e : RuntimeError) (hub : Hub H T) (id : ℕ)
      → HubInv hub
      → (close_all e hub).mailboxes id ≡ terminated e (get id hub.subscriptions) (hub.mailboxes id)
  unfolding close_all
  close_all-terminated e hub id v =
      terminate_all-terminated e hub.subscriptions hub.mailboxes id v.distinct v.own

module _ {H : Host} where
  -- Where the invariant holds, stopping a started runtime succeeds and leaves no device and no
  -- subscription, and the subscriptions that there were, and no others, end with `Stopped`, their
  -- buffered events untouched; the revision stays.
  pub stop-terminated :
      (r : Runtime H) (id : ℕ)
      → Inv r.state
      → r.state.started ≡ true
      → ((stop r).0 ≡ ok tt)
        × ((stop r).1.state.devices ≡ [])
        × ((stop r).1.state.revision ≡ r.state.revision)
        × ((stop r).1.state.events.subscriptions ≡ [])
        × ((stop r).1.state.topology.subscriptions ≡ [])
        × ((stop r).1.state.events.mailboxes id
            ≡ terminated stopped
                (get id r.state.events.subscriptions)
                (r.state.events.mailboxes id))
        × ((stop r).1.state.topology.mailboxes id
            ≡ terminated stopped
                (get id r.state.topology.subscriptions)
                (r.state.topology.mailboxes id))
  unfolding stop close_all
  stop-terminated r id v on = rw on (
    refl,
    refl,
    refl,
    refl,
    refl,
    close_all-terminated stopped r.state.events id v.events_inv,
    close_all-terminated stopped r.state.topology id v.topology_inv,
  )
