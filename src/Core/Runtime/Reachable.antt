-- ===== src/Core/Runtime/Reachable.antt =====
-- Every call keeps the invariant, so it holds after any sequence of calls.
use oikade.Prelude.{ℕ, ◌≡◌, refl, subst, sym, Option, List, [], ◌∷◌, if_rule, not, All}
use oikade.Prelude.Result.{Result, ok}
use oikade.Prelude.Maps.{string_key, get-empty-some}
use oikade.Core.Model.{DeviceId, CapabilityId, Value, Device}
use oikade.Core.Runtime.Types.{
  Host, Hub, CommandHandler, RuntimeError, RuntimeState, Runtime, Event, TopologyEvent, StateStore,
  stopped, invalid_subscription_buffer,
}
use oikade.Core.Runtime.Ops.{
  is_none, begin, check_handlers, write_value, start, stop, subscribe, subscribe_topology, new,
  bad_buffer, receive, receive_topology, cancel_events, cancel_topology, open_subscription,
  open_topology,
}
use oikade.Core.Runtime.HubInvariant.{
  HubInv, close_all-HubInv, add_subscription-HubInv, cancel-HubInv, recv-HubInv, empty_hub-HubInv,
}
use oikade.Core.Runtime.Restore.{begin-IsRestored, restore_all-IsRestored, check_handlers-All}
use oikade.Core.Runtime.Commit.{
  WriteOutcome, accepted, was_current, is_new, write_value_cases, publish_cases,
}
use oikade.Core.Runtime.Registering.{
  RegisterOutcome, registered, UnregisterOutcome, removed, register_cases, unregister_cases,
}
use oikade.Core.Runtime.Exec.{◌>>◌, guard_rule}
use oikade.Core.Runtime.Lookup.{ensure_started}
use oikade.Core.Runtime.Invariant.{
  IsHandled, Inv, insert_device-Inv, remove_device-Inv, apply_commit-Inv,
}
use oikade.Core.Runtime.Step.{
  Call, starts, stops, registers, unregisters, writes, publishes, subscribes, subscribes_topology,
  receives, receives_topology, cancels, cancels_topology, changes, step, run, discard_keeps,
}

IsHandled-check_handlers :
    {A : Type 0} (d : Device) (handler : Option A)
    → check_handlers d.id (is_none handler) d.capabilities ≡ ok tt
    → All (IsHandled handler) d.capabilities
IsHandled-check_handlers d handler h = check_handlers-All d.id (is_none handler) d.capabilities h

module _ {H : Host} where
  pub WriteOutcome-Inv :
      {A : Type 0} (a : A) (r : Runtime H) (id : DeviceId) (k : CapabilityId) (v : Value)
      (out : Result RuntimeError A × Runtime H)
      → Inv r.state
      → WriteOutcome a r id k v out
      → Inv out.1.state
  WriteOutcome-Inv a r id k v out inv (WriteOutcome.refused e p q) = subst Inv (sym q) inv
  WriteOutcome-Inv a r id k v out inv (accepted reg c on found has valid p (was_current s q)) =
      subst Inv (sym q) inv
  WriteOutcome-Inv a r id k v out inv (accepted reg c on found has valid p (is_new now q)) =
      subst Inv (sym q) (apply_commit-Inv reg id k c v now r.state on found has valid inv)

  RegisterOutcome-Inv :
      (d : Device) (handler : Option (CommandHandler H)) (r : Runtime H)
      (out : Result RuntimeError (Unit {0}) × Runtime H)
      → Inv r.state
      → RegisterOutcome d handler r out
      → Inv out.1.state
  RegisterOutcome-Inv d handler r out inv (RegisterOutcome.refused e p q) = subst Inv (sym q) inv
  RegisterOutcome-Inv d handler r out inv (registered loaded s valid handled on fresh p q res st) =
      subst Inv (sym st) (
        insert_device-Inv d handler s r.state on valid
          (restore_all-IsRestored (IsHandled handler) d.id d.capabilities (begin loaded) s
            (IsHandled-check_handlers d handler handled)
            (begin-IsRestored (IsHandled handler) loaded) q)
          inv)

  UnregisterOutcome-Inv :
      (id : DeviceId) (r : Runtime H) (out : Result RuntimeError (Unit {0}) × Runtime H)
      → Inv r.state
      → UnregisterOutcome id r out
      → Inv out.1.state
  UnregisterOutcome-Inv id r out inv (UnregisterOutcome.refused e p q) = subst Inv (sym q) inv
  UnregisterOutcome-Inv id r out inv (removed reg on found p q) =
      subst Inv (sym q) (remove_device-Inv id r.state on inv)

  start-Inv : (r : Runtime H) → Inv r.state → Inv (start r).1.state
  unfolding start
  start-Inv r v =
      guard_rule (λ out. Inv out.1.state) r.state.started _ _ r (λ _. v)
        (λ _. record {
          stopped_empty = λ off. cc;
          registered = v.registered;
          events_inv = v.events_inv;
          topology_inv = v.topology_inv;
        })

  stop-Inv : (r : Runtime H) → Inv r.state → Inv (stop r).1.state
  unfolding stop
  stop-Inv r v =
      if_rule Inv r.state.started
        (λ _. record {
          stopped_empty = λ off. refl;
          registered = λ id reg h. absurd (get-empty-some id reg h);
          events_inv = close_all-HubInv stopped r.state.events;
          topology_inv = close_all-HubInv stopped r.state.topology;
        })
        (λ _. v)

  -- Another state of the subscriptions leaves the rest of the invariant as it is.
  with_events-Inv :
      (s : RuntimeState H) (hub : Hub H Event)
      → Inv s
      → HubInv hub
      → Inv (record s { events = hub })
  with_events-Inv s hub v h = record {
    stopped_empty = v.stopped_empty;
    registered = v.registered;
    events_inv = h;
    topology_inv = v.topology_inv;
  }

  with_topology-Inv :
      (s : RuntimeState H) (hub : Hub H TopologyEvent)
      → Inv s
      → HubInv hub
      → Inv (record s { topology = hub })
  with_topology-Inv s hub v h = record {
    stopped_empty = v.stopped_empty;
    registered = v.registered;
    events_inv = v.events_inv;
    topology_inv = h;
  }

  subscribe-Inv : (n : ℕ) (r : Runtime H) → Inv r.state → Inv (subscribe n r).1.state
  unfolding subscribe ensure_started
  subscribe-Inv n r v =
      guard_rule P (bad_buffer n) invalid_subscription_buffer
        (ensure_started >> open_subscription n) r (λ _. v)
        (λ _.
          guard_rule P (not r.state.started) stopped (open_subscription n) r (λ _. v)
            (λ _.
              with_events-Inv r.state _ v (add_subscription-HubInv n r.state.events v.events_inv)))
    where
      P : Result RuntimeError ℕ × Runtime H → Type 0
      P out = Inv out.1.state

  subscribe_topology-Inv :
      (n : ℕ) (r : Runtime H) → Inv r.state → Inv (subscribe_topology n r).1.state
  unfolding subscribe_topology ensure_started
  subscribe_topology-Inv n r v =
      guard_rule P (bad_buffer n) invalid_subscription_buffer (ensure_started >> open_topology n) r
        (λ _. v)
        (λ _.
          guard_rule P (not r.state.started) stopped (open_topology n) r (λ _. v)
            (λ _.
              with_topology-Inv r.state _ v
                (add_subscription-HubInv n r.state.topology v.topology_inv)))
    where
      P : Result RuntimeError ℕ × Runtime H → Type 0
      P out = Inv out.1.state

  -- Every call of the runtime, and every change of the world around it, keeps the invariant.
  pub step-Inv : (c : Call H) (r : Runtime H) → Inv r.state → Inv (step c r).state
  unfolding step receive receive_topology cancel_events cancel_topology
  step-Inv starts r v = start-Inv r v
  step-Inv stops r v = stop-Inv r v
  step-Inv (registers d handler) r v =
      RegisterOutcome-Inv d handler r _ v (register_cases d handler r)
  step-Inv (unregisters id) r v = UnregisterOutcome-Inv id r _ v (unregister_cases id r)
  step-Inv (writes c) r v =
      let (x, out) = write_value_cases c r in
      subst (λ (y : Runtime H). Inv y.state) (sym (discard_keeps (write_value c r)))
        (WriteOutcome-Inv x r c.device_id c.capability_id x _ v out)
  step-Inv (publishes id k x) r v = WriteOutcome-Inv tt r id k x _ v (publish_cases id k x r)
  step-Inv (subscribes n) r v =
      subst (λ (y : Runtime H). Inv y.state) (sym (discard_keeps (subscribe n r)))
        (subscribe-Inv n r v)
  step-Inv (subscribes_topology n) r v =
      subst (λ (y : Runtime H). Inv y.state) (sym (discard_keeps (subscribe_topology n r)))
        (subscribe_topology-Inv n r v)
  step-Inv (receives id) r v =
      with_events-Inv r.state _ v (recv-HubInv id r.state.events v.events_inv)
  step-Inv (receives_topology id) r v =
      with_topology-Inv r.state _ v (recv-HubInv id r.state.topology v.topology_inv)
  step-Inv (cancels id) r v =
      with_events-Inv r.state _ v (cancel-HubInv id r.state.events v.events_inv)
  step-Inv (cancels_topology id) r v =
      with_topology-Inv r.state _ v (cancel-HubInv id r.state.topology v.topology_inv)
  step-Inv (changes w) r v = v

  new-Inv : (store : Option (StateStore H)) (w : H.World) → Inv (new store w).state
  unfolding new
  new-Inv store w = record {
    stopped_empty = λ _. refl;
    registered = λ id reg h. absurd (get-empty-some id reg h);
    events_inv = empty_hub-HubInv;
    topology_inv = empty_hub-HubInv;
  }

  run_from-Inv : (cs : List (Call H)) (r : Runtime H) → Inv r.state → Inv (run cs r).state
  unfolding run
  run_from-Inv [] r v = v
  run_from-Inv (c ∷ cs) r v = run_from-Inv cs (step c r) (step-Inv c r v)

  -- From a new runtime, whatever the calls and their results, the invariant holds: a stopped runtime
  -- has no device; a registered device is valid, stands under its own identifier, and has for each
  -- capability one valid value, both current and stored, and a handler if it may be written; and
  -- the subscriptions are well formed.
  pub run-Inv :
      (cs : List (Call H)) (store : Option (StateStore H)) (w : H.World)
      → Inv (run cs (new store w)).state
  run-Inv cs store w = run_from-Inv cs (new store w) (new-Inv store w)
