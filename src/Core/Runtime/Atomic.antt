-- ===== src/Core/Runtime/Atomic.antt =====
-- Failed calls, and the revision counter.
use oikade.Prelude.{ℕ, Option, ◌+◌, ◌≡◌, ◌≢◌, refl, sym, ap, subst, ◌∙◌, ◌⊎◌, inl, inr, not}
use oikade.Prelude.Result.{Result, err, ok_ne_err}
use oikade.Core.Model.{DeviceId, CapabilityId, Value, Device}
use oikade.Core.Runtime.Types.{
  Host, CommandHandler, RuntimeError, RuntimeState, Runtime, already_started, stopped,
  invalid_subscription_buffer,
}
use oikade.Core.Runtime.Exec.{◌>>◌, guard_rule}
use oikade.Core.Runtime.Lookup.{ensure_started}
use oikade.Core.Runtime.Ops.{
  start, stop, write_value, publish, subscribe, subscribe_topology, receive, receive_topology,
  cancel_events, cancel_topology, bad_buffer, open_subscription, open_topology, apply_commit,
  insert_device, remove_device,
}
use oikade.Core.Runtime.Commit.{
  WriteOutcome, refused, accepted, was_current, is_new, write_value_cases, publish_cases,
}
use oikade.Core.Runtime.Registering.{
  RegisterOutcome, registered, UnregisterOutcome, removed, register_cases, unregister_cases,
}
use oikade.Core.Runtime.Step.{
  Call, starts, stops, registers, unregisters, writes, publishes, subscribes, subscribes_topology,
  receives, receives_topology, cancels, cancels_topology, changes, discard, perform, step,
  discard_keeps, discard-err,
}

module _ {H : Host} where
  -- If the call failed, the state stayed.
  abbrev Atomic : {A : Type 0} → Runtime H → Result RuntimeError A × Runtime H → Type 0
  Atomic r out = (e : RuntimeError) → out.0 ≡ err e → out.1.state ≡ r.state

  WriteOutcome-Atomic :
      {A : Type 0} (a : A) (r : Runtime H) (id : DeviceId) (k : CapabilityId) (v : Value)
      (out : Result RuntimeError A × Runtime H)
      → WriteOutcome a r id k v out
      → Atomic r out
  WriteOutcome-Atomic a r id k v out (refused x p q) e h = q
  WriteOutcome-Atomic a r id k v out (accepted reg c on found has valid p s) e h =
      absurd (ok_ne_err (sym p ∙ h))

  discard-Atomic :
      {A : Type 0} (r : Runtime H) (out : Result RuntimeError A × Runtime H)
      → Atomic r out
      → (e : RuntimeError) → (discard out).0 ≡ err e
      → (discard out).1.state ≡ r.state
  discard-Atomic r out t e h =
      ap (λ (x : Runtime H). x.state) (discard_keeps out) ∙ t e (discard-err out e h)

  subscribe-Atomic : (n : ℕ) (r : Runtime H) → Atomic r (subscribe n r)
  unfolding subscribe ensure_started
  subscribe-Atomic n r =
      guard_rule (Atomic r) (bad_buffer n) invalid_subscription_buffer
        (ensure_started >> open_subscription n) r (λ _ e h. refl)
        (λ _.
          guard_rule (Atomic r) (not r.state.started) stopped (open_subscription n) r
            (λ _ e h. refl) (λ _ e h. absurd (ok_ne_err h)))

  subscribe_topology-Atomic : (n : ℕ) (r : Runtime H) → Atomic r (subscribe_topology n r)
  unfolding subscribe_topology ensure_started
  subscribe_topology-Atomic n r =
      guard_rule (Atomic r) (bad_buffer n) invalid_subscription_buffer
        (ensure_started >> open_topology n) r (λ _ e h. refl)
        (λ _.
          guard_rule (Atomic r) (not r.state.started) stopped (open_topology n) r (λ _ e h. refl)
            (λ _ e h. absurd (ok_ne_err h)))

  RegisterOutcome-Atomic :
      (r : Runtime H) {out : Result RuntimeError (Unit {0}) × Runtime H}
      → {d : Device} {h : Option (CommandHandler H)} → RegisterOutcome d h r out
      → Atomic r out
  RegisterOutcome-Atomic r (RegisterOutcome.refused x p q) e h = q
  RegisterOutcome-Atomic r (registered l s va ha on fr p q res st) e h =
      absurd (ok_ne_err (sym res ∙ h))

  UnregisterOutcome-Atomic :
      (r : Runtime H) {out : Result RuntimeError (Unit {0}) × Runtime H} {id : DeviceId}
      → UnregisterOutcome id r out
      → Atomic r out
  UnregisterOutcome-Atomic r (UnregisterOutcome.refused x p q) e h = q
  UnregisterOutcome-Atomic r (removed reg on found p q) e h = absurd (ok_ne_err (sym p ∙ h))

  -- A call that returns an error leaves the runtime's own state as it was, whatever the store and
  -- the command handlers have done to the world.
  pub step-err :
      (c : Call H) (r : Runtime H) (e : RuntimeError)
      → (perform c r).0 ≡ err e
      → (step c r).state ≡ r.state
  unfolding step start stop receive receive_topology cancel_events cancel_topology
  step-err starts r e h =
      guard_rule (Atomic r) r.state.started already_started _ r (λ _ _ _. refl)
        (λ _ _ p. absurd (ok_ne_err p)) e h
  step-err stops r e h = absurd (ok_ne_err h)
  step-err (registers d handler) r e h = RegisterOutcome-Atomic r (register_cases d handler r) e h
  step-err (unregisters id) r e h = UnregisterOutcome-Atomic r (unregister_cases id r) e h
  step-err (writes c) r e h =
      let (x, out) = write_value_cases c r in
      discard-Atomic r (write_value c r)
        (WriteOutcome-Atomic x r c.device_id c.capability_id x (write_value c r) out) e h
  step-err (publishes id k v) r e h =
      WriteOutcome-Atomic tt r id k v (publish id k v r) (publish_cases id k v r) e h
  step-err (subscribes n) r e h = discard-Atomic r (subscribe n r) (subscribe-Atomic n r) e h
  step-err (subscribes_topology n) r e h =
      discard-Atomic r (subscribe_topology n r) (subscribe_topology-Atomic n r) e h
  step-err (receives id) r e h = absurd (ok_ne_err h)
  step-err (receives_topology id) r e h = absurd (ok_ne_err h)
  step-err (cancels id) r e h = absurd (ok_ne_err h)
  step-err (cancels_topology id) r e h = absurd (ok_ne_err h)
  step-err (changes w) r e h = absurd (ok_ne_err h)

  -- A step of the revision: either it stays, and the devices with it, or it grows by one.
  abbrev pub Counts : RuntimeState H → RuntimeState H → Type 0
  Counts s t = ((t.revision ≡ s.revision) × (t.devices ≡ s.devices)) ⊎ (t.revision ≡ s.revision + 1)

  still : (s t : RuntimeState H) → t ≡ s → Counts s t
  still s t p =
      inl (ap (λ (x : RuntimeState H). x.revision) p, ap (λ (x : RuntimeState H). x.devices) p)

  WriteOutcome-Counts :
      {A : Type 0} (a : A) (r : Runtime H) (id : DeviceId) (k : CapabilityId) (v : Value)
      (out : Result RuntimeError A × Runtime H)
      → WriteOutcome a r id k v out
      → Counts r.state out.1.state
  unfolding apply_commit
  WriteOutcome-Counts a r id k v out (refused x p q) = still r.state out.1.state q
  WriteOutcome-Counts a r id k v out (accepted reg c on found has valid p (was_current e q)) =
      still r.state out.1.state q
  WriteOutcome-Counts a r id k v out (accepted reg c on found has valid p (is_new now q)) =
      inr (ap (λ (x : RuntimeState H). x.revision) q)

  subscribe-Counts : (n : ℕ) (r : Runtime H) → Counts r.state (subscribe n r).1.state
  unfolding subscribe ensure_started
  subscribe-Counts n r =
      guard_rule (λ out. Counts r.state out.1.state) (bad_buffer n) invalid_subscription_buffer
        (ensure_started >> open_subscription n) r (λ _. inl (refl, refl))
        (λ _.
          guard_rule (λ out. Counts r.state out.1.state) (not r.state.started) stopped
            (open_subscription n) r (λ _. inl (refl, refl)) (λ _. inl (refl, refl)))

  subscribe_topology-Counts :
      (n : ℕ) (r : Runtime H) → Counts r.state (subscribe_topology n r).1.state
  unfolding subscribe_topology ensure_started
  subscribe_topology-Counts n r =
      guard_rule (λ out. Counts r.state out.1.state) (bad_buffer n) invalid_subscription_buffer
        (ensure_started >> open_topology n) r (λ _. inl (refl, refl))
        (λ _.
          guard_rule (λ out. Counts r.state out.1.state) (not r.state.started) stopped
            (open_topology n) r (λ _. inl (refl, refl)) (λ _. inl (refl, refl)))

  -- Each call but `stop` either leaves the revision and the devices as they were, or increases the
  -- revision by one.
  pub step-revision : (c : Call H) (r : Runtime H) → c ≢ stops → Counts r.state (step c r).state
  unfolding step start receive receive_topology cancel_events cancel_topology insert_device
      remove_device
  step-revision starts r n =
      guard_rule (λ out. Counts r.state out.1.state) r.state.started already_started _ r
        (λ _. inl (refl, refl)) (λ _. inl (refl, refl))
  step-revision stops r n = absurd (n refl)
  step-revision (registers d handler) r n = elim (register_cases d handler r) [
    | RegisterOutcome.refused e p q ↦ still r.state _ q
    | registered l s va ha on fr p q res st ↦ inr (ap (λ (x : RuntimeState H). x.revision) st)
  ]
  step-revision (unregisters id) r n = elim (unregister_cases id r) [
    | UnregisterOutcome.refused e p q ↦ still r.state _ q
    | removed reg on found p q ↦ inr (ap (λ (x : RuntimeState H). x.revision) q)
  ]
  step-revision (writes c) r n =
      let (x, out) = write_value_cases c r in
      subst (λ (y : Runtime H). Counts r.state y.state) (sym (discard_keeps (write_value c r)))
        (WriteOutcome-Counts x r c.device_id c.capability_id x (write_value c r) out)
  step-revision (publishes id k v) r n =
      WriteOutcome-Counts tt r id k v (publish id k v r) (publish_cases id k v r)
  step-revision (subscribes m) r n =
      subst (λ (y : Runtime H). Counts r.state y.state) (sym (discard_keeps (subscribe m r)))
        (subscribe-Counts m r)
  step-revision (subscribes_topology m) r n =
      subst (λ (y : Runtime H). Counts r.state y.state)
        (sym (discard_keeps (subscribe_topology m r))) (subscribe_topology-Counts m r)
  step-revision (receives id) r n = inl (refl, refl)
  step-revision (receives_topology id) r n = inl (refl, refl)
  step-revision (cancels id) r n = inl (refl, refl)
  step-revision (cancels_topology id) r n = inl (refl, refl)
  step-revision (changes w) r n = inl (refl, refl)
