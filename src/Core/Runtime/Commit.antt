-- ===== src/Core/Runtime/Commit.antt =====
-- What `commit`, `publish` and `write_value` can do to the runtime's state.
use oikade.Prelude.{ℕ, ◌≡◌, refl, ap, ◌∙◌, true, some, String, not}
use oikade.Prelude.Result.{Result, ok, err, map_err, ok_or}
use oikade.Prelude.Maps.{Map, get, insert, string_key}
use oikade.Core.Model.{DeviceId, CapabilityId, Value, Capability}
use oikade.Core.Runtime.Types.{
  Host, Command, CommandHandler, RuntimeError, Runtime, RuntimeState, RegisteredDevice, persist,
  external, invalid_value, integration_returned, missing_command_handler,
}
use oikade.Core.Runtime.Value.{validate_capability_value}
use oikade.Core.Runtime.Exec.{
  lift, pure, ◌>>=◌, ◌>>◌, bind_rule, if_rule, guard_rule, then_pure-ok, then_pure-err,
  then_pure_keeps,
}
use oikade.Core.Runtime.Lookup.{
  save_device, lookup, confirm_registration, confirm_registration_keeps, state-save_device,
  lookup_keeps, lookup-ok,
}
use oikade.Core.Runtime.Ops.{is_current, commit, apply_commit, publish, write_value, handle_command}

map_err-ok :
    {E E' : Type 0} (f : E → E') (x : Result E (Unit {0})) → map_err f x ≡ ok tt → x ≡ ok tt
map_err-ok f (ok u) p = refl
map_err-ok f (err e) p = cc

module _ {H : Host} where
  pub data CommitOutcome (r : Runtime H) (reg : RegisteredDevice H) (id : DeviceId) (c : Capability)
      (v : Value) (out : Result RuntimeError (Unit {0}) × Runtime H) : Type 0 where
    failed :
        (e : RuntimeError) → out.0 ≡ err e → out.1.state ≡ r.state → CommitOutcome r reg id c v out
    unchanged :
        is_current (get c.id reg.values.current) v ≡ true
        → out.0 ≡ ok tt
        → out.1 ≡ r
        → CommitOutcome r reg id c v out
    applied :
        (now : ℕ)
        → out.0 ≡ ok tt
        → out.1.state ≡ apply_commit reg id c v now r.state
        → CommitOutcome r reg id c v out

  pub commit_cases :
      (reg : RegisteredDevice H) (id : DeviceId) (c : Capability) (v : Value) (r : Runtime H)
      → CommitOutcome r reg id c v (commit reg id c v r)
  unfolding commit
  commit_cases reg id c v r =
      if_rule P (is_current (get c.id reg.values.current) v) _ _ r
        (λ same. unchanged same refl refl)
        (λ _.
          bind_rule P (save_device wrap id saved) _ r (λ e _. failed e refl kept)
            (λ _ _.
              bind_rule P (confirm_registration id reg) _ s1
                (λ e _.
                  failed e refl
                    (ap (λ (x : Runtime H). x.state) (confirm_registration_keeps id reg s1) ∙ kept))
                (λ _ _.
                  applied (H.now (confirm_registration id reg s1).1.world) refl
                    (cc (confirm_registration_keeps id reg s1, kept)))))
    where
      P : Result RuntimeError (Unit {0}) × Runtime H → Type 0
      P = CommitOutcome r reg id c v

      wrap : String → RuntimeError
      wrap m = persist id c.id (external m)

      saved : Map CapabilityId Value
      saved = insert c.id v reg.values.persisted

      s1 : Runtime H
      s1 = (save_device wrap id saved r).1

      kept : s1.state ≡ r.state
      kept = state-save_device wrap id saved r

  -- What becomes of the value `v` of a call that answers `a`.
  pub data Stored (r : Runtime H) (reg : RegisteredDevice H) (id : DeviceId) (c : Capability)
      (v : Value) (after : RuntimeState H) : Type 0 where
    was_current :
        is_current (get c.id reg.values.current) v ≡ true
        → after ≡ r.state
        → Stored r reg id c v after
    is_new : (now : ℕ) → after ≡ apply_commit reg id c v now r.state → Stored r reg id c v after

  pub data WriteOutcome {A : Type 0} (a : A) (r : Runtime H) (id : DeviceId)
      (capability_id : CapabilityId) (v : Value) (out : Result RuntimeError A × Runtime H)
      : Type 0 where
    refused :
        (e : RuntimeError)
        → out.0 ≡ err e
        → out.1.state ≡ r.state
        → WriteOutcome a r id capability_id v out
    accepted :
        (reg : RegisteredDevice H) (c : Capability)
        → r.state.started ≡ true
        → get id r.state.devices ≡ some reg
        → get capability_id reg.capabilities ≡ some c
        → validate_capability_value c v ≡ ok tt
        → out.0 ≡ ok a
        → Stored r reg id c v out.1.state
        → WriteOutcome a r id capability_id v out

  state_of : {a b : Runtime H} → a ≡ b → a.state ≡ b.state
  state_of p = ap (λ (x : Runtime H). x.state) p

  -- `commit` after checks that have changed the world alone.
  finish :
      {A : Type 0} (a : A) (r s : Runtime H) (id : DeviceId) (capability_id : CapabilityId)
      (reg : RegisteredDevice H) (c : Capability) (v : Value)
      (out : Result RuntimeError A × Runtime H) (done : Result RuntimeError (Unit {0}) × Runtime H)
      → s.state ≡ r.state
      → (r.state.started ≡ true)
        × (get id r.state.devices ≡ some reg)
        × (get capability_id reg.capabilities ≡ some c)
      → validate_capability_value c v ≡ ok tt
      → (done.0 ≡ ok tt → out.0 ≡ ok a)
      → ((e : RuntimeError) → done.0 ≡ err e → out.0 ≡ err e)
      → out.1 ≡ done.1
      → CommitOutcome s reg id c v done
      → WriteOutcome a r id capability_id v out
  finish a r s id k reg c v out done kept found valid answers fails same (failed e p q) =
      refused e (fails e p) (state_of same ∙ q ∙ kept)
  finish a r s id k reg c v out done kept found valid answers fails same (unchanged p q t) =
      accepted reg c found.0 found.1 found.2 valid (answers q)
        (was_current p (state_of same ∙ state_of t ∙ kept))
  finish a r s id k reg c v out done kept found valid answers fails same (applied now q t) =
      accepted reg c found.0 found.1 found.2 valid (answers q)
        (is_new now (state_of same ∙ t ∙ ap (apply_commit reg id c v now) kept))

  pub publish_cases :
      (id : DeviceId) (k : CapabilityId) (v : Value) (r : Runtime H)
      → WriteOutcome tt r id k v (publish id k v r)
  unfolding publish
  publish_cases id k v r =
      bind_rule P (lookup id k) _ r (λ e _. refused e refl (state_of (lookup_keeps id k r)))
        (λ found p.
          bind_rule P (lift (validate_capability_value found.1 v)) _ (lookup id k r).1
            (λ e _. refused e refl (state_of (lookup_keeps id k r)))
            (λ _ valid.
              bind_rule P (confirm_registration id found.0) _ (lookup id k r).1
                (λ e _. refused e refl (state_of (kept found)))
                (λ _ _.
                  finish tt r (s found) id k found.0 found.1 v _ _ (state_of (kept found))
                    (lookup-ok id k r p) valid (λ q. q) (λ _ q. q) refl
                    (commit_cases found.0 id found.1 v (s found)))))
    where
      P : Result RuntimeError (Unit {0}) × Runtime H → Type 0
      P = WriteOutcome tt r id k v

      s : RegisteredDevice H × Capability → Runtime H
      s found = (confirm_registration id found.0 (lookup id k r).1).1

      kept : (found : RegisteredDevice H × Capability) → s found ≡ r
      kept found = confirm_registration_keeps id found.0 (lookup id k r).1 ∙ lookup_keeps id k r

  state-handle_command :
      (h : CommandHandler H) (c : Command) (r : Runtime H)
      → (handle_command h c r).1.state ≡ r.state
  unfolding handle_command
  state-handle_command h c r = refl

  -- The value is the one that the handler returned, if the call came so far.
  pub write_value_cases :
      (c : Command) (r : Runtime H)
      → (v : Value) × WriteOutcome v r c.device_id c.capability_id v (write_value c r)
  unfolding write_value
  write_value_cases c r =
      bind_rule P (lookup id k) _ r (λ e _. (c.value, refused e refl (state_of looked)))
        (λ found p.
          guard_rule P (not found.1.permissions.write) _ _ (lookup id k r).1
            (λ _. (c.value, refused _ refl (state_of looked)))
            (λ _.
              bind_rule P (lift (validate_capability_value found.1 c.value)) _ (lookup id k r).1
                (λ e _. (c.value, refused e refl (state_of looked)))
                (λ _ _.
                  bind_rule P (confirm_registration id found.0) _ (lookup id k r).1
                    (λ e _. (c.value, refused e refl (state_of (kept found))))
                    (λ _ _. call_handler found p (s found) (state_of (kept found))))))
    where
      id : DeviceId
      id = c.device_id

      k : CapabilityId
      k = c.capability_id

      P : Result RuntimeError Value × Runtime H → Type 0
      P out = (v : Value) × WriteOutcome v r id k v out

      looked : (lookup id k r).1 ≡ r
      looked = lookup_keeps id k r

      s : RegisteredDevice H × Capability → Runtime H
      s found = (confirm_registration id found.0 (lookup id k r).1).1

      kept : (found : RegisteredDevice H × Capability) → s found ≡ r
      kept found = confirm_registration_keeps id found.0 (lookup id k r).1 ∙ looked

      store_effective :
          (found : RegisteredDevice H × Capability)
          → (lookup id k r).0 ≡ ok found
          → (v : Value) (t : Runtime H) → t.state ≡ r.state
          → P (
              (do
                lift (
                    map_err
                      (λ e. invalid_value (integration_returned e))
                      (validate_capability_value found.1 v))
                commit found.0 id found.1 v
                pure v)
                t)
      store_effective found p v t q =
          bind_rule P
            (lift (
              map_err (λ e. invalid_value (integration_returned e))
                (validate_capability_value found.1 v)))
            _ t (λ e _. (v, refused e refl q))
            (λ _ valid. (
              v,
              finish v r t id k found.0 found.1 v ((commit found.0 id found.1 v >> pure v) t)
                  (commit found.0 id found.1 v t) q (lookup-ok id k r p) (map_err-ok _ _ valid)
                  (then_pure-ok (commit found.0 id found.1 v) v t)
                  (then_pure-err (commit found.0 id found.1 v) v t)
                  (then_pure_keeps (commit found.0 id found.1 v) v t)
                  (commit_cases found.0 id found.1 v t),
            ))

      call_handler :
          (found : RegisteredDevice H × Capability)
          → (lookup id k r).0 ≡ ok found
          → (t : Runtime H) → t.state ≡ r.state
          → P (
              (do
                handler ← lift (ok_or found.0.handler (missing_command_handler id k))
                effective ← handle_command handler c
                lift (
                    map_err
                      (λ e. invalid_value (integration_returned e))
                      (validate_capability_value found.1 effective))
                commit found.0 id found.1 effective
                pure effective)
                t)
      call_handler found p t q =
          bind_rule P (lift (ok_or found.0.handler (missing_command_handler id k))) _ t
            (λ e _. (c.value, refused e refl q))
            (λ handler _.
              bind_rule P (handle_command handler c) _ t
                (λ e _. (c.value, refused e refl (state-handle_command handler c t ∙ q)))
                (λ v _.
                  store_effective found p v (handle_command handler c t).1
                    (state-handle_command handler c t ∙ q)))
