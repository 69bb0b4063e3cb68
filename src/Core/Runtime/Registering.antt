-- ===== src/Core/Runtime/Registering.antt =====
-- What `register` and `unregister` can do to the runtime's state.
use oikade.Prelude.{
  ◌≡◌, refl, ap, sym, ◌∙◌, arith, Bool, true, Option, none, some, String, Bool-cases, inl, inr,
}
use oikade.Prelude.Result.{Result, ok, err, map_err}
use oikade.Prelude.Maps.{Map, get, string_key}
use oikade.Core.Model.{DeviceId, CapabilityId, Value, Device, validate_device}
use oikade.Core.Runtime.Types.{
  Host, CommandHandler, RuntimeError, RegisteredDevice, Runtime, restore, external, invalid_value,
  model_error, device, not_found,
}
use oikade.Core.Runtime.Exec.{Exec, lift, modify, raise_if, ◌>>=◌, ◌>>◌, bind_rule}
use oikade.Core.Runtime.Lookup.{
  ensure_started, find_device, is_other, load_device, ensure_started_keeps, find_device_keeps,
  state-load_device, state-save_device,
}
use oikade.Core.Runtime.Ops.{
  Restored, begin, restore_all, check_handlers, is_none, refuse_existing, save_restored,
  insert_device, register, remove_device, unregister,
}

map_err-ok : {E E' A : Type 0} (f : E → E') (x : Result E A) (a : A) → map_err f x ≡ ok a → x ≡ ok a
map_err-ok f (ok b) a h = cc
map_err-ok f (err e) a h = cc

module _ {H : Host} where
  pub data RegisterOutcome (d : Device) (handler : Option (CommandHandler H)) (r : Runtime H)
      (out : Result RuntimeError (Unit {0}) × Runtime H) : Type 0 where
    refused :
        (e : RuntimeError) → out.0 ≡ err e → out.1.state ≡ r.state → RegisterOutcome d handler r out
    registered :
        (loaded : Option (Map CapabilityId Value)) (s : Restored)
        → validate_device d ≡ ok tt
        → check_handlers d.id (is_none handler) d.capabilities ≡ ok tt
        → r.state.started ≡ true
        → get d.id r.state.devices ≡ none
        → (load_device (λ m. restore d.id (external m)) d.id r).0 ≡ ok loaded
        → restore_all d.id d.capabilities (begin loaded) ≡ ok s
        → out.0 ≡ ok tt
        → out.1.state ≡ insert_device d handler s r.state
        → RegisterOutcome d handler r out

  state_of : {a b : Runtime H} → a ≡ b → a.state ≡ b.state
  state_of p = ap (λ (x : Runtime H). x.state) p

  started-ensure_started :
      (r : Runtime H) (u : Unit {0}) → (ensure_started r).0 ≡ ok u → r.state.started ≡ true
  unfolding ensure_started
  started-ensure_started r u h = ground arith

  refuse_existing_keeps : (id : DeviceId) (r : Runtime H) → (refuse_existing id r).1 ≡ r
  unfolding refuse_existing
  refuse_existing_keeps id r = ground arith

  refuse_existing-ok :
      (id : DeviceId) (r : Runtime H) (u : Unit {0})
      → (refuse_existing id r).0 ≡ ok u
      → get id r.state.devices ≡ none
  unfolding refuse_existing
  refuse_existing-ok id r u h = ground arith

  state-save_restored :
      (d : Device) (s : Restored) (r : Runtime H) → (save_restored d s r).1.state ≡ r.state
  state-save_restored d s r = elim (Bool-cases s.dirty) [
    | inl p ↦ rw p (state-save_device _ d.id s.persisted r)
    | inr p ↦ rw p refl
  ]

  -- The part of `register` from the first call of the store on.
  finish_register :
      (d : Device) (handler : Option (CommandHandler H)) (r t : Runtime H)
      → t ≡ r
      → validate_device d ≡ ok tt
      → check_handlers d.id (is_none handler) d.capabilities ≡ ok tt
      → r.state.started ≡ true
      → get d.id r.state.devices ≡ none
      → RegisterOutcome d handler r (
          (do
            loaded ← load_device (λ m. restore d.id (external m)) d.id
            s ← lift (restore_all d.id d.capabilities (begin loaded))
            save_restored d s
            ensure_started
            refuse_existing d.id
            modify (insert_device d handler s))
            t)
  finish_register d handler r t same valid handled on fresh =
      bind_rule P (load_device wrap d.id) _ t (λ e _. refused e refl kept1)
        (λ loaded p.
          bind_rule P (lift (restore_all d.id d.capabilities (begin loaded))) _ t1
            (λ e _. refused e refl kept1)
            (λ s q.
              bind_rule P (save_restored d s) _ t1 (λ e _. refused e refl (kept2 s))
                (λ _ _.
                  bind_rule P ensure_started _ (t2 s) (λ e _. refused e refl (kept3 s))
                    (λ _ _.
                      bind_rule P (refuse_existing d.id) _ (ensure_started (t2 s)).1
                        (λ e _. refused e refl (kept4 s))
                        (λ _ _.
                          registered loaded s valid handled on fresh
                            (ap (λ (x : Runtime H). (load_device wrap d.id x).0) (sym same) ∙ p) q
                            refl (ap (insert_device d handler s) (kept4 s)))))))
    where
      P : Result RuntimeError (Unit {0}) × Runtime H → Type 0
      P = RegisterOutcome d handler r

      wrap : String → RuntimeError
      wrap m = restore d.id (external m)

      t1 : Runtime H
      t1 = (load_device wrap d.id t).1

      t2 : Restored → Runtime H
      t2 s = (save_restored d s t1).1

      kept1 : t1.state ≡ r.state
      kept1 = state-load_device wrap d.id t ∙ state_of same

      kept2 : (s : Restored) → (t2 s).state ≡ r.state
      kept2 s = state-save_restored d s t1 ∙ kept1

      kept3 : (s : Restored) → (ensure_started (t2 s)).1.state ≡ r.state
      kept3 s = state_of (ensure_started_keeps (t2 s)) ∙ kept2 s

      kept4 : (s : Restored) → (refuse_existing d.id (ensure_started (t2 s)).1).1.state ≡ r.state
      kept4 s = state_of (refuse_existing_keeps d.id (ensure_started (t2 s)).1) ∙ kept3 s

  pub register_cases :
      (d : Device) (handler : Option (CommandHandler H)) (r : Runtime H)
      → RegisterOutcome d handler r (register d handler r)
  unfolding register
  register_cases d handler r =
      bind_rule P (lift (map_err (λ e. invalid_value (model_error e)) (validate_device d))) _ r
        (λ e _. refused e refl refl)
        (λ u valid.
          bind_rule P (lift (check_handlers d.id (is_none handler) d.capabilities)) _ r
            (λ e _. refused e refl refl)
            (λ _ handled.
              bind_rule P ensure_started _ r
                (λ e _. refused e refl (state_of (ensure_started_keeps r)))
                (λ u' on.
                  bind_rule P (refuse_existing d.id) _ r1 (λ e _. refused e refl (state_of kept))
                    (λ u'' fresh.
                      finish_register d handler r (refuse_existing d.id r1).1 kept
                        (map_err-ok _ (validate_device d) tt valid) handled
                        (started-ensure_started r u' on)
                        (ap (λ (x : Runtime H). get d.id x.state.devices)
                            (sym (ensure_started_keeps r))
                          ∙ refuse_existing-ok d.id r1 u'' fresh)))))
    where
      P : Result RuntimeError (Unit {0}) × Runtime H → Type 0
      P = RegisterOutcome d handler r

      r1 : Runtime H
      r1 = (ensure_started r).1

      kept : (refuse_existing d.id r1).1 ≡ r
      kept = refuse_existing_keeps d.id r1 ∙ ensure_started_keeps r

  pub data UnregisterOutcome (id : DeviceId) (r : Runtime H)
      (out : Result RuntimeError (Unit {0}) × Runtime H) : Type 0 where
    refused :
        (e : RuntimeError) → out.0 ≡ err e → out.1.state ≡ r.state → UnregisterOutcome id r out
    removed :
        (reg : RegisteredDevice H)
        → r.state.started ≡ true
        → get id r.state.devices ≡ some reg
        → out.0 ≡ ok tt
        → out.1.state ≡ remove_device id r.state
        → UnregisterOutcome id r out

  raise_if_keeps : (b : Bool) (e : RuntimeError) (r : Runtime H) → (raise_if b e r).1 ≡ r
  raise_if_keeps b e r = ground arith

  found-find_device :
      (id : DeviceId) (r : Runtime H) {reg : RegisteredDevice H}
      → (find_device id r).0 ≡ ok reg
      → get id r.state.devices ≡ some reg
  unfolding find_device
  found-find_device id r h = ground arith

  pub unregister_cases : (id : DeviceId) (r : Runtime H) → UnregisterOutcome id r (unregister id r)
  unfolding unregister
  unregister_cases id r =
      bind_rule P ensure_started _ r
        (λ e _. UnregisterOutcome.refused e refl (state_of (ensure_started_keeps r)))
        (λ u on.
          bind_rule P (find_device id) _ r1
            (λ e _.
              UnregisterOutcome.refused e refl
                (state_of (find_device_keeps id r1 ∙ ensure_started_keeps r)))
            (λ reg found.
              bind_rule P (still reg) _ (find_device id r1).1
                (λ e _. UnregisterOutcome.refused e refl (state_of (kept reg)))
                (λ _ _.
                  removed reg (started-ensure_started r u on)
                    (ap (λ (x : Runtime H). get id x.state.devices) (sym (ensure_started_keeps r))
                      ∙ found-find_device id r1 found)
                    refl (ap (remove_device id) (state_of (kept reg))))))
    where
      P : Result RuntimeError (Unit {0}) × Runtime H → Type 0
      P = UnregisterOutcome id r

      r1 : Runtime H
      r1 = (ensure_started r).1

      still : RegisteredDevice H → Exec H (Unit {0})
      still reg x = raise_if (is_other (get id x.state.devices) reg) (not_found (device id)) x

      kept : (reg : RegisteredDevice H) → (still reg (find_device id r1).1).1 ≡ r
      kept reg =
          raise_if_keeps _ _ (find_device id r1).1
          ∙ find_device_keeps id r1
          ∙ ensure_started_keeps r
