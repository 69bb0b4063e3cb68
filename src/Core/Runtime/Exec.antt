-- ===== src/Core/Runtime/Exec.antt =====
-- Methods of the runtime as actions: what was changed before an error stays changed.
use oikade.Prelude.{Bool, true, false, ◌≡◌, refl, if◌then◌else◌}
use oikade.Prelude.Result.{Result, ok, err}
use oikade.Core.Runtime.Types.{Host, RuntimeError, RuntimeState, Runtime}

abbrev pub Exec : Host → Type 0 → Type 0
Exec H A = Runtime H → Result RuntimeError A × Runtime H

module _ {H : Host} {A : Type 0} where
  abbrev pub pure : A → Exec H A
  pure a r = (ok a, r)

  abbrev pub raise : RuntimeError → Exec H A
  raise e r = (err e, r)

  abbrev pub lift : Result RuntimeError A → Exec H A
  lift x r = (x, r)

  abbrev pub gets : (RuntimeState H → A) → Exec H A
  gets f r = (ok (f r.state), r)

module _ {H : Host} where
  abbrev pub modify : (RuntimeState H → RuntimeState H) → Exec H (Unit {0})
  modify f r = (ok tt, record r { state = f r.state })

  -- An early `return Err(e)` when the test holds.
  abbrev pub raise_if : Bool → RuntimeError → Exec H (Unit {0})
  raise_if true e r = (err e, r)
  raise_if false e r = (ok tt, r)

module _ {H : Host} {A B : Type 0} where
  abbrev continue : Result RuntimeError A → (A → Exec H B) → Exec H B
  continue (ok a) f r = f a r
  continue (err e) f r = (err e, r)

  infixl 5 ◌>>=◌ ◌>>◌
  abbrev pub ◌>>=◌ : Exec H A → (A → Exec H B) → Exec H B
  ◌>>=◌ m f r = let (x, r') = m r in continue x f r'

  abbrev pub ◌>>◌ : Exec H A → Exec H B → Exec H B
  m >> n = m >>= λ _. n

-- Rules for reasoning about a block step by step.
module _ {H : Host} {A B : Type 0} (P : Result RuntimeError B × Runtime H → Type 0) where
  pub bind_rule :
      (m : Exec H A) (f : A → Exec H B) (r : Runtime H)
      → ((e : RuntimeError) → (m r).0 ≡ err e → P (err e, (m r).1))
      → ((a : A) → (m r).0 ≡ ok a → P (f a (m r).1))
      → P ((m >>= f) r)
  bind_rule m f r failed done = go (m r).0 refl
    where
      go : (x : Result RuntimeError A) → (m r).0 ≡ x → P (continue x f (m r).1)
      go (ok a) p = done a p
      go (err e) p = failed e p

module _ {H : Host} {B : Type 0} (P : Result RuntimeError B × Runtime H → Type 0) where
  pub if_rule :
      (b : Bool) (m n : Exec H B) (r : Runtime H)
      → (b ≡ true → P (m r))
      → (b ≡ false → P (n r))
      → P ((if b then m else n) r)
  if_rule true m n r yes_case no_case = yes_case refl
  if_rule false m n r yes_case no_case = no_case refl

  pub guard_rule :
      (b : Bool) (e : RuntimeError) (n : Exec H B) (r : Runtime H)
      → (b ≡ true → P (err e, r))
      → (b ≡ false → P (n r))
      → P ((raise_if b e >> n) r)
  guard_rule true e n r failed done = failed refl
  guard_rule false e n r failed done = done refl

-- A last step that only answers.
module _ {H : Host} {A : Type 0} (m : Exec H (Unit {0})) (a : A) (r : Runtime H) where
  pub then_pure-ok : (m r).0 ≡ ok tt → ((m >> pure a) r).0 ≡ ok a
  then_pure-ok h = bind_rule (λ out. out.0 ≡ ok a) m (λ _. pure a) r (λ e p. cc) (λ _ _. refl)

  pub then_pure-err : (e : RuntimeError) → (m r).0 ≡ err e → ((m >> pure a) r).0 ≡ err e
  then_pure-err e h = bind_rule (λ out. out.0 ≡ err e) m (λ _. pure a) r (λ x p. cc) (λ u p. cc)

  pub then_pure_keeps : ((m >> pure a) r).1 ≡ (m r).1
  then_pure_keeps = bind_rule (λ out. out.1 ≡ (m r).1) m (λ _. pure a) r (λ e p. refl) (λ _ _. refl)
