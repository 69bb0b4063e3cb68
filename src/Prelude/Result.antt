-- ===== src/Prelude/Result.antt =====
-- Rust's `Result`, with the error type as a parameter, and the `?` operator as bind.
use mathlib.Core.Path.{◌≡◌, refl, ap}
use mathlib.Core.Logic.{◌⊎◌, inl, inr}
use mathlib.Core.Bool.{Bool, true, false}
use mathlib.Core.Option.{Option, none, some}

pub data Result (E A : Type 0) : Type 0 where
  ok : A → Result E A
  err : E → Result E A

module _ {E : Type 0} where
  infixl 5 ◌>>=◌ ◌>>◌
  abbrev pub ◌>>=◌ : {A B : Type 0} → Result E A → (A → Result E B) → Result E B
  ok a >>= f = f a
  err e >>= f = err e

  abbrev pub ◌>>◌ : {B : Type 0} → Result E (Unit {0}) → Result E B → Result E B
  m >> k = m >>= λ _. k

  -- An early `return Err(e)` when the test holds.
  abbrev pub fail_if : Bool → E → Result E (Unit {0})
  fail_if true e = err e
  fail_if false e = ok tt

  abbrev pub map_err : {E' A : Type 0} → (E → E') → Result E A → Result E' A
  map_err f (ok a) = ok a
  map_err f (err e) = err (f e)

  abbrev pub ok_or : {A : Type 0} → Option A → E → Result E A
  ok_or none e = err e
  ok_or (some a) e = ok a

  abbrev pub is_ok : {A : Type 0} → Result E A → Bool
  is_ok (ok a) = true
  is_ok (err e) = false

pub Result-cases :
    {E A : Type 0} (x : Result E A) → ((a : A) × (x ≡ ok a)) ⊎ ((e : E) × (x ≡ err e))
Result-cases (ok a) = inl (a, refl)
Result-cases (err e) = inr (e, refl)

pub ok_injective : {E A : Type 0} {a b : A} → ◌≡◌ {A = Result E A} (ok a) (ok b) → a ≡ b
ok_injective h = cc

pub err_ne_ok : {E A : Type 0} {e : E} {a : A} → ◌≡◌ {A = Result E A} (err e) (ok a) → ⊥
err_ne_ok h = cc

pub ok_ne_err : {E A : Type 0} {e : E} {a : A} → ◌≡◌ {A = Result E A} (ok a) (err e) → ⊥
ok_ne_err h = cc

-- What a block that succeeds says of its first step.
pub bind-ok :
    {E A B : Type 0} (m : Result E A) (f : A → Result E B) (b : B)
    → (m >>= f) ≡ ok b
    → (a : A) × (m ≡ ok a) × (f a ≡ ok b)
bind-ok (ok a) f b h = (a, refl, h)
bind-ok (err e) f b h = absurd (err_ne_ok h)

pub guard-ok :
    {E B : Type 0} (t : Bool) (e : E) (k : Result E B) (b : B)
    → (fail_if t e >> k) ≡ ok b
    → (t ≡ false) × (k ≡ ok b)
guard-ok true e k b h = absurd (err_ne_ok h)
guard-ok false e k b h = (refl, h)

pub ok_or-ok : {E A : Type 0} (o : Option A) (e : E) (a : A) → ok_or o e ≡ ok a → o ≡ some a
ok_or-ok none e a h = absurd (err_ne_ok h)
ok_or-ok (some b) e a h = ap some (ok_injective h)

pub err_injective : {E A : Type 0} {a b : E} → ◌≡◌ {A = Result E A} (err a) (err b) → a ≡ b
err_injective h = cc

pub map_err-ok :
    {E F A : Type 0} (f : E → F) (m : Result E A) (a : A) → map_err f m ≡ ok a → m ≡ ok a
map_err-ok f (ok b) a h = ap ok (ok_injective h)
map_err-ok f (err e) a h = absurd (err_ne_ok h)

-- Where a block that fails has failed.
pub bind-err :
    {E A B : Type 0} (m : Result E A) (f : A → Result E B) (e : E)
    → (m >>= f) ≡ err e
    → (m ≡ err e) ⊎ ((a : A) × (m ≡ ok a) × (f a ≡ err e))
bind-err (ok a) f e h = inr (a, refl, h)
bind-err (err d) f e h = inl (ap err (err_injective h))

pub guard-err :
    {E B : Type 0} (t : Bool) (d : E) (k : Result E B) (e : E)
    → (fail_if t d >> k) ≡ err e
    → ((t ≡ true) × (d ≡ e)) ⊎ ((t ≡ false) × (k ≡ err e))
guard-err true d k e h = inl (refl, err_injective h)
guard-err false d k e h = inr (refl, h)

pub ok_or-err : {E A : Type 0} (o : Option A) (d e : E) → ok_or o d ≡ err e → o ≡ none
ok_or-err none d e h = refl
ok_or-err (some a) d e h = absurd (ok_ne_err h)
