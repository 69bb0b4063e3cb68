-- ===== src/Prelude/Float.antt =====
-- `f64`, as far as the program compares it. Every finite double is a whole multiple of 2^-1074, so
-- a finite value is a sign and a magnitude in that unit, and comparisons are exact.
use Prim.Native.Nat.{ℕ, ◌*◌, ◌^◌}
use mathlib.Core.Path.{◌≡◌}
use mathlib.Core.Bool.{Bool, true, false, ◌&&◌}
use native.Mathlib.Omega.{arith}
use oikade.Prelude.Tests.{leb, ◌==◌}

pub data F64 : Type 0 where
  nan : F64
  infinity : Bool → F64
  finite : Bool → ℕ → F64

-- 1.0 in units of 2^-1074.
abbrev pub one_f64 : ℕ
one_f64 = 2 ^ 1074

-- A whole number that is not negative.
abbrev pub of_ℕ : ℕ → F64
of_ℕ n = finite false (n * one_f64)

unfoldable pub is_finite : F64 → Bool
is_finite (finite negative m) = true
is_finite _ = false

-- IEEE `==`: a NaN equals nothing, and the two zeros are equal. The flag is the sign.
unfoldable pub f64_eq : F64 → F64 → Bool
f64_eq (infinity true) (infinity true) = true
f64_eq (infinity false) (infinity false) = true
f64_eq (finite true m) (finite true n) = m == n
f64_eq (finite false m) (finite false n) = m == n
f64_eq (finite true m) (finite false n) = (m == 0) && (n == 0)
f64_eq (finite false m) (finite true n) = (m == 0) && (n == 0)
f64_eq _ _ = false

-- IEEE `<=`.
unfoldable pub f64_le : F64 → F64 → Bool
f64_le nan _ = false
f64_le (infinity true) nan = false
f64_le (infinity true) _ = true
f64_le (infinity false) (infinity false) = true
f64_le (infinity false) _ = false
f64_le (finite s m) nan = false
f64_le (finite s m) (infinity true) = false
f64_le (finite s m) (infinity false) = true
f64_le (finite true m) (finite true n) = leb n m
f64_le (finite true m) (finite false n) = true
f64_le (finite false m) (finite true n) = (m == 0) && (n == 0)
f64_le (finite false m) (finite false n) = leb m n

-- `(low..=high).contains(&x)`
unfoldable pub in_range : F64 → F64 → F64 → Bool
unfolding f64_le
in_range low high x = f64_le low x && f64_le x high

pub f64_eq_refl : (x : F64) → is_finite x ≡ true → f64_eq x x ≡ true
unfolding is_finite f64_eq
f64_eq_refl nan h = ground arith
f64_eq_refl (infinity s) h = ground arith
f64_eq_refl (finite true m) h = ground arith
f64_eq_refl (finite false m) h = ground arith
