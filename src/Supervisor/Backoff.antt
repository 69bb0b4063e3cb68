-- ===== src/Supervisor/Backoff.antt =====
-- The delay before a restart.
use native.Mathlib.Nat.{pow-suc}
use oikade.Prelude.{ℕ, zero, suc, ◌-◌, ◌*◌, ◌^◌, ◌≤◌, ◌<◌, ◌≡◌, arith, min}
use oikade.Prelude.Result.{ok}
use oikade.Supervisor.Policy.{RestartPolicy, validate, restart_backoff, duration_limit}

pow_pos : (k : ℕ) → 1 ≤ 2 ^ k
pow_pos zero = omega arith
pow_pos (suc k) = rw (pow-suc) (omega (arith, pow_pos k))

pow_mono : (j k : ℕ) → j ≤ k → 2 ^ j ≤ 2 ^ k
pow_mono zero k h = pow_pos k
pow_mono (suc j) zero h = absurd (omega arith)
pow_mono (suc j) (suc k) h = rw (pow-suc) (omega (arith, pow_mono j k (omega arith)))

mul_mono : (a b c : ℕ) → b ≤ c → a * b ≤ a * c
mul_mono a b c h = grind arith

-- Where the largest delay is a `Duration`, the overflow of the product is no special case.
module _ (p : RestartPolicy) (fits : p.max_backoff < duration_limit) where
  -- Where the largest delay is a `Duration`, the delay after `n` failures is the initial delay
  -- doubled `n - 1` times, but at most 31 times, and capped by the largest delay.
  pub restart_backoff_lem :
      (n : ℕ) → restart_backoff p n ≡ min (p.initial_backoff * 2 ^ min (n - 1) 31) p.max_backoff
  unfolding restart_backoff
  restart_backoff_lem n = ground (arith, fits)

  -- The delay does not shrink as failures accumulate, where the largest delay is a `Duration`.
  pub restart_backoff_mono : (m n : ℕ) → m ≤ n → restart_backoff p m ≤ restart_backoff p n
  restart_backoff_mono m n h =
      let grows : p.initial_backoff * 2 ^ min (m - 1) 31 ≤ p.initial_backoff * 2 ^ min (n - 1) 31 =
        mul_mono p.initial_backoff _ _ (pow_mono (min (m - 1) 31) (min (n - 1) 31) (omega arith)) in
      omega (arith, restart_backoff_lem m, restart_backoff_lem n)

validate_bounds :
    (p : RestartPolicy)
    → validate p ≡ ok tt
    → (0 < p.initial_backoff) × (p.initial_backoff ≤ p.max_backoff)
unfolding validate
validate_bounds p h = (ground arith, ground arith)

-- A valid policy never waits less than its initial delay nor more than its largest one, and never
-- restarts at once, however many failures there were.
pub restart_backoff_bounds :
    (p : RestartPolicy) (n : ℕ)
    → validate p ≡ ok tt
    → (p.initial_backoff ≤ restart_backoff p n)
      × (restart_backoff p n ≤ p.max_backoff)
      × (0 < restart_backoff p n)
unfolding restart_backoff
restart_backoff_bounds p n h =
    let (positive, below) = validate_bounds p h in
    let grows : p.initial_backoff * 1 ≤ p.initial_backoff * 2 ^ min (n - 1) 31 =
      mul_mono p.initial_backoff 1 _ (pow_pos (min (n - 1) 31)) in
    (ground arith, ground arith, ground arith)
