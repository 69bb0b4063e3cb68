-- ===== src/Supervisor/Policy.antt =====
-- crates/oikade-supervisor/src/lib.rs: the restart policy and its validation.
-- crates/oikade-supervisor/src/process.rs: `restart_backoff`. A `Duration` is its nanoseconds.
use oikade.Prelude.{ℕ, ◌-◌, ◌*◌, ◌^◌, Option, none, some, min, ltb, ◌==◌, if◌then◌else◌}
use oikade.Prelude.Result.{Result, fail_if, ◌>>◌}

abbrev pub Duration : Type 0
Duration = ℕ

-- `Duration` holds less than 2^64 seconds.
abbrev pub duration_limit : ℕ
duration_limit = 2 ^ 64 * 1_000_000_000

pub record RestartPolicy : Type 0 where
  pub initial_backoff : Duration
  pub max_backoff : Duration
  pub max_restarts : ℕ
  pub restart_window : Duration
  pub stable_after : Duration
  pub ready_timeout : Duration
  pub stop_timeout : Duration

-- `RestartPolicy::default`
abbrev pub default_policy : RestartPolicy
default_policy = record {
  initial_backoff = 250_000_000;
  max_backoff = 30_000_000_000;
  max_restarts = 5;
  restart_window = 60_000_000_000;
  stable_after = 60_000_000_000;
  ready_timeout = 10_000_000_000;
  stop_timeout = 5_000_000_000;
}

pub data PolicyError : Type 0 where
  initial_not_positive max_below_initial window_not_positive stable_not_positive : PolicyError
  ready_not_positive stop_not_positive : PolicyError

unfoldable pub validate : RestartPolicy → Result PolicyError (Unit {0})
validate p = do
  fail_if (p.initial_backoff == 0) initial_not_positive
  fail_if (ltb p.max_backoff p.initial_backoff) max_below_initial
  fail_if (p.restart_window == 0) window_not_positive
  fail_if (p.stable_after == 0) stable_not_positive
  fail_if (p.ready_timeout == 0) ready_not_positive
  fail_if (p.stop_timeout == 0) stop_not_positive

-- `Duration::checked_mul`
unfoldable pub checked_mul : Duration → ℕ → Option Duration
checked_mul d n = if ltb (d * n) duration_limit then some (d * n) else none

abbrev unwrap_or : Option ℕ → ℕ → ℕ
unwrap_or none d = d
unwrap_or (some n) d = n

-- `checked_mul(1u32 << exponent)`, where the exponent is at most 31.
unfoldable pub restart_backoff : RestartPolicy → ℕ → Duration
unfolding checked_mul
restart_backoff p consecutive_failures =
    let exponent = min (consecutive_failures - 1) 31 in
    min (unwrap_or (checked_mul p.initial_backoff (2 ^ exponent)) p.max_backoff) p.max_backoff
