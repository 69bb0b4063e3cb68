-- ===== src/Supervisor/Examples.antt =====
-- The theorems about the supervisor at the default policy and concrete rounds.
use oikade.Prelude.{
  ℕ, ◌*◌, ◌-◌, ◌^◌, ◌≤◌, ◌<◌, ◌≡◌, refl, arith, min, true, false, Option, none, some, List, [], ◌∷◌,
  All,
}
use oikade.Prelude.Result.{ok}
use oikade.Supervisor.Policy.{default_policy, restart_backoff, duration_limit, validate}
use oikade.Supervisor.Backoff.{restart_backoff_lem, restart_backoff_bounds}
use oikade.Supervisor.Process.{
  Round, Shared, idle, fresh_loop, tried_running, exits, cancel_running, drop_old, run_rounds,
  quarantined, wait_ready,
}
use oikade.Supervisor.Run.{IsFinal, run_rounds-IsFinal}
use oikade.Supervisor.Window.{recent, drop_old-eq-recent, IsCrash, crash_loop}

default-fits : default_policy.max_backoff < duration_limit
default-fits = omega arith

restart_backoff_lem_example :
    restart_backoff default_policy 4 ≡ min (250_000_000 * 2 ^ min (4 - 1) 31) 30_000_000_000
restart_backoff_lem_example = restart_backoff_lem default_policy default-fits 4

default-valid : validate default_policy ≡ ok tt
unfolding validate
default-valid = refl

restart_backoff_bounds_example :
    (250_000_000 ≤ restart_backoff default_policy 9)
    × (restart_backoff default_policy 9 ≤ 30_000_000_000)
    × (0 < restart_backoff default_policy 9)
restart_backoff_bounds_example = restart_backoff_bounds default_policy 9 default-valid

drop_old-eq-recent_example : drop_old 10 25 (3 ∷ 14 ∷ 20 ∷ []) ≡ recent 10 25 (3 ∷ 14 ∷ 20 ∷ [])
drop_old-eq-recent_example =
    drop_old-eq-recent 10 25 (3 ∷ 14 ∷ 20 ∷ [])
      ((omega arith, (omega arith, tt)), ((omega arith, tt), (tt, tt)))

-- A child that becomes ready and exits after a second, at the instant `now`.
abbrev crash_at : ℕ → Round
crash_at now = record {
  cancelled_before = false;
  launch = ok (some 7);
  readiness = tried_running;
  ending = exits "exit status: 1" 1_000_000_000 now;
  cancelled_in_backoff = false;
}

abbrev cancelled_round : Round
cancelled_round = record (crash_at 0) { ending = cancel_running none }

abbrev begun : Shared
begun = record (idle "bridge") { is_running = true; has_cancel = true; initial_ready = true }

crash_at-IsCrash : (now : ℕ) → now ≤ 60_000_000_000 → IsCrash default_policy 0 (crash_at now)
unfolding wait_ready
crash_at-IsCrash now h = record {
  not_cancelled = refl;
  pid = some 7;
  launched = refl;
  ready = refl;
  status = "exit status: 1";
  elapsed = 1_000_000_000;
  now = now;
  ended = refl;
  unstable = omega arith;
  after_base = omega arith;
  in_window = omega arith;
  not_cancelled_later = refl;
}

abbrev six_crashes : List Round
six_crashes = crash_at 1 ∷ crash_at 2 ∷ crash_at 3 ∷ crash_at 4 ∷ crash_at 5 ∷ crash_at 6 ∷ []

six-IsCrash : All (IsCrash default_policy 0) six_crashes
six-IsCrash = (
  crash_at-IsCrash 1 (omega arith),
  (
    crash_at-IsCrash 2 (omega arith),
    (
      crash_at-IsCrash 3 (omega arith),
      (
        crash_at-IsCrash 4 (omega arith),
        (crash_at-IsCrash 5 (omega arith), (crash_at-IsCrash 6 (omega arith), tt)),
      ),
    ),
  ),
)

crash_loop_example :
    (t : Shared) × (run_rounds default_policy six_crashes fresh_loop begun ≡ some t)
    × (t.status.state ≡ quarantined)
crash_loop_example =
    crash_loop default_policy 0 six_crashes fresh_loop begun six-IsCrash tt (omega arith)
      (omega arith)

abbrev one_crash : List Round
one_crash = crash_at 1 ∷ cancelled_round ∷ []

abbrev unwrap : Option Shared → Shared
unwrap none = begun
unwrap (some s) = s

abbrev final_state : Shared
final_state = unwrap (run_rounds default_policy one_crash fresh_loop begun)

final_run : run_rounds default_policy one_crash fresh_loop begun ≡ some final_state
unfolding run_rounds
final_run = refl

run_rounds-IsFinal_example : IsFinal begun final_state
run_rounds-IsFinal_example =
    run_rounds-IsFinal default_policy one_crash fresh_loop begun final_state final_run
