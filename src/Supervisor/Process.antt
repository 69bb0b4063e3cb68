-- ===== src/Supervisor/Process.antt =====
-- crates/oikade-supervisor/src/lib.rs and process.rs: the state of a supervisor and one round of
-- the loop of `run`. What the operating system, the clock and the caller of `stop` do in a round is
-- the round's script.
use oikade.Prelude.{
  ℕ, ◌+◌, ◌-◌, String, Bool, true, false, Option, none, some, List, [], ◌∷◌, ◌++◌, ltb, leb, min,
  length, if◌then◌else◌,
}
use oikade.Prelude.Result.{Result, ok, err}
use oikade.Supervisor.Policy.{RestartPolicy, Duration, restart_backoff}

pub data State : Type 0 where
  stopped starting running backoff quarantined : State

-- The texts of failures; a `String` is a text of the operating system.
pub data Message : Type 0 where
  launch_error exited_before inspect_error probe_error unexpected_exit : String → Message
  no_pid probe_timed_out cancelled_during_readiness cancelled_before_readiness : Message
  terminate_error : String → Message
  -- `process {name}: {message}`
  of_process : String → Message → Message

pub record Status : Type 0 where
  pub name : String
  pub state : State
  pub pid : Option ℕ
  pub restarts : ℕ
  pub last_error : Option Message

-- `Shared`, the events that were sent, and what was sent to the caller of `start`.
pub record Shared : Type 0 where
  pub status : Status
  pub is_running : Bool
  pub has_cancel : Bool
  pub events : List Status
  pub initial_ready : Bool
  pub replies : List (Result Message (Unit {0}))

-- `Supervisor::new` after its checks.
abbrev pub idle : String → Shared
idle name = record {
  status = record { name = name; state = stopped; pid = none; restarts = 0; last_error = none };
  is_running = false;
  has_cancel = false;
  events = [];
  initial_ready = false;
  replies = [];
}

unfoldable pub transition : State → Option ℕ → ℕ → Option Message → Shared → Shared
transition state pid restarts error s = record s {
  status = status;
  events = s.events ++ status ∷ [];
}
  where
    status : Status
    status = record {
      name = s.status.name;
      state = state;
      pid = pid;
      restarts = restarts;
      last_error = error;
    }

-- Only the first reply is sent: the sender is taken.
unfoldable pub send_initial : Result Message (Unit {0}) → Shared → Shared
send_initial reply s =
    if s.initial_ready
    then record s { initial_ready = false; replies = s.replies ++ reply ∷ [] }
    else s

unfoldable pub finish : Shared → Shared
finish s = record s { is_running = false; has_cancel = false }

unfoldable pub initial_failure : Message → Shared → Shared
unfolding transition send_initial
initial_failure message s =
    send_initial (err (of_process s.status.name message))
      (transition stopped none 0 (some message) s)

-- What happens while the supervisor waits for readiness; `tried` is `try_wait`, where no probe is
-- configured.
pub data Readiness : Type 0 where
  tried_running probe_ready probe_timeout cancel_first : Readiness
  tried_exited tried_error probe_failed exit_first : String → Readiness

-- `wait_ready`
unfoldable pub wait_ready : Option ℕ → Readiness → Result Message (Unit {0})
wait_ready none r = err no_pid
wait_ready (some pid) tried_running = ok tt
wait_ready (some pid) (tried_exited status) = err (exited_before status)
wait_ready (some pid) (tried_error e) = err (inspect_error e)
wait_ready (some pid) probe_ready = ok tt
wait_ready (some pid) (probe_failed e) = err (probe_error e)
wait_ready (some pid) probe_timeout = err probe_timed_out
wait_ready (some pid) (exit_first status) = err (unexpected_exit status)
wait_ready (some pid) cancel_first = err cancelled_during_readiness

-- How a running child ends: it exits at the instant `now` after `elapsed`, or `stop` cancels it,
-- with the error of `terminate` if there is one.
pub data Ending : Type 0 where
  exits : String → (elapsed now : ℕ) → Ending
  cancel_running : Option String → Ending

pub record Round : Type 0 where
  pub cancelled_before : Bool
  -- The error of `launch`, or the child's PID.
  pub launch : Result String (Option ℕ)
  pub readiness : Readiness
  pub ending : Ending
  pub cancelled_in_backoff : Bool

-- The variables of the loop.
pub record Loop : Type 0 where
  pub restarts : ℕ
  pub consecutive_failures : ℕ
  pub failures : List ℕ

abbrev pub fresh_loop : Loop
fresh_loop = record { restarts = 0; consecutive_failures = 0; failures = [] }

-- `u32::saturating_add(1)`
abbrev pub saturating_next : ℕ → ℕ
saturating_next n = min (n + 1) 4294967295

-- The loop that drops old failures from the front.
unfoldable pub drop_old : Duration → ℕ → List ℕ → List ℕ
drop_old window now [] = []
drop_old window now (t ∷ ts) =
    let rest = drop_old window now ts in if ltb window (now - t) then rest else t ∷ ts

-- The counting of one failure: both counters forget the past after a stable time.
unfoldable pub count_failure : RestartPolicy → (elapsed now : ℕ) → Loop → Loop
unfolding drop_old
count_failure p elapsed now l =
    let stable = leb p.stable_after elapsed in
    record l {
      consecutive_failures = saturating_next (if stable then 0 else l.consecutive_failures);
      failures = drop_old p.restart_window now ((if stable then [] else l.failures) ++ now ∷ []);
    }

abbrev pub option_map : Option String → Option Message
option_map none = none
option_map (some e) = some (terminate_error e)

-- Whether `run` has returned, or sleeps for a delay and goes round its loop again.
pub data Next : Type 0 where
  returns : Shared → Next
  again : Duration → Loop → Shared → Next

-- After an exit: quarantine, or the delay and the next round.
unfoldable pub after_exit : RestartPolicy → Message → Loop → Bool → Shared → Next
unfolding transition finish
after_exit p failure l cancelled s =
    if ltb p.max_restarts (length l.failures)
    then returns (finish (transition quarantined none l.restarts (some failure) s))
    else if cancelled
    then returns (
        finish (
          transition stopped none l.restarts none
            (transition backoff none l.restarts (some failure) s)))
    else again (restart_backoff p l.consecutive_failures) (record l { restarts = l.restarts + 1 })
        (transition backoff none l.restarts (some failure) s)

unfoldable pub run_child : RestartPolicy → Round → Option ℕ → Loop → Shared → Next
unfolding after_exit count_failure
run_child p round pid l s = elim round.ending [
  | exits status elapsed now ↦
      after_exit p (unexpected_exit status) (count_failure p elapsed now l)
        round.cancelled_in_backoff s
  | cancel_running e ↦ returns (finish (transition stopped none l.restarts (option_map e) s))
]

-- After `launch`.
unfoldable pub start_child : RestartPolicy → Round → Option ℕ → Loop → Shared → Next
unfolding wait_ready run_child initial_failure
start_child p round pid l s =
    let s1 = transition starting pid l.restarts none s in
    elim (wait_ready pid round.readiness) [
      | err failure ↦ returns (finish (initial_failure failure s1))
      | ok _ ↦
          run_child p round pid l (send_initial (ok tt) (transition running pid l.restarts none s1))
    ]

-- One round of the loop of `run`.
unfoldable pub run_round : RestartPolicy → Round → Loop → Shared → Next
unfolding start_child
run_round p round l s =
    if round.cancelled_before
    then returns (
        finish (
          send_initial (err cancelled_before_readiness)
            (transition stopped none l.restarts none s)))
    else elim round.launch [
      | err e ↦
          returns
            (finish (initial_failure (launch_error e) (transition starting none l.restarts none s)))
      | ok pid ↦ start_child p round pid l (transition starting none l.restarts none s)
    ]

-- `run` over the rounds of a script; `none` where the script ends before the loop does.
unfoldable pub run_rounds : RestartPolicy → List Round → Loop → Shared → Option Shared
unfolding run_round
run_rounds p [] l s = none
run_rounds p (round ∷ rounds) l s = elim (run_round p round l s) [
  | returns t ↦ some t
  | again delay l' t ↦ run_rounds p rounds l' t
]

-- The part of `start` before the loop: refused while a loop runs.
unfoldable pub begin_start : Shared → Option Shared
begin_start s =
    if s.is_running
    then none
    else some (record s { is_running = true; has_cancel = true; initial_ready = true })
