-- ===== src/Supervisor/Run.antt =====
-- What `run` guarantees when it returns.
use oikade.Prelude.{
  ℕ, ap, subst, String, ◌+◌, ◌≤◌, ◌≡◌, refl, ◌∙◌, arith, ◌⊎◌, inl, inr, Bool, true, false, Option,
  none, some, List, [], ◌∷◌, length, length-append, ltb, Bool-cases, if◌then◌else◌,
}
use oikade.Prelude.Result.{Result, ok, err}
use oikade.Supervisor.Policy.{RestartPolicy, restart_backoff}
use oikade.Supervisor.Process.{
  Status, of_process, launch_error, cancelled_before_readiness, stopped, quarantined, Shared,
  Message, Loop, Round, Ending, option_map, starting, running, backoff, unexpected_exit, exits,
  cancel_running, Next, returns, again, transition, send_initial, finish, initial_failure,
  wait_ready, count_failure, after_exit, run_child, start_child, run_round, run_rounds,
}

-- The reply that is still owed to the caller of `start`.
abbrev pub owed : Bool → ℕ
owed true = 1
owed false = 0

abbrev pub reply_count : Shared → ℕ
reply_count s = length s.replies + owed s.initial_ready

-- `t` is the state in which the loop leaves its supervisor.
pub record IsFinal (s t : Shared) : Type 0 where
  pub idle : t.is_running ≡ false
  pub no_cancel : t.has_cancel ≡ false
  pub ended : (t.status.state ≡ stopped) ⊎ (t.status.state ≡ quarantined)
  pub replied : t.initial_ready ≡ false
  pub replies : length t.replies ≡ reply_count s

-- What one round does to the loop's variables and replies.
abbrev pub RoundSpec : RestartPolicy → Loop → Shared → Next → Type 0
RoundSpec p l s (returns t) = IsFinal s t
RoundSpec p l s (again delay l' t) =
    (l'.restarts ≡ l.restarts + 1)
    × (length l'.failures ≤ p.max_restarts)
    × (t.initial_ready ≡ false)
    × (length t.replies ≡ reply_count s)

send_initial-replies :
    (x : Result Message (Unit {0})) (s : Shared)
    → (length (send_initial x s).replies ≡ reply_count s)
      × ((send_initial x s).initial_ready ≡ false)
unfolding send_initial
send_initial-replies x s = (ground (arith, length-append s.replies (x ∷ [])), ground arith)

status-send_initial :
    (x : Result Message (Unit {0})) (s : Shared) → (send_initial x s).status ≡ s.status
unfolding send_initial
status-send_initial x s = ground arith

restarts-count_failure :
    (p : RestartPolicy) (e n : ℕ) (l : Loop) → (count_failure p e n l).restarts ≡ l.restarts
unfolding count_failure
restarts-count_failure p e n l = refl

after_exit-RoundSpec :
    (p : RestartPolicy) (m : Message) (l : Loop) (b : Bool) (s : Shared)
    → s.initial_ready ≡ false
    → RoundSpec p l s (after_exit p m l b s)
unfolding after_exit transition finish
after_exit-RoundSpec p m l b s h = elim (Bool-cases (ltb p.max_restarts (length l.failures))) [
  | inl many ↦ rw many (record {
    idle = refl;
    no_cancel = refl;
    ended = inr refl;
    replied = h;
    replies = ground arith;
  })
  | inr few ↦ rw few (continue few b)
]
  where
    continue :
        ltb p.max_restarts (length l.failures) ≡ false
        → (b : Bool)
        → RoundSpec p l s (
            if b
            then returns (
                finish (
                  transition stopped none l.restarts none
                    (transition backoff none l.restarts (some m) s)))
            else again
                (restart_backoff p l.consecutive_failures)
                (record l { restarts = l.restarts + 1 })
                (transition backoff none l.restarts (some m) s))
    continue few true = record {
      idle = refl;
      no_cancel = refl;
      ended = inl refl;
      replied = h;
      replies = ground arith;
    }
    continue few false = (refl, ground arith, h, ground arith)

-- A round that has replied already owes nothing more.
RoundSpec-replied :
    (p : RestartPolicy) (l l' : Loop) (s s' : Shared) (n : Next)
    → l'.restarts ≡ l.restarts
    → length s'.replies + owed s'.initial_ready ≡ length s.replies + owed s.initial_ready
    → RoundSpec p l' s' n
    → RoundSpec p l s n
RoundSpec-replied p l l' s s' (returns t) e r h = record {
  idle = h.idle;
  no_cancel = h.no_cancel;
  ended = h.ended;
  replied = h.replied;
  replies = h.replies ∙ r;
}
RoundSpec-replied p l l' s s' (again delay k t) e r h = (omega (arith, h.0, e), h.1, h.2, h.3 ∙ r)

run_child-RoundSpec :
    (p : RestartPolicy) (round : Round) (pid : Option ℕ) (l : Loop) (s : Shared)
    → s.initial_ready ≡ false
    → RoundSpec p l s (run_child p round pid l s)
unfolding run_child
run_child-RoundSpec p round pid l s h = go round.ending
  where
    go :
        (x : Ending)
        → RoundSpec p l s (elim x [
          | exits status elapsed now ↦
              after_exit p
                (unexpected_exit status)
                (count_failure p elapsed now l)
                round.cancelled_in_backoff
                s
          | cancel_running e ↦
              returns (finish (transition stopped none l.restarts (option_map e) s))
        ])
    go (exits status elapsed now) =
        RoundSpec-replied p l (count_failure p elapsed now l) s s _
          (restarts-count_failure p elapsed now l) refl
          (after_exit-RoundSpec p (unexpected_exit status) (count_failure p elapsed now l)
            round.cancelled_in_backoff s h)
    go (cancel_running e) =
        unfold transition finish in
        record {
          idle = refl;
          no_cancel = refl;
          ended = inl refl;
          replied = h;
          replies = ground arith;
        }

-- Every way to end before the child runs replies to the caller.
ended_with_reply :
    (x : Result Message (Unit {0})) (s s' : Shared)
    → s'.status.state ≡ stopped
    → reply_count s' ≡ reply_count s
    → IsFinal s (finish (send_initial x s'))
unfolding finish
ended_with_reply x s s' e h = record {
  idle = refl;
  no_cancel = refl;
  ended = inl (ap (λ (t : Status). t.state) (status-send_initial x s') ∙ e);
  replied = (send_initial-replies x s').1;
  replies = (send_initial-replies x s').0 ∙ h;
}

failed_start :
    (m : Message) (s s' : Shared)
    → reply_count s' ≡ reply_count s
    → IsFinal s (finish (initial_failure m s'))
unfolding initial_failure transition
failed_start m s s' h =
    ended_with_reply (err (of_process s'.status.name m)) s (transition stopped none 0 (some m) s')
      refl h

start_child-RoundSpec :
    (p : RestartPolicy) (round : Round) (pid : Option ℕ) (l : Loop) (s : Shared)
    → RoundSpec p l s (start_child p round pid l s)
unfolding start_child transition
start_child-RoundSpec p round pid l s = go (wait_ready pid round.readiness)
  where
    s1 : Shared
    s1 = transition starting pid l.restarts none s

    s2 : Shared
    s2 = transition running pid l.restarts none s1

    go :
        (x : Result Message (Unit {0}))
        → RoundSpec p l s (elim x [
          | err failure ↦ returns (finish (initial_failure failure s1))
          | ok _ ↦ run_child p round pid l (send_initial (ok tt) s2)
        ])
    go (err failure) = failed_start failure s s1 refl
    go (ok u) =
        RoundSpec-replied p l l s (send_initial (ok tt) s2) _ refl
          (ground (arith, send_initial-replies (ok tt) s2))
          (run_child-RoundSpec p round pid l (send_initial (ok tt) s2)
            (send_initial-replies (ok tt) s2).1)

run_round-RoundSpec :
    (p : RestartPolicy) (round : Round) (l : Loop) (s : Shared)
    → RoundSpec p l s (run_round p round l s)
unfolding run_round transition
run_round-RoundSpec p round l s = go round.cancelled_before
  where
    launched :
        (x : Result String (Option ℕ))
        → RoundSpec p l s (elim x [
          | err e ↦ returns (
              finish
                (initial_failure (launch_error e) (transition starting none l.restarts none s)))
          | ok pid ↦ start_child p round pid l (transition starting none l.restarts none s)
        ])
    launched (err e) =
        failed_start (launch_error e) s (transition starting none l.restarts none s) refl
    launched (ok pid) =
        RoundSpec-replied p l l s (transition starting none l.restarts none s) _ refl refl
          (start_child-RoundSpec p round pid l (transition starting none l.restarts none s))

    go :
        (b : Bool)
        → RoundSpec p l s (
            if b
            then returns (
                finish (
                  send_initial
                    (err cancelled_before_readiness)
                    (transition stopped none l.restarts none s)))
            else elim round.launch [
              | err e ↦ returns (
                  finish
                    (initial_failure (launch_error e) (transition starting none l.restarts none s)))
              | ok pid ↦ start_child p round pid l (transition starting none l.restarts none s)
            ])
    go true =
        ended_with_reply (err cancelled_before_readiness) s
          (transition stopped none l.restarts none s) refl refl
    go false = launched round.launch

-- When `run` returns, whatever happened before, the supervisor is idle in the state stopped or
-- quarantined, its cancel channel is gone, and the caller of `start` has been replied to: once, if
-- a reply was owed, and not at all otherwise.
pub run_rounds-IsFinal :
    (p : RestartPolicy) (rounds : List Round) (l : Loop) (s t : Shared)
    → run_rounds p rounds l s ≡ some t
    → IsFinal s t
unfolding run_rounds
run_rounds-IsFinal p [] l s t h = cc
run_rounds-IsFinal p (round ∷ rounds) l s t h =
    go (run_round p round l s) (run_round-RoundSpec p round l s) (run_rounds-IsFinal p rounds) h
  where
    go :
        (n : Next)
        → RoundSpec p l s n
        → ((l' : Loop) (s' : Shared) (t : Shared)
            → run_rounds p rounds l' s' ≡ some t
            → IsFinal s' t)
        → (elim n [ returns u ↦ some u | again delay l' u ↦ run_rounds p rounds l' u ]) ≡ some t
        → IsFinal s t
    go (returns u) spec rest e = subst (IsFinal s) (ground arith) spec
    go (again delay l' u) spec rest e =
        let final = rest l' u t e in
        record {
          idle = final.idle;
          no_cancel = final.no_cancel;
          ended = final.ended;
          replied = final.replied;
          replies = ground (arith, final.replies, spec.2, spec.3);
        }
