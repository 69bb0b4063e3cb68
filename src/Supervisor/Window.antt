-- ===== src/Supervisor/Window.antt =====
-- The restart window and the quarantine.
use oikade.Prelude.{
  ℕ, ◌+◌, ◌-◌, ◌≤◌, ◌<◌, ◌≡◌, refl, sym, subst, ap, ◌∙◌, arith, String, true, false, Option, none,
  some, List, [], ◌∷◌, ◌++◌, length, length-append, All, ltb, leb, Bool-cases, inl, inr,
  if◌then◌else◌,
}
use oikade.Prelude.Result.{ok}
use oikade.Supervisor.Policy.{RestartPolicy, Duration, restart_backoff}
use oikade.Supervisor.Process.{
  quarantined, backoff, Shared, Message, unexpected_exit, Loop, Round, exits, returns, again,
  transition, send_initial, finish, wait_ready, drop_old, count_failure, after_exit, run_child,
  start_child, run_round, run_rounds, starting, running,
}

abbrev pub Ascending : List ℕ → Type 0
Ascending [] = Unit {0}
Ascending (t ∷ ts) = All (λ (u : ℕ). t ≤ u) ts × Ascending ts

-- The failures that are no older than the window: the specification of `drop_old`.
abbrev pub recent : Duration → ℕ → List ℕ → List ℕ
recent window now [] = []
recent window now (t ∷ ts) =
    if leb (now - t) window then t ∷ recent window now ts else recent window now ts

recent-later :
    (window now t : ℕ) (ts : List ℕ)
    → now - t ≤ window
    → All (λ (u : ℕ). t ≤ u) ts
    → recent window now ts ≡ ts
recent-later window now t [] h a = refl
recent-later window now t (u ∷ us) h a = ground (arith, recent-later window now t us h a.1)

-- Dropping old failures from the front of an ordered queue keeps exactly the recent ones.
pub drop_old-eq-recent :
    (window now : ℕ) (ts : List ℕ) → Ascending ts → drop_old window now ts ≡ recent window now ts
unfolding drop_old
drop_old-eq-recent window now [] a = refl
drop_old-eq-recent window now (t ∷ ts) a = elim (Bool-cases (ltb window (now - t))) [
  | inl old ↦ ground (arith, drop_old-eq-recent window now ts a.1)
  | inr new ↦ ground (arith, recent-later window now t ts (ground arith) a.0)
]

drop_old_keeps :
    (window now base : ℕ) (ts : List ℕ)
    → now ≤ base + window
    → All (λ (t : ℕ). base ≤ t) ts
    → drop_old window now ts ≡ ts
unfolding drop_old
drop_old_keeps window now base [] h a = refl
drop_old_keeps window now base (t ∷ ts) h a = ground (arith, a.0)

All-snoc :
    (base now : ℕ) (ts : List ℕ)
    → All (λ (t : ℕ). base ≤ t) ts
    → base ≤ now
    → All (λ (t : ℕ). base ≤ t) (ts ++ now ∷ [])
All-snoc base now [] a h = (h, tt)
All-snoc base now (t ∷ ts) a h = (a.0, All-snoc base now ts a.1 h)

-- A round in which the child is launched, becomes ready and exits before it counts as stable, at
-- an instant within the window after `base`, while nobody cancels.
pub record IsCrash (p : RestartPolicy) (base : ℕ) (round : Round) : Type 0 where
  pub not_cancelled : round.cancelled_before ≡ false
  pub pid : Option ℕ
  pub launched : round.launch ≡ ok pid
  pub ready : wait_ready pid round.readiness ≡ ok tt
  pub status : String
  pub elapsed : ℕ
  pub now : ℕ
  pub ended : round.ending ≡ exits status elapsed now
  pub unstable : elapsed < p.stable_after
  pub after_base : base ≤ now
  pub in_window : now ≤ base + p.restart_window
  pub not_cancelled_later : round.cancelled_in_backoff ≡ false

module _ (p : RestartPolicy) (base : ℕ) where
  counted :
      (elapsed now : ℕ) (l : Loop)
      → elapsed < p.stable_after
      → base ≤ now
      → now ≤ base + p.restart_window
      → All (λ (t : ℕ). base ≤ t) l.failures
      → (count_failure p elapsed now l).failures ≡ l.failures ++ now ∷ []
  unfolding count_failure
  counted elapsed now l unstable h w a = elim (Bool-cases (leb p.stable_after elapsed)) [
    | inl e ↦ absurd (ground arith)
    | inr e ↦ rw e (
        drop_old_keeps p.restart_window now base (l.failures ++ now ∷ []) w
          (All-snoc base now l.failures a h))
  ]

  crash_state : (round : Round) → IsCrash p base round → Loop → Shared → Shared
  crash_state round c l s = send_initial (ok tt) (
      transition running c.pid l.restarts none
        (transition starting c.pid l.restarts none (transition starting none l.restarts none s)))

  crash_round :
      (round : Round) (c : IsCrash p base round) (l : Loop) (s : Shared)
      → run_round p round l s
        ≡ after_exit p
            (unexpected_exit c.status)
            (count_failure p c.elapsed c.now l)
            false
            (crash_state round c l s)
  unfolding run_round start_child run_child crash_state
  crash_round round c l s =
      ground (arith, c.not_cancelled, c.launched, c.ready, c.ended, c.not_cancelled_later)

  too_many :
      (m : Message) (l : Loop) (s : Shared)
      → ltb p.max_restarts (length l.failures) ≡ true
      → after_exit p m l false s
        ≡ returns (finish (transition quarantined none l.restarts (some m) s))
  unfolding after_exit
  too_many m l s e = rw e

  once_more :
      (m : Message) (l : Loop) (s : Shared)
      → ltb p.max_restarts (length l.failures) ≡ false
      → after_exit p m l false s
        ≡ again
            (restart_backoff p l.consecutive_failures)
            (record l { restarts = l.restarts + 1 })
            (transition backoff none l.restarts (some m) s)
  unfolding after_exit
  once_more m l s e = rw e

  run-returns :
      (round : Round) (rounds : List Round) (l : Loop) (s t : Shared)
      → run_round p round l s ≡ returns t
      → run_rounds p (round ∷ rounds) l s ≡ some t
  unfolding run_rounds
  run-returns round rounds l s t e = rw (e, run_rounds)

  run-again :
      (round : Round) (rounds : List Round) (delay : Duration) (l l' : Loop) (s t : Shared)
      → run_round p round l s ≡ again delay l' t
      → run_rounds p (round ∷ rounds) l s ≡ run_rounds p rounds l' t
  unfolding run_rounds
  run-again round rounds delay l l' s t e = rw (e, run_rounds)

  crash_counted :
      (round : Round) (c : IsCrash p base round) (l : Loop)
      → All (λ (t : ℕ). base ≤ t) l.failures
      → (count_failure p c.elapsed c.now l).failures ≡ l.failures ++ c.now ∷ []
  crash_counted round c l a = counted c.elapsed c.now l c.unstable c.after_base c.in_window a

  is_quarantined :
      (m : Message) (restarts : ℕ) (s : Shared)
      → (finish (transition quarantined none restarts (some m) s)).status.state ≡ quarantined
  unfolding finish transition
  is_quarantined m restarts s = refl

  snoc-length : (l : List ℕ) (now : ℕ) → length (l ++ now ∷ []) ≡ length l + 1
  snoc-length l now = length-append l (now ∷ [])

  -- A crash loop is quarantined. Every round of the script is a crash: nobody cancels, and the child
  -- is launched, becomes ready and exits before it counts as stable, at an instant within the window
  -- after `base`. If the loop has at most `max_restarts` failures, none of them before `base`, and
  -- with the rounds there are more than `max_restarts`, then `run` returns within the script, and
  -- its last state is quarantined.
  pub crash_loop :
      (rounds : List Round) (l : Loop) (s : Shared)
      → All (IsCrash p base) rounds
      → All (λ (t : ℕ). base ≤ t) l.failures
      → p.max_restarts < length l.failures + length rounds
      → length l.failures ≤ p.max_restarts
      → (t : Shared) × (run_rounds p rounds l s ≡ some t) × (t.status.state ≡ quarantined)
  crash_loop [] l s crashes a many few = absurd (omega arith)
  crash_loop (round ∷ rounds) l s crashes a many few =
      elim (Bool-cases (ltb p.max_restarts (length l2.failures))) [
        | inl e ↦ (
          _,
          run-returns round rounds l s _ (crash_round round c l s ∙ too_many failure l2 s2 e),
          is_quarantined failure l2.restarts s2,
        )
        | inr e ↦
            let next =
              crash_loop rounds l3 s3 crashes.1 old (omega (arith, many, len))
                (ground (arith, e)) in
            (
              next.0,
              run-again round rounds (restart_backoff p l2.consecutive_failures) l l3 s s3
                    (crash_round round c l s ∙ once_more failure l2 s2 e)
                  ∙ next.1,
              next.2,
            )
      ]
    where
      c : IsCrash p base round
      c = crashes.0

      failure : Message
      failure = unexpected_exit c.status

      l2 : Loop
      l2 = count_failure p c.elapsed c.now l

      s2 : Shared
      s2 = crash_state round c l s

      l3 : Loop
      l3 = record l2 { restarts = l2.restarts + 1 }

      s3 : Shared
      s3 = transition backoff none l2.restarts (some failure) s2

      fs : l2.failures ≡ l.failures ++ c.now ∷ []
      fs = crash_counted round c l a

      len : length l2.failures ≡ length l.failures + 1
      len = ap length fs ∙ snoc-length l.failures c.now

      old : All (λ (t : ℕ). base ≤ t) l2.failures
      old =
          subst (All (λ (t : ℕ). base ≤ t)) (sym fs) (All-snoc base c.now l.failures a c.after_base)
