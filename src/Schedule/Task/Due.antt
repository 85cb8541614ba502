-- ===== src/Schedule/Task/Due.antt =====
-- A round of the loop plans ahead, and starts what is on time.
use prism_panel.Common.{
  ℕ, ◌+◌, ◌^◌, ◌≤◌, ◌<◌, ◌≡◌, refl, sym, subst, inl, inr, Bool, true, false, not, List, [], ◌∷◌,
  All, Option, none, some, if◌then◌else◌, arith, Bool-cases,
}
use prism_panel.Common.Text.{Text}
use prism_panel.Common.Error.{Result, ok, err, Result-cases}
use prism_panel.Schedule.Spec.{Calendar, next_after}
use prism_panel.Schedule.Spec.Planned.{IsSteadyZone, next_after-IsPlanned}
use prism_panel.Schedule.Task.{
  ScheduledTask, DueTask, Claim, missed_grace_period, claim_of, enter_claim, process_one,
  process_due,
}

-- The planned time of the task is past, by less than 146 years.
abbrev pub IsDue : ℕ → DueTask → Type 0
IsDue now t =
    (scheduled : ℕ)
    → t.task.next_run_at ≡ some scheduled
    → (scheduled ≤ now) × (now < scheduled + 2 ^ 62)

-- The next run lies ahead, and what is not missed is at most 30 seconds late.
abbrev pub IsTimely : ℕ → Claim → Type 0
IsTimely now claim =
    ((t : ℕ) → claim.next_run ≡ some t → now < t)
    × (claim.missed ≡ false → now ≤ claim.scheduled_for + missed_grace_period)

-- The run that the store gave for a claim that was on time.
abbrev pub IsStarted : (Claim → Result (Text × Bool)) → Text → Type 0
IsStarted store run = (claim : Claim) × (store claim ≡ ok (run, true)) × (claim.missed ≡ false)

-- What a round gives.
abbrev pub IsRound : (Claim → Result (Text × Bool)) → ℕ → List Claim × List Text → Type 0
IsRound store now (claims, runs) = All (IsTimely now) claims × All (IsStarted store) runs

module _ (cal : Calendar) (store : Claim → Result (Text × Bool)) where
  claim_of-IsTimely :
      (now : ℕ) (id : Text) (task : ScheduledTask) (scheduled : ℕ)
      → IsSteadyZone cal task.timezone now
      → scheduled ≤ now
      → now < scheduled + 2 ^ 62
      → IsTimely now (claim_of cal now id task scheduled)
  unfolding claim_of
  claim_of-IsTimely now id task scheduled steady past close =
      elim (Result-cases
        (next_after cal task.schedule_type task.schedule_config task.timezone scheduled now)) [
          | inr (e, n) ↦ ((λ t h. ground arith), (λ m. ground arith))
          | inl (run, n) ↦ (
            (λ t h.
                let p =
                  next_after-IsPlanned cal task.schedule_type task.schedule_config task.timezone
                    scheduled now t steady past close (ground arith) in
                p.later),
            (λ m. ground arith),
          )
        ]

  enter_claim-IsRound :
      (now : ℕ) (claim : Claim) (answer : Result (Text × Bool)) (claims : List Claim)
      (runs : List Text)
      → store claim ≡ answer
      → IsTimely now claim
      → IsRound store now (claims, runs)
      → IsRound store now (enter_claim claim answer (claims, runs))
  enter_claim-IsRound now claim (err e) claims runs a this (timely, started) =
      ((this, timely), started)
  enter_claim-IsRound now claim (ok (run, false)) claims runs a this (timely, started) =
      ((this, timely), started)
  enter_claim-IsRound now claim (ok (run, true)) claims runs a this (timely, started) =
      elim (Bool-cases claim.missed) [
        | inl m ↦ (
          (this, timely),
          subst (λ b. All (IsStarted store) (if not b then run ∷ runs else runs)) (sym m) started,
        )
        | inr m ↦ (
          (this, timely),
          subst (λ b. All (IsStarted store) (if not b then run ∷ runs else runs)) (sym m)
              ((claim, a, m), started),
        )
      ]

  process_one-IsRound :
      (now : ℕ) (id : Text) (task : ScheduledTask) (next : Option ℕ) (claims : List Claim)
      (runs : List Text)
      → IsSteadyZone cal task.timezone now
      → ((scheduled : ℕ) → next ≡ some scheduled → (scheduled ≤ now) × (now < scheduled + 2 ^ 62))
      → IsRound store now (claims, runs)
      → IsRound store now (process_one cal store now id task next (claims, runs))
  process_one-IsRound now id task none claims runs steady due rest = rest
  process_one-IsRound now id task (some scheduled) claims runs steady due rest =
      let (past, close) = due scheduled refl in
      let claim = claim_of cal now id task scheduled in
      enter_claim-IsRound now claim (store claim) claims runs refl
        (claim_of-IsTimely now id task scheduled steady past close) rest

  -- The clocks are steady in the time zone of a task.
  abbrev pub HasSteadyZone : ℕ → DueTask → Type 0
  HasSteadyZone now t = IsSteadyZone cal t.task.timezone now

  -- In a round of `processDue` over tasks planned for times that are past, by less than 146 years,
  -- and whose time zones do not change their clocks between midnight and a week after the round:
  -- every next run that it plans lies ahead of the time of the round, every claim that is not marked
  -- as missed is at most 30 seconds late, and every run that it starts was claimed and not missed.
  pub process_due-IsTimely :
      (now : ℕ) (tasks : List DueTask)
      → All (HasSteadyZone now) tasks
      → All (IsDue now) tasks
      → IsRound store now (process_due cal store now tasks)
  unfolding process_due
  process_due-IsTimely now [] steady due = (tt, tt)
  process_due-IsTimely now (t ∷ ts) steady due =
      let (claims, runs) = process_due cal store now ts in
      process_one-IsRound now t.id t.task t.task.next_run_at claims runs steady.0 due.0
        (process_due-IsTimely now ts steady.1 due.1)
