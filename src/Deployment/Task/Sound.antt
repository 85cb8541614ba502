-- ===== src/Deployment/Task/Sound.antt =====
-- The counts and the log of a task, by its phase.
use prism_panel.Common.{
  ℕ, suc, ◌+◌, ◌-◌, ◌≤◌, ◌<◌, ◌≡◌, refl, sym, subst, inl, inr, Bool, true, false, List, [], ◌∷◌,
  ◌++◌, Option, none, some, ltb, length, length-drop, arith, Bool-cases, ◌%◌, ◌^◌, ltb-false,
  if_both, if_true, if_false,
}
use prism_panel.Common.Text.{Text}
use prism_panel.Deployment.Task.{
  Status, completed, completed_with_errors, is_finished, Kind, Log, Phase, launched, releasing,
  ended, looping, deploying, Task, last_sequence, push_log, new_task, cancel_task, finish_cancelled,
  finish_all, launch, enter_slot, answer_slot, note_success, note_failure, entering, deployed,
  failing, counting, halting, go_on_from, go_on, Progress, begins, stages, advances, notes,
  note_progress, ask_stop, force_stop_requested, cancel_requested,
}

-- How a finished task came out, by its counts and its targets.
abbrev pub IsOutcome : Status → ℕ → ℕ → List ℕ → Type 0
IsOutcome status done bad targets =
    (is_finished status ≡ true)
    × (done ≤ length targets)
    × (status ≡ completed → (bad ≡ 0) × (done ≡ length targets))
    × (status ≡ completed_with_errors → (0 < bad) × (done ≡ length targets))

-- What holds in a phase.
abbrev pub InPhase : Phase → Status → ℕ → ℕ → List ℕ → Type 0
InPhase launched status done bad targets = (is_finished status ≡ false) × (done ≡ 0) × (bad ≡ 0)
InPhase (looping slots) status done bad targets =
    (is_finished status ≡ false) × (done + length slots ≡ length targets) × (bad ≤ done)
InPhase (entering slot slots) status done bad targets =
    (is_finished status ≡ false) × (done + suc (length slots) ≡ length targets) × (bad ≤ done)
InPhase (deploying slot slots) status done bad targets =
    (is_finished status ≡ false) × (done + suc (length slots) ≡ length targets) × (bad ≤ done)
InPhase (deployed slot slots) status done bad targets =
    (is_finished status ≡ false) × (done + suc (length slots) ≡ length targets) × (bad ≤ done)
InPhase (failing message slot slots) status done bad targets =
    (is_finished status ≡ false) × (done + suc (length slots) ≡ length targets) × (bad ≤ done)
InPhase (counting slots) status done bad targets =
    (is_finished status ≡ false) × (done + suc (length slots) ≡ length targets) × (bad ≤ suc done)
InPhase halting status done bad targets = (is_finished status ≡ false) × (done ≤ length targets)
InPhase releasing status done bad targets = IsOutcome status done bad targets
InPhase ended status done bad targets = IsOutcome status done bad targets

abbrev pub CountsIn : Phase → Task → Type 0
CountsIn phase t = InPhase phase t.status t.completed_count t.failed_count t.targets

pub record IsSound (t : Task) : Type 0 where
  pub short : length t.logs ≤ 1000
  pub counts : CountsIn t.phase t

push_log_short :
    (level stage instance_id : Text) (logs : List Log)
    → length (push_log level stage instance_id logs) ≤ 1000
unfolding push_log
push_log_short level stage instance_id logs =
    let new : Log = record {
      sequence = (last_sequence logs + 1) % 2 ^ 64;
      level = level;
      stage = stage;
      instance_id = instance_id;
    } in
    let more = logs ++ (new ∷ []) in
    elim (Bool-cases (ltb 1000 (length more))) [
      | inl full ↦ rw full (omega (arith, length-drop (length more - 1000) more))
      | inr free ↦ rw free (ltb-false 1000 (length more) free)
    ]

pub new_task-IsSound :
    (server_id : Text) (kind : Kind) (targets : List ℕ) → IsSound (new_task server_id kind targets)
new_task-IsSound server_id kind targets = record {
  short = push_log_short _ _ _ _;
  counts = (refl, refl, refl);
}

finish_cancelled-IsSound :
    (t : Task) → t.completed_count ≤ length t.targets → IsSound (finish_cancelled t)
unfolding finish_cancelled
finish_cancelled-IsSound t h = elim (Bool-cases t.force) [
  | inl f ↦ rw f (record { short = push_log_short _ _ _ _; counts = ground arith })
  | inr f ↦ rw f (record { short = push_log_short _ _ _ _; counts = ground arith })
]

finish_all-IsSound :
    (t : Task)
    → t.completed_count ≡ length t.targets
    → t.failed_count ≤ t.completed_count
    → IsSound (finish_all t)
unfolding finish_all
finish_all-IsSound t h k = elim (Bool-cases (ltb 0 t.failed_count)) [
  | inl f ↦ rw f (record { short = push_log_short _ _ _ _; counts = ground arith })
  | inr f ↦ rw f (record { short = push_log_short _ _ _ _; counts = ground arith })
]

launch-IsSound : (t : Task) → CountsIn launched t → IsSound (launch t)
unfolding launch
launch-IsSound t (u, c, f) = record { short = push_log_short _ _ _ _; counts = ground arith }

enter_slot-IsSound :
    (slot : ℕ) (slots : List ℕ) (t : Task)
    → CountsIn (entering slot slots) t
    → IsSound (enter_slot slot slots t)
unfolding enter_slot
enter_slot-IsSound slot slots t h = record { short = push_log_short _ _ _ _; counts = h }

answer_slot-IsSound :
    (answer : Option Text) (slot : ℕ) (slots : List ℕ) (t : Task)
    → length t.logs ≤ 1000
    → CountsIn (deploying slot slots) t
    → IsSound (answer_slot answer slot slots t)
answer_slot-IsSound none slot slots t l h = record { short = l; counts = h }
answer_slot-IsSound (some message) slot slots t l (u, c, f) = record {
  short = l;
  counts =
      if_both (λ (p : Phase). CountsIn p t) t.stopped halting (failing message slot slots)
        (u, omega (arith, c)) (u, c, f);
}

go_on_from-IsSound :
    (phase : Phase) (answer : Option Text) (t : Task)
    → t.phase ≡ phase
    → length t.logs ≤ 1000
    → CountsIn phase t
    → IsSound (go_on_from phase answer t)
unfolding go_on_from note_success note_failure
go_on_from-IsSound launched answer t e l h = launch-IsSound t h
go_on_from-IsSound (looping []) answer t e l (u, c, f) = finish_all-IsSound t (ground (arith, c)) f
go_on_from-IsSound (looping (slot ∷ slots)) answer t e l (u, c, f) = record {
  short = l;
  counts =
      if_both (λ (p : Phase). CountsIn p t) t.stopped halting (entering slot slots)
        (u, omega (arith, c)) (u, c, f);
}
go_on_from-IsSound (entering slot slots) answer t e l h = enter_slot-IsSound slot slots t h
go_on_from-IsSound (deploying slot slots) answer t e l h =
    answer_slot-IsSound answer slot slots t l h
go_on_from-IsSound (deployed slot slots) answer t e l (u, c, f) = record {
  short = push_log_short _ _ _ _;
  counts = (u, c, omega (arith, f));
}
go_on_from-IsSound (failing message slot slots) answer t e l (u, c, f) = record {
  short = push_log_short _ _ _ _;
  counts = (u, c, omega (arith, f));
}
go_on_from-IsSound (counting slots) answer t e l (u, c, f) = record {
  short = l;
  counts = (u, omega (arith, c), f);
}
go_on_from-IsSound halting answer t e l (u, c) = finish_cancelled-IsSound t c
go_on_from-IsSound releasing answer t e l h = record { short = l; counts = h }
go_on_from-IsSound ended answer t e l h = record {
  short = l;
  counts = subst (λ p. CountsIn p t) (sym e) h;
}

pub go_on-IsSound : (answer : Option Text) (t : Task) → IsSound t → IsSound (go_on answer t)
go_on-IsSound answer t v = go_on_from-IsSound t.phase answer t refl v.short v.counts

-- An unfinished task may get another status of its kind.
InPhase-asked :
    (phase : Phase) (status next : Status) (done bad : ℕ) (targets : List ℕ)
    → is_finished status ≡ false
    → is_finished next ≡ false
    → InPhase phase status done bad targets
    → InPhase phase next done bad targets
InPhase-asked launched status next done bad targets u n h = (n, h.1, h.2)
InPhase-asked (looping slots) status next done bad targets u n h = (n, h.1, h.2)
InPhase-asked (entering slot slots) status next done bad targets u n h = (n, h.1, h.2)
InPhase-asked (deploying slot slots) status next done bad targets u n h = (n, h.1, h.2)
InPhase-asked (deployed slot slots) status next done bad targets u n h = (n, h.1, h.2)
InPhase-asked (failing message slot slots) status next done bad targets u n h = (n, h.1, h.2)
InPhase-asked (counting slots) status next done bad targets u n h = (n, h.1, h.2)
InPhase-asked halting status next done bad targets u n h = (n, h.1)
InPhase-asked releasing status next done bad targets u n h = absurd (ground (arith, u, h.0))
InPhase-asked ended status next done bad targets u n h = absurd (ground (arith, u, h.0))

-- A finished task stays as it is.
pub cancel_finished :
    (force : Bool) (t : Task) → is_finished t.status ≡ true → cancel_task force t ≡ t
unfolding cancel_task
cancel_finished force t f = if_true (is_finished t.status) t (ask_stop force t) f

ask_stop-IsSound :
    (force : Bool) (t : Task)
    → is_finished t.status ≡ false
    → IsSound t
    → IsSound (ask_stop force t)
unfolding ask_stop
ask_stop-IsSound true t u v = record {
  short = push_log_short _ _ _ _;
  counts = InPhase-asked t.phase t.status force_stop_requested _ _ _ u refl v.counts;
}
ask_stop-IsSound false t u v = record {
  short = push_log_short _ _ _ _;
  counts = InPhase-asked t.phase t.status cancel_requested _ _ _ u refl v.counts;
}

pub cancel_task-IsSound : (force : Bool) (t : Task) → IsSound t → IsSound (cancel_task force t)
unfolding cancel_task
cancel_task-IsSound force t v = elim (Bool-cases (is_finished t.status)) [
  | inl f ↦ subst IsSound (sym (if_true (is_finished t.status) t (ask_stop force t) f)) v
  | inr u ↦
      subst IsSound (sym (if_false (is_finished t.status) t (ask_stop force t) u))
        (ask_stop-IsSound force t u v)
]

pub note_progress-IsSound : (p : Progress) (t : Task) → IsSound t → IsSound (note_progress p t)
unfolding note_progress
note_progress-IsSound (begins s f b) t v = record { short = v.short; counts = v.counts }
note_progress-IsSound (stages s) t v = record { short = v.short; counts = v.counts }
note_progress-IsSound (advances b d) t v = record { short = v.short; counts = v.counts }
note_progress-IsSound (notes l s i) t v = record {
  short = push_log_short _ _ _ _;
  counts = v.counts;
}

-- Has a task given up its server?
abbrev pub is_over : Phase → Bool
is_over releasing = true
is_over ended = true
is_over _ = false

abbrev pub is_ended : Phase → Bool
is_ended ended = true
is_ended _ = false

InPhase-is_over :
    (phase : Phase) (status : Status) (done bad : ℕ) (targets : List ℕ)
    → InPhase phase status done bad targets
    → is_finished status ≡ is_over phase
InPhase-is_over launched status done bad targets h = h.0
InPhase-is_over (looping slots) status done bad targets h = h.0
InPhase-is_over (entering slot slots) status done bad targets h = h.0
InPhase-is_over (deploying slot slots) status done bad targets h = h.0
InPhase-is_over (deployed slot slots) status done bad targets h = h.0
InPhase-is_over (failing message slot slots) status done bad targets h = h.0
InPhase-is_over (counting slots) status done bad targets h = h.0
InPhase-is_over halting status done bad targets h = h.0
InPhase-is_over releasing status done bad targets h = h.0
InPhase-is_over ended status done bad targets h = h.0

pub status-is_over : (t : Task) → IsSound t → is_finished t.status ≡ is_over t.phase
status-is_over t v = InPhase-is_over t.phase _ _ _ _ v.counts
