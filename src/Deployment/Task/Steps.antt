-- ===== src/Deployment/Task/Steps.antt =====
-- What a step of a task keeps, and how many steps a task has left.
use prism_panel.Common.{
  ℕ, ◌+◌, ◌-◌, ◌*◌, ◌≤◌, ◌≡◌, refl, ap, inl, inr, Bool, true, false, List, [], ◌∷◌, Option, none,
  some, ltb, length, arith, Bool-cases, if_both, suc,
}
use prism_panel.Common.Text.{Text}
use prism_panel.Deployment.Task.Sound.{is_ended, is_over}
use prism_panel.Deployment.Task.{
  Phase, launched, releasing, ended, looping, deploying, Task, cancel_task, finish_cancelled,
  finish_all, launch, enter_slot, note_success, note_failure, entering, deployed, failing, counting,
  halting, go_on_from, go_on, Progress, begins, stages, advances, notes, note_progress, ask_stop,
  is_finished,
}

-- What a task is about never changes.
abbrev pub IsSame : Task → Task → Type 0
IsSame t u = (u.server_id ≡ t.server_id) × (u.kind ≡ t.kind) × (u.targets ≡ t.targets)

same : (t : Task) → IsSame t t
same t = (refl, refl, refl)

finish_cancelled_keeps :
    (t : Task) → IsSame t (finish_cancelled t) × ((finish_cancelled t).phase ≡ releasing)
unfolding finish_cancelled
finish_cancelled_keeps t =
    if_both (λ (u : Task). IsSame t u × (u.phase ≡ releasing)) t.force _ _ (same t, refl)
      (same t, refl)

finish_all_keeps : (t : Task) → IsSame t (finish_all t) × ((finish_all t).phase ≡ releasing)
unfolding finish_all
finish_all_keeps t =
    if_both (λ (u : Task). IsSame t u × (u.phase ≡ releasing)) (ltb 0 t.failed_count) _ _
      (same t, refl) (same t, refl)

-- How many steps there are from a phase to the end, at most.
abbrev pub steps_from : Phase → List ℕ → ℕ
steps_from launched targets = 5 * length targets + 3
steps_from (looping slots) targets = 5 * length slots + 2
steps_from (entering slot slots) targets = 5 * length slots + 6
steps_from (deploying slot slots) targets = 5 * length slots + 5
steps_from (deployed slot slots) targets = 5 * length slots + 4
steps_from (failing message slot slots) targets = 5 * length slots + 4
steps_from (counting slots) targets = 5 * length slots + 3
steps_from halting targets = 2
steps_from releasing targets = 1
steps_from ended targets = 0

abbrev pub steps_left : Task → ℕ
steps_left t = steps_from t.phase t.targets

-- One step, seen from outside: where it may lead to.
abbrev pub IsStep : Phase → Task → Task → Type 0
IsStep phase t u = IsSame t u × (steps_left u ≤ steps_from phase t.targets - 1)

at_releasing :
    (phase : Phase) (t u : Task)
    → 2 ≤ steps_from phase t.targets
    → IsSame t u × (u.phase ≡ releasing)
    → IsStep phase t u
at_releasing phase t u h (k, p) =
    let e : steps_left u ≡ 1 = ap (λ (q : Phase). steps_from q u.targets) p in
    (k, omega (arith, e, h))

go_on_from-IsStep :
    (phase : Phase) (answer : Option Text) (t : Task)
    → t.phase ≡ phase
    → IsStep phase t (go_on_from phase answer t)
unfolding go_on_from launch enter_slot note_success note_failure
go_on_from-IsStep launched answer t e = (same t, omega arith)
go_on_from-IsStep (looping []) answer t e =
    at_releasing (looping []) t (finish_all t) (omega arith) (finish_all_keeps t)
go_on_from-IsStep (looping (slot ∷ slots)) answer t e = (
  same t,
  if_both (λ (p : Phase). steps_from p t.targets ≤ 5 * suc (length slots) + 2 - 1) t.stopped halting
      (entering slot slots) (omega arith) (omega arith),
)
go_on_from-IsStep (entering slot slots) answer t e = (same t, omega arith)
go_on_from-IsStep (deploying slot slots) none t e = (same t, omega arith)
go_on_from-IsStep (deploying slot slots) (some message) t e = (
  same t,
  if_both (λ (p : Phase). steps_from p t.targets ≤ 5 * length slots + 5 - 1) t.stopped halting
      (failing message slot slots) (omega arith) (omega arith),
)
go_on_from-IsStep (deployed slot slots) answer t e = (same t, omega arith)
go_on_from-IsStep (failing message slot slots) answer t e = (same t, omega arith)
go_on_from-IsStep (counting slots) answer t e = (same t, omega arith)
go_on_from-IsStep halting answer t e =
    at_releasing halting t (finish_cancelled t) (omega arith) (finish_cancelled_keeps t)
go_on_from-IsStep releasing answer t e = (same t, omega arith)
go_on_from-IsStep ended answer t e =
    let k : steps_left t ≡ 0 = ap (λ (q : Phase). steps_from q t.targets) e in
    (same t, omega (arith, k))

pub go_on-IsStep : (answer : Option Text) (t : Task) → IsStep t.phase t (go_on answer t)
go_on-IsStep answer t = go_on_from-IsStep t.phase answer t refl

-- What a change beside the goroutine keeps.
abbrev pub IsAsked : Task → Task → Type 0
IsAsked t u = IsSame t u × (u.phase ≡ t.phase) × (is_finished u.status ≡ is_finished t.status)

pub note_progress-kept : (p : Progress) (t : Task) → IsAsked t (note_progress p t)
unfolding note_progress
note_progress-kept (begins s f b) t = (same t, refl, refl)
note_progress-kept (stages s) t = (same t, refl, refl)
note_progress-kept (advances b d) t = (same t, refl, refl)
note_progress-kept (notes l s i) t = (same t, refl, refl)

pub cancel_task-kept : (force : Bool) (t : Task) → IsAsked t (cancel_task force t)
unfolding cancel_task ask_stop
cancel_task-kept true t = elim (Bool-cases (is_finished t.status)) [
  | inl f ↦ rw f (same t, refl, f)
  | inr u ↦ rw u (same t, refl, refl)
]
cancel_task-kept false t = elim (Bool-cases (is_finished t.status)) [
  | inl f ↦ rw f (same t, refl, f)
  | inr u ↦ rw u (same t, refl, refl)
]

-- A step leads to the end from the release only.
go_on_from-is_ended :
    (phase : Phase) (answer : Option Text) (t : Task)
    → t.phase ≡ phase
    → is_ended (go_on_from phase answer t).phase ≡ is_over phase
unfolding go_on_from launch enter_slot note_success note_failure
go_on_from-is_ended launched answer t e = refl
go_on_from-is_ended (looping []) answer t e =
    ap (λ (p : Phase). is_ended p) ((finish_all_keeps t).1)
go_on_from-is_ended (looping (slot ∷ slots)) answer t e =
    if_both (λ (p : Phase). is_ended p ≡ false) t.stopped halting (entering slot slots) refl refl
go_on_from-is_ended (entering slot slots) answer t e = refl
go_on_from-is_ended (deploying slot slots) none t e = refl
go_on_from-is_ended (deploying slot slots) (some message) t e =
    if_both (λ (p : Phase). is_ended p ≡ false) t.stopped halting (failing message slot slots) refl
      refl
go_on_from-is_ended (deployed slot slots) answer t e = refl
go_on_from-is_ended (failing message slot slots) answer t e = refl
go_on_from-is_ended (counting slots) answer t e = refl
go_on_from-is_ended halting answer t e =
    ap (λ (p : Phase). is_ended p) ((finish_cancelled_keeps t).1)
go_on_from-is_ended releasing answer t e = refl
go_on_from-is_ended ended answer t e = ap (λ (p : Phase). is_ended p) e

pub go_on-is_ended :
    (answer : Option Text) (t : Task) → is_ended (go_on answer t).phase ≡ is_over t.phase
go_on-is_ended answer t = go_on_from-is_ended t.phase answer t refl
