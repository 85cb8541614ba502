-- ===== src/Deployment/Manager/Ends.antt =====
-- The end of a task, and what is final about it.
use prism_panel.Deployment.Task.Final.{IsFinal, same, go_on_from-IsFinal, note_progress-IsFinal}
use prism_panel.Common.{
  ℕ, ◌-◌, ◌≤◌, ◌≡◌, ◌≢◌, refl, sym, ap, subst, ◌∙◌, inl, inr, true, List, [], ◌∷◌, some,
  if◌then◌else◌, sum_of, ◌==◌, text_eq, arith, Bool-cases, if_both,
}
use prism_panel.Common.Text.{Text}
use prism_panel.Common.Dict.{lookup}
use prism_panel.Deployment.Task.{
  Phase, launched, looping, deploying, releasing, ended, Task, cancel_task, go_on, note_progress,
  is_finished, entering, deployed, failing, counting, halting,
}
use prism_panel.Deployment.Task.Sound.{
  IsSound, is_over, cancel_finished, go_on-IsSound, note_progress-IsSound, status-is_over,
}
use prism_panel.Deployment.Task.Steps.{
  IsAsked, steps_from, steps_left, go_on-IsStep, note_progress-kept, cancel_task-kept,
}
use prism_panel.Deployment.Manager.{Manager}
use prism_panel.Deployment.Manager.Trace.{
  Event, begins, commits, cancels, advances, progresses, mutates, unmutates, run, AllNew,
}
use prism_panel.Deployment.Manager.Table.{some_inj}
use prism_panel.Deployment.Manager.Kept.{IsManager}
use prism_panel.Deployment.Manager.Invariant.{run-IsManager}
use prism_panel.Deployment.Manager.Own.{own_step, own_run, run-lookup}

-- How many steps of a task's goroutine there are among the events.
abbrev pub is_advance : Text → Event → ℕ
is_advance id (advances j answer) = if id == j then 1 else 0
is_advance id _ = 0

abbrev pub advances_of : Text → List Event → ℕ
advances_of id es = sum_of (is_advance id) es

kept-steps_left : (t u : Task) → IsAsked t u → steps_left u ≤ steps_left t - 0
kept-steps_left t u (k, p, f) =
    let a : steps_left u ≡ steps_from t.phase u.targets =
      ap (λ (q : Phase). steps_from q u.targets) p in
    let b : steps_from t.phase u.targets ≡ steps_left t =
      ap (λ (ss : List ℕ). steps_from t.phase ss) k.2 in
    omega (arith, a, b)

-- Each step of the goroutine brings the end nearer, and nothing else moves it away.
own_step-steps_left :
    (e : Event) (id : Text) (t : Task)
    → steps_left (own_step id e t) ≤ steps_left t - is_advance id e
own_step-steps_left (begins a kind server_id requested) id t = omega arith
own_step-steps_left (commits index task_id) id t = omega arith
own_step-steps_left (cancels j force) id t =
    if_both (λ (u : Task). steps_left u ≤ steps_left t - 0) (id == j) (cancel_task force t) t
      (kept-steps_left t (cancel_task force t) (cancel_task-kept force t)) (omega arith)
own_step-steps_left (advances j answer) id t = elim (Bool-cases (id == j)) [
  | inl this ↦ rw this ((go_on-IsStep answer t).1)
  | inr other ↦ rw other (omega arith)
]
own_step-steps_left (progresses j p) id t =
    if_both (λ (u : Task). steps_left u ≤ steps_left t - 0) (id == j) (note_progress p t) t
      (kept-steps_left t (note_progress p t) (note_progress-kept p t)) (omega arith)
own_step-steps_left (mutates server_id) id t = omega arith
own_step-steps_left (unmutates server_id) id t = omega arith

own_run-steps_left :
    (es : List Event) (id : Text) (t : Task)
    → steps_left (own_run id es t) ≤ steps_left t - advances_of id es
unfolding own_run
own_run-steps_left [] id t = omega arith
own_run-steps_left (e ∷ es) id t =
    omega (arith, own_step-steps_left e id t, own_run-steps_left es id (own_step id e t))

no_steps : (p : Phase) (targets : List ℕ) → steps_from p targets ≤ 0 → p ≡ ended
no_steps launched targets h = absurd (omega (arith, h))
no_steps (looping slots) targets h = absurd (omega (arith, h))
no_steps (entering slot slots) targets h = absurd (omega (arith, h))
no_steps (deploying slot slots) targets h = absurd (omega (arith, h))
no_steps (deployed slot slots) targets h = absurd (omega (arith, h))
no_steps (failing message slot slots) targets h = absurd (omega (arith, h))
no_steps (counting slots) targets h = absurd (omega (arith, h))
no_steps halting targets h = absurd (omega (arith, h))
no_steps releasing targets h = absurd (omega (arith, h))
no_steps ended targets h = refl

-- In a manager whose tables and locks are right, and where every new task gets a new id: a task
-- whose goroutine makes as many steps as it has left, five times the slots and three from its start, has
-- come to its end, whatever else happens meanwhile; it is finished then, and no longer the active
-- task of its server.
pub task_ends :
    (es : List Event) (id : Text) (t : Task) (m : Manager)
    → AllNew es m
    → IsManager m
    → lookup id m.tasks ≡ some t
    → steps_left t ≤ advances_of id es
    → (u : Task) × (lookup id (run es m).tasks ≡ some u)
      × (u.phase ≡ ended)
      × (is_finished u.status ≡ true)
      × (lookup u.server_id (run es m).active ≢ some id)
task_ends es id t m n w e h =
    let u = own_run id es t in
    let a = run-lookup es id t m n e in
    let w' = run-IsManager es m n w in
    let p : u.phase ≡ ended =
      no_steps u.phase u.targets (omega (arith, own_run-steps_left es id t, h)) in
    let f : is_finished u.status ≡ true =
      status-is_over u (w'.table.sound id u a) ∙ ap (λ (q : Phase). is_over q) p in
    (
      u,
      a,
      p,
      f,
      λ o.
          let (x, g, s, d) = w'.table.own u.server_id id o in
          let k : x ≡ u = some_inj (sym g ∙ a) in
          absurd (ground (arith, f, sym (ap (λ (y : Task). is_finished y.status) k) ∙ d)),
    )

-- A finished task that stays finished as it is.
abbrev pub StaysFinal : Task → Task → Type 0
StaysFinal t u = IsFinal t u × IsSound u

own_step-StaysFinal :
    (e : Event) (id : Text) (t : Task)
    → is_finished t.status ≡ true
    → IsSound t
    → StaysFinal t (own_step id e t)
own_step-StaysFinal (begins a kind server_id requested) id t f v = (same t, v)
own_step-StaysFinal (commits index task_id) id t f v = (same t, v)
own_step-StaysFinal (cancels j force) id t f v =
    if_both (StaysFinal t) (id == j) (cancel_task force t) t
      (subst (StaysFinal t) (sym (cancel_finished force t f)) (same t, v)) (same t, v)
own_step-StaysFinal (advances j answer) id t f v =
    let o : is_over t.phase ≡ true = sym (status-is_over t v) ∙ f in
    if_both (StaysFinal t) (id == j) (go_on answer t) t
      (go_on_from-IsFinal t.phase answer t o, go_on-IsSound answer t v) (same t, v)
own_step-StaysFinal (progresses j p) id t f v =
    if_both (StaysFinal t) (id == j) (note_progress p t) t
      (note_progress-IsFinal p t, note_progress-IsSound p t v) (same t, v)
own_step-StaysFinal (mutates server_id) id t f v = (same t, v)
own_step-StaysFinal (unmutates server_id) id t f v = (same t, v)

own_run-IsFinal :
    (es : List Event) (id : Text) (t : Task)
    → is_finished t.status ≡ true
    → IsSound t
    → IsFinal t (own_run id es t)
unfolding own_run
own_run-IsFinal [] id t f v = same t
own_run-IsFinal (e ∷ es) id t f v =
    let (k, v') = own_step-StaysFinal e id t f v in
    let f' = ap (λ s. is_finished s) k.0 ∙ f in
    let r = own_run-IsFinal es id (own_step id e t) f' v' in
    (r.0 ∙ k.0, r.1 ∙ k.1, r.2 ∙ k.2, r.3 ∙ k.3)

-- In a manager whose tables and locks are right, and where every new task gets a new id, a finished
-- task keeps its status, its counts and its error whatever happens, stop requests included.
pub finished_stays :
    (es : List Event) (id : Text) (t : Task) (m : Manager)
    → AllNew es m
    → IsManager m
    → lookup id m.tasks ≡ some t
    → is_finished t.status ≡ true
    → (u : Task) × (lookup id (run es m).tasks ≡ some u) × IsFinal t u
finished_stays es id t m n w e f =
    (own_run id es t, run-lookup es id t m n e, own_run-IsFinal es id t f (w.table.sound id t e))
