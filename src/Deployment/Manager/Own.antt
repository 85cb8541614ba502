-- ===== src/Deployment/Manager/Own.antt =====
-- What the history of the manager is to one task.
use prism_panel.Deployment.Manager.Table.{some_inj}
use prism_panel.Deployment.Manager.Settle.{give_up-tasks}
use prism_panel.Common.{
  ℕ, ◌≡◌, refl, sym, ap, ◌∙◌, inl, inr, Bool, List, [], ◌∷◌, Option, none, some, if◌then◌else◌,
  ◌==◌, text_eq, eq→≡, arith, Bool-cases, Option-cases,
}
use prism_panel.Common.Text.{Text}
use prism_panel.Common.Error.{Result-cases}
use prism_panel.Common.Dict.{Dict, lookup, insert, lookup-insert}
use prism_panel.Deployment.Task.{
  Kind, Phase, launched, looping, deploying, releasing, ended, Task, Progress, new_task,
  cancel_task, go_on, note_progress, image_sync_back, entering, deployed, failing, counting,
  halting,
}
use prism_panel.Deployment.Manager.{
  Answers, Pending, Manager, try_lock, with_lock, settle, begin_start, commit_first, bring,
  commit_start, cancel, advance, progress, begin_mutation, without_one, end_mutation, check_start,
}
use prism_panel.Deployment.Manager.Trace.{
  Event, begins, commits, cancels, advances, progresses, mutates, unmutates, step, run, IsNew,
  AllNew,
}
use prism_panel.Deployment.Manager.Accounts.{List-cases}
use prism_panel.Deployment.Manager.Kept.{advance_at, advance_nowhere}

-- What an event is to the task with an id.
abbrev pub own_step : Text → Event → Task → Task
own_step id (advances j answer) t = if id == j then go_on answer t else t
own_step id (cancels j force) t = if id == j then cancel_task force t else t
own_step id (progresses j p) t = if id == j then note_progress p t else t
own_step id _ t = t

unfoldable pub own_run : Text → List Event → Task → Task
own_run id [] t = t
own_run id (e ∷ es) t = own_run id es (own_step id e t)

settle-tasks : (p q : Phase) (t : Task) (m : Manager) → (settle p q t m).tasks ≡ m.tasks
unfolding with_lock
settle-tasks launched q t m = give_up-tasks q t.server_id m
settle-tasks (looping slots) q t m = give_up-tasks q t.server_id m
settle-tasks (entering slot slots) q t m = give_up-tasks q t.server_id m
settle-tasks (deploying slot slots) q t m = give_up-tasks q t.server_id m
settle-tasks (deployed slot slots) q t m = give_up-tasks q t.server_id m
settle-tasks (failing message slot slots) q t m = give_up-tasks q t.server_id m
settle-tasks (counting slots) q t m = give_up-tasks q t.server_id m
settle-tasks halting q t m = give_up-tasks q t.server_id m
settle-tasks releasing q t m = refl
settle-tasks ended q t m = refl

-- The task under an id, after a change to the task under another one or the same one.
seen :
    (id j : Text) (t x : Task) (tasks : Dict Text Task) (f : Task → Task)
    → lookup id tasks ≡ some t
    → lookup j tasks ≡ some x
    → lookup id (insert j (f x) tasks) ≡ some (if id == j then f t else t)
seen id j t x tasks f e g = elim (Bool-cases (id == j)) [
  | inl this ↦
      let k : x ≡ t =
        some_inj (sym g ∙ ap (λ (i : Text). lookup i tasks) (sym (eq→≡ id j this)) ∙ e) in
      let h : f x ≡ f t = ap f k in ground (arith, lookup-insert id j (f x) tasks, h)
  | inr other ↦ ground (arith, lookup-insert id j (f x) tasks)
]

unseen :
    (id j : Text) (t : Task) (tasks : Dict Text Task) (f : Task → Task)
    → lookup id tasks ≡ some t
    → lookup j tasks ≡ none
    → lookup id tasks ≡ some (if id == j then f t else t)
unseen id j t tasks f e g = elim (Bool-cases (id == j)) [
  | inl this ↦
      let k : lookup id tasks ≡ none = ap (λ (i : Text). lookup i tasks) (eq→≡ id j this) ∙ g in
      absurd (ground (arith, e, k))
  | inr other ↦ ground (arith, other, e)
]

begin_start-tasks :
    (a : Answers) (kind : Kind) (server_id : Text) (requested : List ℕ) (m : Manager)
    → (begin_start a kind server_id requested m).0.tasks ≡ m.tasks
unfolding begin_start with_lock
begin_start-tasks a kind server_id requested m =
    elim (Result-cases (check_start a kind server_id requested m)) [
      | inl ((l, targets), h) ↦ rw (h, begin_start) refl
      | inr (e, h) ↦ rw (h, begin_start) refl
    ]

begin_mutation-tasks :
    (server_id : Text) (m : Manager) → (begin_mutation server_id m).0.tasks ≡ m.tasks
unfolding begin_mutation with_lock
begin_mutation-tasks server_id m =
    elim (Option-cases (try_lock image_sync_back (m.locks server_id))) [
      | inl e ↦ rw (e, begin_mutation) refl
      | inr (l, e) ↦ rw (e, begin_mutation) refl
    ]

end_mutation-tasks : (server_id : Text) (m : Manager) → (end_mutation server_id m).tasks ≡ m.tasks
unfolding end_mutation with_lock
end_mutation-tasks server_id m = elim (Option-cases (without_one server_id m.mutating)) [
  | inl e ↦ rw (e, end_mutation) refl
  | inr (rest, e) ↦ rw (e, end_mutation) refl
]

-- A new task has another id than the tasks that are there.
commit_first-lookup :
    (id : Text) (t : Task) (task_id : Text) (p : Pending) (rest : List Pending) (m : Manager)
    → lookup id m.tasks ≡ some t
    → lookup task_id m.tasks ≡ none
    → lookup id (commit_first task_id p rest m).0.tasks ≡ some t
unfolding commit_first with_lock
commit_first-lookup id t task_id p rest m e new =
    elim (Option-cases (lookup p.server_id m.active)) [
      | inl f ↦
          rw (f, commit_first)
            (elim (Bool-cases (id == task_id)) [
              | inl this ↦
                  let k : lookup id m.tasks ≡ none =
                    ap (λ (i : Text). lookup i m.tasks) (eq→≡ id task_id this) ∙ new in
                  absurd (ground (arith, e, k))
              | inr other ↦
                  ground (
                    arith,
                    lookup-insert id task_id (new_task p.server_id p.kind p.targets) m.tasks,
                  )
            ])
      | inr (other_id, f) ↦ rw (f, commit_first) e
    ]

commit_start-lookup :
    (id : Text) (t : Task) (index : ℕ) (task_id : Text) (m : Manager)
    → lookup id m.tasks ≡ some t
    → lookup task_id m.tasks ≡ none
    → lookup id (commit_start index task_id m).0.tasks ≡ some t
unfolding commit_start
commit_start-lookup id t index task_id m e new = elim (List-cases (bring index m.pending)) [
  | inl f ↦ rw (f, commit_start) e
  | inr (p, rest, f) ↦ rw (f, commit_start) (commit_first-lookup id t task_id p rest m e new)
]

advance-lookup :
    (id j : Text) (answer : Option Text) (t : Task) (m : Manager)
    → lookup id m.tasks ≡ some t
    → lookup id (advance j answer m).tasks ≡ some (if id == j then go_on answer t else t)
advance-lookup id j answer t m e = elim (Option-cases (lookup j m.tasks)) [
  | inl g ↦
      ap (λ (n : Manager). lookup id n.tasks) (advance_nowhere j answer m g)
      ∙ unseen id j t m.tasks (go_on answer) e g
  | inr (x, g) ↦
      let m' : Manager = record m { tasks = insert j (go_on answer x) m.tasks } in
      ap (λ (n : Manager). lookup id n.tasks) (advance_at j answer x m g)
      ∙ ap (λ (d : Dict Text Task). lookup id d) (settle-tasks x.phase (go_on answer x).phase x m')
      ∙ seen id j t x m.tasks (go_on answer) e g
]

cancel-lookup :
    (id j : Text) (force : Bool) (t : Task) (m : Manager)
    → lookup id m.tasks ≡ some t
    → lookup id (cancel j force m).0.tasks ≡ some (if id == j then cancel_task force t else t)
unfolding cancel
cancel-lookup id j force t m e = elim (Option-cases (lookup j m.tasks)) [
  | inl g ↦ rw (g, cancel) (unseen id j t m.tasks (cancel_task force) e g)
  | inr (x, g) ↦ rw (g, cancel) (seen id j t x m.tasks (cancel_task force) e g)
]

progress-lookup :
    (id j : Text) (p : Progress) (t : Task) (m : Manager)
    → lookup id m.tasks ≡ some t
    → lookup id (progress j p m).tasks ≡ some (if id == j then note_progress p t else t)
unfolding progress
progress-lookup id j p t m e = elim (Option-cases (lookup j m.tasks)) [
  | inl g ↦ rw (g, progress) (unseen id j t m.tasks (note_progress p) e g)
  | inr (x, g) ↦ rw (g, progress) (seen id j t x m.tasks (note_progress p) e g)
]

step-lookup :
    (e : Event) (id : Text) (t : Task) (m : Manager)
    → IsNew e m
    → lookup id m.tasks ≡ some t
    → lookup id (step e m).tasks ≡ some (own_step id e t)
step-lookup (begins a kind server_id requested) id t m n e =
    ap (λ (d : Dict Text Task). lookup id d) (begin_start-tasks a kind server_id requested m) ∙ e
step-lookup (commits index task_id) id t m n e = commit_start-lookup id t index task_id m e n
step-lookup (cancels j force) id t m n e = cancel-lookup id j force t m e
step-lookup (advances j answer) id t m n e = advance-lookup id j answer t m e
step-lookup (progresses j p) id t m n e = progress-lookup id j p t m e
step-lookup (mutates server_id) id t m n e =
    ap (λ (d : Dict Text Task). lookup id d) (begin_mutation-tasks server_id m) ∙ e
step-lookup (unmutates server_id) id t m n e =
    ap (λ (d : Dict Text Task). lookup id d) (end_mutation-tasks server_id m) ∙ e

-- A task that is there stays, and what becomes of it depends on the events that name it and on
-- nothing else, where every new task gets a new id.
pub run-lookup :
    (es : List Event) (id : Text) (t : Task) (m : Manager)
    → AllNew es m
    → lookup id m.tasks ≡ some t
    → lookup id (run es m).tasks ≡ some (own_run id es t)
unfolding run own_run
run-lookup [] id t m n e = e
run-lookup (v ∷ es) id t m (n, ns) e =
    run-lookup es id (own_step id v t) (step v m) ns (step-lookup v id t m n e)
