-- ===== src/Deployment/Manager/Kept.antt =====
-- The calls of the deployment manager and the steps of its goroutines, for its tables and locks.
use prism_panel.Deployment.Manager.Settle.{settle-IsTable}
use prism_panel.Common.{
  ℕ, ◌+◌, ◌≡◌, refl, sym, ap, subst, inl, inr, Bool, List, Option, none, some, nat_eq, text_eq,
  sum_of, arith, Option-cases,
}
use prism_panel.Common.Text.{Text}
use prism_panel.Common.Error.{ok, Result-cases}
use prism_panel.Common.Dict.{lookup, insert, tally-insert_new}
use prism_panel.Deployment.Task.{
  Kind, image_sync_back, Phase, Task, Progress, new_task, cancel_task, go_on, note_progress,
}
use prism_panel.Deployment.Task.Sound.{
  IsSound, is_ended, new_task-IsSound, go_on-IsSound, cancel_task-IsSound, note_progress-IsSound,
  status-is_over,
}
use prism_panel.Deployment.Task.Steps.{
  go_on-IsStep, go_on-is_ended, note_progress-kept, cancel_task-kept, IsAsked,
}
use prism_panel.Deployment.Manager.{
  Answers, Lock, Pending, Manager, try_lock, with_lock, unlock_image, settle, begin_start,
  commit_first, bring, commit_start, cancel, advance, progress, begin_mutation, without_one,
  end_mutation, check_start,
}
use prism_panel.Deployment.Manager.Locks.{task_holds, pending_holds, mutation_holds}
use prism_panel.Deployment.Manager.Table.{IsTable, replaced-IsTable, started-IsTable}
use prism_panel.Deployment.Manager.Accounts.{
  IsLocked, with_lock-IsLocked, unlock_image-IsLocked, kept-IsLocked, settle-IsLocked, sum_of-bring,
  sum_of-without_one, replaced_holders, List-cases,
}

-- The tables are right, and every lock is held by exactly those that work on its image.
pub record IsManager (m : Manager) : Type 0 where
  pub table : IsTable m.tasks m.active
  pub locks : IsLocked m

pub advance_at :
    (id : Text) (answer : Option Text) (t : Task) (m : Manager)
    → lookup id m.tasks ≡ some t
    → advance id answer m
      ≡ settle t.phase
          (go_on answer t).phase
          t
          (record m { tasks = insert id (go_on answer t) m.tasks })
unfolding advance
advance_at id answer t m e = rw (e, advance) refl

pub advance_nowhere :
    (id : Text) (answer : Option Text) (m : Manager)
    → lookup id m.tasks ≡ none
    → advance id answer m ≡ m
unfolding advance
advance_nowhere id answer m e = rw (e, advance) refl

pub advance-IsManager :
    (id : Text) (answer : Option Text) (m : Manager) → IsManager m → IsManager (advance id answer m)
advance-IsManager id answer m w = elim (Option-cases (lookup id m.tasks)) [
  | inl e ↦ subst IsManager (sym (advance_nowhere id answer m e)) w
  | inr (t, e) ↦
      let u = go_on answer t in
      let (k, left) = go_on-IsStep answer t in
      let v = w.table.sound id t e in
      let v' = go_on-IsSound answer t v in
      subst IsManager (sym (advance_at id answer t m e)) (record {
        table =
            settle-IsTable t.phase u.phase id t u m e (status-is_over t v) (status-is_over u v')
              (go_on-is_ended answer t) k.0 v' w.table;
        locks =
            settle-IsLocked t.phase u.phase id t u m e refl (go_on-is_ended answer t) k.0 k.1
              w.locks;
      })
]

-- A change to one task beside its goroutine.
changed-IsManager :
    (id : Text) (t u : Task) (m : Manager)
    → lookup id m.tasks ≡ some t
    → IsAsked t u
    → IsSound u
    → IsManager m
    → IsManager (record m { tasks = insert id u m.tasks })
changed-IsManager id t u m e (k, p, f) v w = record {
  table = replaced-IsTable m.tasks m.active id t u e k.0 f v w.table;
  locks =
      kept-IsLocked m (record m { tasks = insert id u m.tasks })
        (λ mode s. replaced_holders mode s id t u m e k.0 k.1 (ap (λ (q : Phase). is_ended q) p))
        refl w.locks;
}

pub cancel-IsManager :
    (id : Text) (force : Bool) (m : Manager) → IsManager m → IsManager (cancel id force m).0
unfolding cancel
cancel-IsManager id force m w = elim (Option-cases (lookup id m.tasks)) [
  | inl e ↦ rw (e, cancel) w
  | inr (t, e) ↦
      let v = cancel_task-IsSound force t (w.table.sound id t e) in
      rw (e, cancel)
        (changed-IsManager id t (cancel_task force t) m e (cancel_task-kept force t) v w)
]

pub progress-IsManager :
    (id : Text) (p : Progress) (m : Manager) → IsManager m → IsManager (progress id p m)
unfolding progress
progress-IsManager id p m w = elim (Option-cases (lookup id m.tasks)) [
  | inl e ↦ rw (e, progress) w
  | inr (t, e) ↦
      let v = note_progress-IsSound p t (w.table.sound id t e) in
      rw (e, progress) (changed-IsManager id t (note_progress p t) m e (note_progress-kept p t) v w)
]

-- A start that goes ahead has taken the lock.
pub check_start-locked :
    (a : Answers) (kind : Kind) (server_id : Text) (requested : List ℕ) (m : Manager) (l : Lock)
    (targets : List ℕ)
    → check_start a kind server_id requested m ≡ ok (l, targets)
    → try_lock kind (m.locks server_id) ≡ some l
unfolding check_start
check_start-locked a kind server_id requested m l targets h = grind arith

pub begin_start-IsManager :
    (a : Answers) (kind : Kind) (server_id : Text) (requested : List ℕ) (m : Manager)
    → IsManager m
    → IsManager (begin_start a kind server_id requested m).0
unfolding begin_start with_lock
begin_start-IsManager a kind server_id requested m w =
    elim (Result-cases (check_start a kind server_id requested m)) [
      | inl ((l, targets), h) ↦
          let e = check_start-locked a kind server_id requested m l targets h in
          rw (h, begin_start)
            (record {
              table = w.table;
              locks =
                  with_lock-IsLocked kind server_id l m _ m.mutating e (λ mode s. omega arith)
                    w.locks;
            })
      | inr (e, h) ↦ rw (h, begin_start) w
    ]

pub begin_mutation-IsManager :
    (server_id : Text) (m : Manager) → IsManager m → IsManager (begin_mutation server_id m).0
unfolding begin_mutation with_lock
begin_mutation-IsManager server_id m w =
    elim (Option-cases (try_lock image_sync_back (m.locks server_id))) [
      | inl e ↦ rw (e, begin_mutation) w
      | inr (l, e) ↦
          rw (e, begin_mutation)
            (record {
              table = w.table;
              locks =
                  with_lock-IsLocked image_sync_back server_id l m m.pending _ e
                    (λ mode s. omega arith) w.locks;
            })
    ]

pub end_mutation-IsManager :
    (server_id : Text) (m : Manager) → IsManager m → IsManager (end_mutation server_id m)
unfolding end_mutation with_lock
end_mutation-IsManager server_id m w = elim (Option-cases (without_one server_id m.mutating)) [
  | inl e ↦ rw (e, end_mutation) w
  | inr (rest, e) ↦
      rw (e, end_mutation)
        (record {
          table = w.table;
          locks =
              unlock_image-IsLocked image_sync_back server_id m
                (record (unlock_image server_id image_sync_back m) { mutating = rest })
                (λ mode s.
                  omega
                    (arith, sum_of-without_one (mutation_holds mode s) server_id m.mutating rest e))
                refl w.locks;
        })
]

-- A call that waits becomes a task, or gives up.
commit_first-IsManager :
    (task_id : Text) (p : Pending) (rest : List Pending) (m : Manager)
    → lookup task_id m.tasks ≡ none
    → ((mode : Kind) (s : Text)
        → pending_holds mode s p + sum_of (pending_holds mode s) rest
          ≡ sum_of (pending_holds mode s) m.pending)
    → IsManager m
    → IsManager (commit_first task_id p rest m).0
unfolding commit_first with_lock
commit_first-IsManager task_id p rest m new h w =
    elim (Option-cases (lookup p.server_id m.active)) [
      | inl e ↦
          rw (e, commit_first)
            (record {
              table =
                  started-IsTable m.tasks m.active task_id (new_task p.server_id p.kind p.targets)
                    new e refl (new_task-IsSound p.server_id p.kind p.targets) w.table;
              locks =
                  kept-IsLocked m
                    (record m {
                      pending = rest;
                      tasks = insert task_id (new_task p.server_id p.kind p.targets) m.tasks;
                      active = insert p.server_id task_id m.active;
                    })
                    (λ mode s. omega (
                      arith,
                      h mode s,
                      tally-insert_new (task_holds mode s) task_id
                          (new_task p.server_id p.kind p.targets) m.tasks new,
                    ))
                    refl w.locks;
            })
      | inr (id, e) ↦
          rw (e, commit_first)
            (record {
              table = w.table;
              locks =
                  unlock_image-IsLocked p.kind p.server_id m
                    (unlock_image p.server_id p.kind (record m { pending = rest }))
                    (λ mode s. omega (arith, h mode s)) refl w.locks;
            })
    ]

pub commit_start-IsManager :
    (index : ℕ) (task_id : Text) (m : Manager)
    → lookup task_id m.tasks ≡ none
    → IsManager m
    → IsManager (commit_start index task_id m).0
unfolding commit_start
commit_start-IsManager index task_id m new w = elim (List-cases (bring index m.pending)) [
  | inl e ↦ rw (e, commit_start) w
  | inr (p, rest, e) ↦
      rw (e, commit_start)
        (commit_first-IsManager task_id p rest m new
          (λ mode s. sum_of-bring (pending_holds mode s) index m.pending p rest e) w)
]
