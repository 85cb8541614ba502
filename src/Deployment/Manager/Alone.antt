-- ===== src/Deployment/Manager/Alone.antt =====
-- The lock on an image while an instance is synced back to it.
use prism_panel.Common.{
  ℕ, ◌≤◌, ◌≡◌, refl, sym, ap, ◌∙◌, inl, inr, Bool, true, false, List, none, some, if◌then◌else◌,
  nat_eq, text_eq, eq_refl, arith, Bool-cases, if_false,
}
use prism_panel.Common.Text.{Text}
use prism_panel.Common.Error.{ErrorCode, err, Result-cases, instance_busy}
use prism_panel.Common.Dict.{lookup, tally-ge}
use prism_panel.Deployment.Task.{Kind, mirror_deploy, image_sync_back, Task}
use prism_panel.Deployment.Task.Sound.{is_ended}
use prism_panel.Deployment.Manager.{
  Answers, Lock, Manager, try_lock, begin_start, begin_mutation, check_start,
}
use prism_panel.Deployment.Manager.Locks.{units, holds, task_holds, holders, IsLock}
use prism_panel.Deployment.Manager.Kept.{IsManager, check_start-locked}

taken_lock :
    (l : Lock) → 1 ≤ units image_sync_back l → IsLock l → (l.writer ≡ true) × (l.readers ≡ 0)
taken_lock l h v = elim (Bool-cases l.writer) [
  | inl w ↦ (w, v w)
  | inr f ↦ absurd (ground (arith, f, h))
]

try_lock_taken : (kind : Kind) (l : Lock) → l.writer ≡ true → try_lock kind l ≡ none
try_lock_taken mirror_deploy l w = rw w refl
try_lock_taken image_sync_back l w = rw w refl

holds_for :
    (kind mode : Kind) (server_id : Text) → kind ≡ mode → holds mode server_id server_id kind ≡ 1
holds_for image_sync_back image_sync_back server_id e = ground (arith, eq_refl server_id)
holds_for mirror_deploy mirror_deploy server_id e = ground (arith, eq_refl server_id)
holds_for mirror_deploy image_sync_back server_id e = absurd (ground (arith, e))
holds_for image_sync_back mirror_deploy server_id e = absurd (ground (arith, e))

-- Nobody gets the lock on the image of a server.
abbrev pub IsShut : Text → Manager → Type 0
IsShut server_id m =
    (begin_mutation server_id m ≡ (m, err instance_busy))
    × ((a : Answers) (kind : Kind) (requested : List ℕ)
        → (e : ErrorCode) × (begin_start a kind server_id requested m ≡ (m, err e)))

taken-IsShut :
    (server_id : Text) (m : Manager) → (m.locks server_id).writer ≡ true → IsShut server_id m
unfolding begin_start begin_mutation
taken-IsShut server_id m w = (
  rw (try_lock_taken image_sync_back (m.locks server_id) w, begin_mutation) refl,
  λ a kind requested. elim (Result-cases (check_start a kind server_id requested m)) [
    | inl ((l, targets), h) ↦
        let e = check_start-locked a kind server_id requested m l targets h in
        let k : none ≡ some l = sym (try_lock_taken kind (m.locks server_id) w) ∙ e in
        absurd (ground (arith, k))
    | inr (e, h) ↦ (e, rw (h, begin_start) refl)
  ],
)

-- In a manager whose tables and locks are right, while a task that syncs back has not ended, it is
-- the only holder of the exclusive lock on its image, and nobody holds a shared one; a change to the
-- image is refused as busy, and every start for its server fails without a change.
pub sync_back_alone :
    (id : Text) (t : Task) (m : Manager)
    → IsManager m
    → lookup id m.tasks ≡ some t
    → t.kind ≡ image_sync_back
    → is_ended t.phase ≡ false
    → (holders image_sync_back t.server_id m ≡ 1)
      × (holders mirror_deploy t.server_id m ≡ 0)
      × IsShut t.server_id m
sync_back_alone id t m v e k f =
    let s = t.server_id in
    let a : task_holds image_sync_back s t ≡ holds image_sync_back s s t.kind = if_false _ _ _ f in
    let b = holds_for t.kind image_sync_back s k in
    let c = tally-ge (task_holds image_sync_back s) id t m.tasks e in
    let h : 1 ≤ units image_sync_back (m.locks s) =
      omega (arith, a, b, c, v.locks.accounts image_sync_back s) in
    let (w, r) = taken_lock (m.locks s) h (v.locks.lawful s) in
    let one : units image_sync_back (m.locks s) ≡ 1 = ap (λ (b : Bool). if b then 1 else 0) w in
    (
      sym (v.locks.accounts image_sync_back s) ∙ one,
      sym (v.locks.accounts mirror_deploy s) ∙ r,
      taken-IsShut s m w,
    )
