-- ===== src/Deployment/Manager/Locks.antt =====
-- Who holds the lock on an image.
use prism_panel.Common.{
  ℕ, ◌+◌, ◌≤◌, ◌≡◌, inl, inr, Bool, true, false, ◌&&◌, some, if◌then◌else◌, ◌==◌, nat_eq, text_eq,
  eq→≡, sum_of, arith, Bool-cases, if_both,
}
use prism_panel.Common.Text.{Text}
use prism_panel.Common.Dict.{tally}
use prism_panel.Deployment.Task.{Kind, mirror_deploy, image_sync_back, Task}
use prism_panel.Deployment.Task.Sound.{is_ended}
use prism_panel.Deployment.Manager.{
  Lock, Pending, Manager, try_lock, unlocked, with_lock, unlock_image,
}

abbrev pub same_kind : Kind → Kind → Bool
same_kind mirror_deploy mirror_deploy = true
same_kind image_sync_back image_sync_back = true
same_kind _ _ = false

-- How often a lock is held in a mode: shared for a deployment, else exclusively.
abbrev pub units : Kind → Lock → ℕ
units mirror_deploy l = l.readers
units image_sync_back l = if l.writer then 1 else 0

-- Does somebody who works on a server in this way hold the lock of an image in a mode?
abbrev pub holds : Kind → Text → Text → Kind → ℕ
holds mode s server kind = if (s == server) && same_kind mode kind then 1 else 0

abbrev pub task_holds : Kind → Text → Task → ℕ
task_holds mode s t = if is_ended t.phase then 0 else holds mode s t.server_id t.kind

abbrev pub pending_holds : Kind → Text → Pending → ℕ
pending_holds mode s p = holds mode s p.server_id p.kind

abbrev pub mutation_holds : Kind → Text → Text → ℕ
mutation_holds mode s server = holds mode s server image_sync_back

-- All that hold the lock: tasks that have not released it, calls of `start` and of
-- `WithImageMutation`.
abbrev pub holders : Kind → Text → Manager → ℕ
holders mode s m =
    tally (task_holds mode s) m.tasks
    + sum_of (pending_holds mode s) m.pending
    + sum_of (mutation_holds mode s) m.mutating

-- A lock that is held exclusively is held by nobody else.
abbrev pub IsLock : Lock → Type 0
IsLock l = l.writer ≡ true → l.readers ≡ 0

try_lock-units :
    (mode kind : Kind) (l l' : Lock)
    → try_lock kind l ≡ some l'
    → units mode l' ≡ units mode l + (if same_kind mode kind then 1 else 0)
try_lock-units mirror_deploy mirror_deploy l l' h = ground arith
try_lock-units mirror_deploy image_sync_back l l' h = ground arith
try_lock-units image_sync_back mirror_deploy l l' h = ground arith
try_lock-units image_sync_back image_sync_back l l' h = ground arith

pub try_lock-IsLock : (kind : Kind) (l l' : Lock) → try_lock kind l ≡ some l' → IsLock l → IsLock l'
try_lock-IsLock mirror_deploy l l' h v = ground arith
try_lock-IsLock image_sync_back l l' h v = ground arith

unlocked-units :
    (mode kind : Kind) (l : Lock)
    → 1 ≤ units kind l
    → units mode (unlocked kind l) + (if same_kind mode kind then 1 else 0) ≡ units mode l
unlocked-units mirror_deploy mirror_deploy l h = ground arith
unlocked-units mirror_deploy image_sync_back l h = ground arith
unlocked-units image_sync_back mirror_deploy l h = ground arith
unlocked-units image_sync_back image_sync_back l h = ground arith

pub unlocked-IsLock : (kind : Kind) (l : Lock) → IsLock l → IsLock (unlocked kind l)
unlocked-IsLock mirror_deploy l v = ground arith
unlocked-IsLock image_sync_back l v = ground arith

pub with_lock-units :
    (mode kind : Kind) (s id : Text) (l : Lock) (m : Manager)
    → try_lock kind (m.locks id) ≡ some l
    → units mode ((with_lock id l m).locks s) ≡ units mode (m.locks s) + holds mode s id kind
unfolding with_lock
with_lock-units mode kind s id l m h = elim (Bool-cases (s == id)) [
  | inl same ↦ rw (same, eq→≡ s id same) (try_lock-units mode kind (m.locks id) l h)
  | inr other ↦ rw other (omega arith)
]

pub unlock_image-units :
    (mode kind : Kind) (s id : Text) (m : Manager)
    → 1 ≤ units kind (m.locks id)
    → units mode ((unlock_image id kind m).locks s) + holds mode s id kind ≡ units mode (m.locks s)
unfolding with_lock
unlock_image-units mode kind s id m h = elim (Bool-cases (s == id)) [
  | inl same ↦ rw (same, eq→≡ s id same) (unlocked-units mode kind (m.locks id) h)
  | inr other ↦ rw other (omega arith)
]

pub with_lock-IsLock :
    (s id : Text) (l : Lock) (m : Manager)
    → IsLock l
    → IsLock (m.locks s)
    → IsLock ((with_lock id l m).locks s)
unfolding with_lock
with_lock-IsLock s id l m v w = if_both IsLock (s == id) l (m.locks s) v w
