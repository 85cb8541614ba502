-- ===== src/Deployment/Manager/Accounts.antt =====
-- The locks on the images, and the accounts of who holds them.
use prism_panel.Common.{
  ℕ, zero, suc, ◌+◌, ◌≤◌, ◌≡◌, refl, sym, ap, subst, ◌∙◌, ◌⊎◌, inl, inr, Bool, true, false, List,
  [], ◌∷◌, some, if◌then◌else◌, ◌==◌, text_eq, eq→≡, eq_refl, sum_of, arith, Bool-cases,
  Option-cases, if_true, if_false,
}
use prism_panel.Common.Text.{Text}
use prism_panel.Common.Dict.{lookup, insert, tally-insert_at}
use prism_panel.Deployment.Task.{
  Kind, mirror_deploy, image_sync_back, Phase, launched, looping, deploying, releasing, ended, Task,
  entering, deployed, failing, counting, halting,
}
use prism_panel.Deployment.Task.Sound.{is_ended, is_over}
use prism_panel.Deployment.Manager.{
  Lock, Pending, Manager, try_lock, unlocked, with_lock, unlock_image, bring, without_one, give_up,
  settle,
}
use prism_panel.Deployment.Manager.Locks.{
  units, holds, task_holds, pending_holds, mutation_holds, holders, IsLock, try_lock-IsLock,
  unlocked-IsLock, with_lock-units, unlock_image-units, with_lock-IsLock,
}

-- Every lock is held exactly as often as somebody holds it.
pub record IsLocked (m : Manager) : Type 0 where
  pub lawful : (s : Text) → IsLock (m.locks s)
  pub accounts : (mode : Kind) (s : Text) → units mode (m.locks s) ≡ holders mode s m

pub with_lock-IsLocked :
    (kind : Kind) (id : Text) (l : Lock) (m : Manager) (pending : List Pending)
    (mutating : List Text)
    → try_lock kind (m.locks id) ≡ some l
    → ((mode : Kind) (s : Text)
        → sum_of (pending_holds mode s) pending + sum_of (mutation_holds mode s) mutating
          ≡ sum_of (pending_holds mode s) m.pending
            + sum_of (mutation_holds mode s) m.mutating
            + holds mode s id kind)
    → IsLocked m
    → IsLocked (record (with_lock id l m) { pending = pending; mutating = mutating })
unfolding with_lock
with_lock-IsLocked kind id l m pending mutating e h w = record {
  lawful = λ s.
      with_lock-IsLock s id l m (try_lock-IsLock kind (m.locks id) l e (w.lawful id)) (w.lawful s);
  accounts =
      λ mode s. omega (arith, with_lock-units mode kind s id l m e, w.accounts mode s, h mode s);
}

holds_own : (id : Text) (kind : Kind) → holds kind id id kind ≡ 1
holds_own id mirror_deploy = ground (arith, eq_refl id)
holds_own id image_sync_back = ground (arith, eq_refl id)

-- The lock of somebody who no longer holds it.
pub unlock_image-IsLocked :
    (kind : Kind) (id : Text) (m m' : Manager)
    → ((mode : Kind) (s : Text) → holders mode s m' + holds mode s id kind ≡ holders mode s m)
    → m'.locks ≡ (unlock_image id kind m).locks
    → IsLocked m
    → IsLocked m'
unlock_image-IsLocked kind id m m' h e w = record {
  lawful = λ s. subst IsLock (sym (ap (λ (f : Text → Lock). f s) e)) (
      with_lock-IsLock s id (unlocked kind (m.locks id)) m
        (unlocked-IsLock kind (m.locks id) (w.lawful id)) (w.lawful s));
  accounts = λ mode s.
      let k : 1 ≤ units kind (m.locks id) =
        omega (arith, w.accounts kind id, h kind id, holds_own id kind) in
      let f : units mode (m'.locks s) ≡ units mode ((unlock_image id kind m).locks s) =
        ap (λ (f : Text → Lock). units mode (f s)) e in
      omega (arith, f, unlock_image-units mode kind s id m k, h mode s, w.accounts mode s);
}

pub kept-IsLocked :
    (m m' : Manager)
    → ((mode : Kind) (s : Text) → holders mode s m' ≡ holders mode s m)
    → m'.locks ≡ m.locks
    → IsLocked m
    → IsLocked m'
kept-IsLocked m m' h e w = record {
  lawful = λ s. subst IsLock (sym (ap (λ (f : Text → Lock). f s) e)) (w.lawful s);
  accounts =
      λ mode s. ap (λ (f : Text → Lock). units mode (f s)) e ∙ w.accounts mode s ∙ sym (h mode s);
}

pub List-cases :
    (ps : List Pending) → (ps ≡ []) ⊎ ((q : Pending) × (qs : List Pending) × (ps ≡ q ∷ qs))
List-cases [] = inl refl
List-cases (q ∷ qs) = inr (q, qs, refl)

-- The calls are the same ones, whichever is in front.
pub sum_of-bring :
    (f : Pending → ℕ) (n : ℕ) (ps : List Pending) (q : Pending) (qs : List Pending)
    → bring n ps ≡ q ∷ qs
    → f q + sum_of f qs ≡ sum_of f ps
sum_of-bring f zero ps q qs h = ground (arith, h)
sum_of-bring f (suc n) [] q qs h = absurd (ground (arith, h))
sum_of-bring f (suc n) (p ∷ ps) q qs h = elim (List-cases (bring n ps)) [
  | inl e ↦ ground (arith, e, h)
  | inr (r, rs, e) ↦ ground (arith, e, h, sum_of-bring f n ps r rs e)
]

pub sum_of-without_one :
    (f : Text → ℕ) (id : Text) (js ks : List Text)
    → without_one id js ≡ some ks
    → sum_of f ks + f id ≡ sum_of f js
sum_of-without_one f id [] ks h = absurd (ground (arith, h))
sum_of-without_one f id (j ∷ js) ks h = elim (Bool-cases (id == j)) [
  | inl this ↦ ground (arith, this, eq→≡ id j this, h)
  | inr other ↦ elim (Option-cases (without_one id js)) [
    | inl e ↦ absurd (ground (arith, other, e, h))
    | inr (ls, e) ↦ ground (arith, other, e, h, sum_of-without_one f id js ls e)
  ]
]

give_up-locks :
    (next : Phase) (server_id : Text) (m : Manager) → (give_up next server_id m).locks ≡ m.locks
give_up-locks launched server_id m = refl
give_up-locks (looping slots) server_id m = refl
give_up-locks (entering slot slots) server_id m = refl
give_up-locks (deploying slot slots) server_id m = refl
give_up-locks (deployed slot slots) server_id m = refl
give_up-locks (failing message slot slots) server_id m = refl
give_up-locks (counting slots) server_id m = refl
give_up-locks halting server_id m = refl
give_up-locks releasing server_id m = refl
give_up-locks ended server_id m = refl

give_up-holders :
    (mode : Kind) (s : Text) (next : Phase) (server_id : Text) (m : Manager)
    → holders mode s (give_up next server_id m) ≡ holders mode s m
give_up-holders mode s launched server_id m = refl
give_up-holders mode s (looping slots) server_id m = refl
give_up-holders mode s (entering slot slots) server_id m = refl
give_up-holders mode s (deploying slot slots) server_id m = refl
give_up-holders mode s (deployed slot slots) server_id m = refl
give_up-holders mode s (failing message slot slots) server_id m = refl
give_up-holders mode s (counting slots) server_id m = refl
give_up-holders mode s halting server_id m = refl
give_up-holders mode s releasing server_id m = refl
give_up-holders mode s ended server_id m = refl

-- What a task holds depends on what it is about, and on whether it has ended.
task_holds_same :
    (mode : Kind) (s : Text) (t u : Task)
    → u.server_id ≡ t.server_id
    → u.kind ≡ t.kind
    → is_ended u.phase ≡ is_ended t.phase
    → task_holds mode s u ≡ task_holds mode s t
task_holds_same mode s t u a b c =
    ap (λ (e : Bool). if e then 0 else holds mode s u.server_id u.kind) c
    ∙ ap (λ (i : Text). if is_ended t.phase then 0 else holds mode s i u.kind) a
    ∙ ap (λ (k : Kind). if is_ended t.phase then 0 else holds mode s t.server_id k) b

pub replaced_holders :
    (mode : Kind) (s : Text) (id : Text) (t u : Task) (m : Manager)
    → lookup id m.tasks ≡ some t
    → u.server_id ≡ t.server_id
    → u.kind ≡ t.kind
    → is_ended u.phase ≡ is_ended t.phase
    → holders mode s (record m { tasks = insert id u m.tasks }) ≡ holders mode s m
replaced_holders mode s id t u m e a b c =
    omega (
      arith,
      tally-insert_at (task_holds mode s) id t u m.tasks e,
      task_holds_same mode s t u a b c,
    )

before-IsLocked :
    (q : Phase) (id : Text) (t u : Task) (m : Manager)
    → lookup id m.tasks ≡ some t
    → u.server_id ≡ t.server_id
    → u.kind ≡ t.kind
    → is_ended u.phase ≡ is_ended t.phase
    → IsLocked m
    → IsLocked (give_up q t.server_id (record m { tasks = insert id u m.tasks }))
before-IsLocked q id t u m e a b c w =
    let m' = record m { tasks = insert id u m.tasks } in
    kept-IsLocked m (give_up q t.server_id m')
      (λ mode s. give_up-holders mode s q t.server_id m' ∙ replaced_holders mode s id t u m e a b c)
      (give_up-locks q t.server_id m') w

released_holders :
    (mode : Kind) (s : Text) (id : Text) (t u : Task) (m : Manager)
    → lookup id m.tasks ≡ some t
    → is_ended t.phase ≡ false
    → is_ended u.phase ≡ true
    → holders mode s (record m { tasks = insert id u m.tasks }) + holds mode s t.server_id t.kind
      ≡ holders mode s m
released_holders mode s id t u m e f g =
    let a : task_holds mode s t ≡ holds mode s t.server_id t.kind = if_false _ _ _ f in
    let b : task_holds mode s u ≡ 0 = if_true _ _ _ g in
    omega (arith, tally-insert_at (task_holds mode s) id t u m.tasks e, a, b)

-- A step of a task, and what it settles.
pub settle-IsLocked :
    (p q : Phase) (id : Text) (t u : Task) (m : Manager)
    → lookup id m.tasks ≡ some t
    → t.phase ≡ p
    → is_ended u.phase ≡ is_over p
    → u.server_id ≡ t.server_id
    → u.kind ≡ t.kind
    → IsLocked m
    → IsLocked (settle p q t (record m { tasks = insert id u m.tasks }))
unfolding with_lock
settle-IsLocked launched q id t u m e f g a b w =
    before-IsLocked q id t u m e a b (g ∙ sym (ap (λ (p : Phase). is_ended p) f)) w
settle-IsLocked (looping slots) q id t u m e f g a b w =
    before-IsLocked q id t u m e a b (g ∙ sym (ap (λ (p : Phase). is_ended p) f)) w
settle-IsLocked (entering slot slots) q id t u m e f g a b w =
    before-IsLocked q id t u m e a b (g ∙ sym (ap (λ (p : Phase). is_ended p) f)) w
settle-IsLocked (deploying slot slots) q id t u m e f g a b w =
    before-IsLocked q id t u m e a b (g ∙ sym (ap (λ (p : Phase). is_ended p) f)) w
settle-IsLocked (deployed slot slots) q id t u m e f g a b w =
    before-IsLocked q id t u m e a b (g ∙ sym (ap (λ (p : Phase). is_ended p) f)) w
settle-IsLocked (failing message slot slots) q id t u m e f g a b w =
    before-IsLocked q id t u m e a b (g ∙ sym (ap (λ (p : Phase). is_ended p) f)) w
settle-IsLocked (counting slots) q id t u m e f g a b w =
    before-IsLocked q id t u m e a b (g ∙ sym (ap (λ (p : Phase). is_ended p) f)) w
settle-IsLocked halting q id t u m e f g a b w =
    before-IsLocked q id t u m e a b (g ∙ sym (ap (λ (p : Phase). is_ended p) f)) w
settle-IsLocked releasing q id t u m e f g a b w =
    let m' = record m { tasks = insert id u m.tasks } in
    unlock_image-IsLocked t.kind t.server_id m (unlock_image t.server_id t.kind m')
      (λ mode s. released_holders mode s id t u m e (ap (λ (p : Phase). is_ended p) f) g) refl w
settle-IsLocked ended q id t u m e f g a b w =
    kept-IsLocked m (record m { tasks = insert id u m.tasks })
      (λ mode s.
        replaced_holders mode s id t u m e a b (g ∙ sym (ap (λ (p : Phase). is_ended p) f)))
      refl w
