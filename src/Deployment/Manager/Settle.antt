-- ===== src/Deployment/Manager/Settle.antt =====
-- What a step of a task does to the tables.
use prism_panel.Common.{◌≡◌, refl, sym, subst, ◌∙◌, true, false, some, nat_eq, text_eq, arith}
use prism_panel.Common.Text.{Text}
use prism_panel.Common.Dict.{Dict, lookup, insert}
use prism_panel.Deployment.Task.{
  Phase, launched, looping, deploying, releasing, ended, Task, is_finished, entering, deployed,
  failing, counting, halting,
}
use prism_panel.Deployment.Task.Sound.{IsSound, is_over, is_ended}
use prism_panel.Deployment.Manager.{Manager, with_lock, settle, give_up}
use prism_panel.Deployment.Manager.Table.{IsTable, replaced-IsTable, finished-IsTable}

-- A step of a task in the tables.
ended_over : (q : Phase) → is_ended q ≡ true → is_over q ≡ true
ended_over launched h = absurd (ground (arith, h))
ended_over (looping slots) h = absurd (ground (arith, h))
ended_over (entering slot slots) h = absurd (ground (arith, h))
ended_over (deploying slot slots) h = absurd (ground (arith, h))
ended_over (deployed slot slots) h = absurd (ground (arith, h))
ended_over (failing message slot slots) h = absurd (ground (arith, h))
ended_over (counting slots) h = absurd (ground (arith, h))
ended_over halting h = absurd (ground (arith, h))
ended_over releasing h = refl
ended_over ended h = refl

give_up-IsTable :
    (q : Phase) (id : Text) (t u : Task) (m : Manager)
    → lookup id m.tasks ≡ some t
    → is_finished t.status ≡ false
    → is_finished u.status ≡ is_over q
    → is_ended q ≡ false
    → u.server_id ≡ t.server_id
    → IsSound u
    → IsTable m.tasks m.active
    → IsTable (insert id u m.tasks) (give_up q t.server_id m).active
give_up-IsTable launched id t u m e f g a b v w =
    replaced-IsTable m.tasks m.active id t u e b (g ∙ sym f) v w
give_up-IsTable (looping slots) id t u m e f g a b v w =
    replaced-IsTable m.tasks m.active id t u e b (g ∙ sym f) v w
give_up-IsTable (entering slot slots) id t u m e f g a b v w =
    replaced-IsTable m.tasks m.active id t u e b (g ∙ sym f) v w
give_up-IsTable (deploying slot slots) id t u m e f g a b v w =
    replaced-IsTable m.tasks m.active id t u e b (g ∙ sym f) v w
give_up-IsTable (deployed slot slots) id t u m e f g a b v w =
    replaced-IsTable m.tasks m.active id t u e b (g ∙ sym f) v w
give_up-IsTable (failing message slot slots) id t u m e f g a b v w =
    replaced-IsTable m.tasks m.active id t u e b (g ∙ sym f) v w
give_up-IsTable (counting slots) id t u m e f g a b v w =
    replaced-IsTable m.tasks m.active id t u e b (g ∙ sym f) v w
give_up-IsTable halting id t u m e f g a b v w =
    replaced-IsTable m.tasks m.active id t u e b (g ∙ sym f) v w
give_up-IsTable releasing id t u m e f g a b v w =
    finished-IsTable m.tasks m.active id t u e f g v w
give_up-IsTable ended id t u m e f g a b v w = absurd (ground (arith, a))

pub give_up-tasks :
    (q : Phase) (server_id : Text) (m : Manager) → (give_up q server_id m).tasks ≡ m.tasks
give_up-tasks launched server_id m = refl
give_up-tasks (looping slots) server_id m = refl
give_up-tasks (entering slot slots) server_id m = refl
give_up-tasks (deploying slot slots) server_id m = refl
give_up-tasks (deployed slot slots) server_id m = refl
give_up-tasks (failing message slot slots) server_id m = refl
give_up-tasks (counting slots) server_id m = refl
give_up-tasks halting server_id m = refl
give_up-tasks releasing server_id m = refl
give_up-tasks ended server_id m = refl

give_up-active :
    (q : Phase) (server_id : Text) (m : Manager) (tasks : Dict Text Task)
    → (give_up q server_id (record m { tasks = tasks })).active ≡ (give_up q server_id m).active
give_up-active launched server_id m tasks = refl
give_up-active (looping slots) server_id m tasks = refl
give_up-active (entering slot slots) server_id m tasks = refl
give_up-active (deploying slot slots) server_id m tasks = refl
give_up-active (deployed slot slots) server_id m tasks = refl
give_up-active (failing message slot slots) server_id m tasks = refl
give_up-active (counting slots) server_id m tasks = refl
give_up-active halting server_id m tasks = refl
give_up-active releasing server_id m tasks = refl
give_up-active ended server_id m tasks = refl

before-IsTable :
    (q : Phase) (id : Text) (t u : Task) (m : Manager)
    → IsTable (insert id u m.tasks) (give_up q t.server_id m).active
    → IsTable
        (give_up q t.server_id (record m { tasks = insert id u m.tasks })).tasks
        (give_up q t.server_id (record m { tasks = insert id u m.tasks })).active
before-IsTable q id t u m w =
    let m' = record m { tasks = insert id u m.tasks } in
    subst (λ (d : Dict Text Task). IsTable d (give_up q t.server_id m').active)
      (sym (give_up-tasks q t.server_id m'))
      (subst (λ (d : Dict Text Text). IsTable (insert id u m.tasks) d)
        (sym (give_up-active q t.server_id m (insert id u m.tasks))) w)

pub settle-IsTable :
    (p q : Phase) (id : Text) (t u : Task) (m : Manager)
    → lookup id m.tasks ≡ some t
    → is_finished t.status ≡ is_over p
    → is_finished u.status ≡ is_over q
    → is_ended q ≡ is_over p
    → u.server_id ≡ t.server_id
    → IsSound u
    → IsTable m.tasks m.active
    → IsTable
        (settle p q t (record m { tasks = insert id u m.tasks })).tasks
        (settle p q t (record m { tasks = insert id u m.tasks })).active
unfolding with_lock
settle-IsTable launched q id t u m e f g a b v w =
    before-IsTable q id t u m (give_up-IsTable q id t u m e f g a b v w)
settle-IsTable (looping slots) q id t u m e f g a b v w =
    before-IsTable q id t u m (give_up-IsTable q id t u m e f g a b v w)
settle-IsTable (entering slot slots) q id t u m e f g a b v w =
    before-IsTable q id t u m (give_up-IsTable q id t u m e f g a b v w)
settle-IsTable (deploying slot slots) q id t u m e f g a b v w =
    before-IsTable q id t u m (give_up-IsTable q id t u m e f g a b v w)
settle-IsTable (deployed slot slots) q id t u m e f g a b v w =
    before-IsTable q id t u m (give_up-IsTable q id t u m e f g a b v w)
settle-IsTable (failing message slot slots) q id t u m e f g a b v w =
    before-IsTable q id t u m (give_up-IsTable q id t u m e f g a b v w)
settle-IsTable (counting slots) q id t u m e f g a b v w =
    before-IsTable q id t u m (give_up-IsTable q id t u m e f g a b v w)
settle-IsTable halting q id t u m e f g a b v w =
    before-IsTable q id t u m (give_up-IsTable q id t u m e f g a b v w)
settle-IsTable releasing q id t u m e f g a b v w =
    replaced-IsTable m.tasks m.active id t u e b (g ∙ ended_over q a ∙ sym f) v w
settle-IsTable ended q id t u m e f g a b v w =
    replaced-IsTable m.tasks m.active id t u e b (g ∙ ended_over q a ∙ sym f) v w
