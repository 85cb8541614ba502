-- ===== src/Supervisor/Registry/Served.antt =====
-- The configurations that are served, through the mutexes and the targets.
use prism_panel.Common.{
  ◌≡◌, refl, sym, ap, subst, ◌∙◌, ◌⊎◌, inl, inr, Bool, true, false, List, [], ◌∷◌, Option, none,
  some, if◌then◌else◌, ◌==◌, text_eq, nat_eq, arith, Bool-cases, Option-cases,
}
use prism_panel.Common.Text.{Text}
use prism_panel.Server.{InstanceConfig}
use prism_panel.Supervisor.Types.{Instance, Instances}
use prism_panel.Supervisor.Deployment.{with_op, held_as, unlock_operations}
use prism_panel.Supervisor.Registry.{with_held, target, retarget, with_targets}

-- The configuration that a managed instance has.
abbrev pub served : Option Instance → Option InstanceConfig
served none = none
served (some i) = if i.managed then some i.cfg else none

served-held_as : (b : Bool) (o : Option Instance) → served (held_as b o) ≡ served o
served-held_as b none = refl
served-held_as b (some i) = refl

served-with_op :
    (b : Bool) (id : Text) (m : Instances) (j : Text) → served (with_op b id m j) ≡ served (m j)
unfolding with_op
served-with_op b id m j = elim (Bool-cases (j == id)) [
  | inl same ↦ rw same (served-held_as b (m j))
  | inr other ↦ rw other refl
]

pub served-with_held :
    (ids : List Text) (m : Instances) (j : Text) → served (with_held ids m j) ≡ served (m j)
unfolding with_held
served-with_held [] m j = refl
served-with_held (id ∷ ids) m j =
    served-with_op true id (with_held ids m) j ∙ served-with_held ids m j

pub served-unlock_operations :
    (ids : List Text) (m : Instances) (j : Text) → served (unlock_operations ids m j) ≡ served (m j)
unfolding unlock_operations
served-unlock_operations [] m j = refl
served-unlock_operations (id ∷ ids) m j =
    served-unlock_operations ids (with_op false id m) j ∙ served-with_op false id m j

-- What of a served configuration is left, by its target.
abbrev served_as : Text → Option InstanceConfig → Option InstanceConfig → Option InstanceConfig
served_as server_id (some c) o = some c
served_as server_id none none = none
served_as server_id none (some c) = if c.server_id == server_id then none else some c

served-retarget :
    (server_id : Text) (t : Option InstanceConfig) (o : Option Instance)
    → served (retarget server_id t o) ≡ served_as server_id t (served o)
served-retarget server_id (some c) none = refl
served-retarget server_id (some c) (some i) = refl
served-retarget server_id none none = refl
served-retarget server_id none (some i) = elim (Bool-cases i.managed) [
  | inl on ↦ ground arith
  | inr off ↦ ground arith
]

served_as_lem :
    (server_id : Text) (o : Option InstanceConfig) (c : InstanceConfig)
    → served_as server_id none o ≡ some c
    → (o ≡ some c) × ((c.server_id == server_id) ≡ false)
served_as_lem server_id none c e = absurd (ground arith)
served_as_lem server_id (some b) c e = elim (Bool-cases (b.server_id == server_id)) [
  | inl mine ↦ absurd (ground arith)
  | inr foreign ↦
      let same : b ≡ c = ground arith in
      (
        ap some same,
        subst (λ (x : InstanceConfig). (x.server_id == server_id) ≡ false) same foreign,
      )
]

-- What serves after the targets have been entered: a target, or what served before and is foreign.
pub served_after :
    (server_id : Text) (targets : List InstanceConfig) (m : Instances) (j : Text)
    (c : InstanceConfig)
    → served (with_targets server_id targets m j) ≡ some c
    → (target j targets ≡ some c) ⊎ ((served (m j) ≡ some c) × ((c.server_id == server_id) ≡ false))
unfolding with_targets
served_after server_id targets m j c e =
    let e' = sym (served-retarget server_id (target j targets) (m j)) ∙ e in
    elim (Option-cases (target j targets)) [
      | inr (b, n) ↦ inl (ground arith)
      | inl n ↦ inr (served_as_lem server_id (served (m j)) c (rw (sym n) e'))
    ]

-- `with_targets` serves the same where the same was served.
pub served-with_targets :
    (server_id : Text) (targets : List InstanceConfig) (m n : Instances) (j : Text)
    → served (m j) ≡ served (n j)
    → served (with_targets server_id targets m j) ≡ served (with_targets server_id targets n j)
unfolding with_targets
served-with_targets server_id targets m n j same =
    served-retarget server_id (target j targets) (m j)
    ∙ ap (served_as server_id (target j targets)) same
    ∙ sym (served-retarget server_id (target j targets) (n j))
