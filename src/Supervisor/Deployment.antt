-- ===== src/Supervisor/Deployment.antt =====
-- daemon/internal/supervisor/deployment_lock.go: the reservation of instances for a deployment. The
-- manager is the map of instances; the state events that it publishes are left out. A call runs without others in between.
pub mod Reserve
use mathlib.Core.Option
use prism_panel.Common.{
  Bool, true, false, ◌||◌, not, List, [], ◌∷◌, Option, none, some, if◌then◌else◌, ◌==◌, text_eq,
}
use prism_panel.Common.Text.{Text}
use prism_panel.Common.Error.{Result, ok, err, instance_not_found, instance_busy}
use prism_panel.Firewall.Rules.{sort_texts}
use prism_panel.Supervisor.Types.{Instance, Instances, is_moving}

-- `lookup`
unfoldable pub find : Text → Instances → Option Instance
find id m = elim (m id) [ none ↦ none | some i ↦ if i.managed then some i else none ]

abbrev pub held_as : Bool → Option Instance → Option Instance
held_as b none = none
held_as b (some i) = some (record i { op_held = b })

abbrev pub locked_as : Bool → Option Instance → Option Instance
locked_as b none = none
locked_as b (some i) = some (record i { deployment_locked = b })

-- `op.TryLock` and `op.Unlock`, where they succeed
unfoldable pub with_op : Bool → Text → Instances → Instances
with_op b id m j = if j == id then held_as b (m j) else m j

unfoldable pub with_lock : Bool → Text → Instances → Instances
with_lock b id m j = if j == id then locked_as b (m j) else m j

-- `unlockOperations`, over the ids with the last one first
unfoldable pub unlock_operations : List Text → Instances → Instances
unlock_operations [] m = m
unlock_operations (id ∷ ids) m = unlock_operations ids (with_op false id m)

-- The loops that set and reset `deploymentLocked`, over the ids with the last one first.
unfoldable pub set_locked : Bool → List Text → Instances → Instances
set_locked b [] m = m
set_locked b (id ∷ ids) m = with_lock b id (set_locked b ids m)

-- One round of the first loop; `held` are the ids of `items`, with the last one first.
unfoldable pub take_one : List Text → Text → Instances → Instances × Result (List Text)
take_one held id m = elim (find id m) [
  | none ↦ (unlock_operations held m, err instance_not_found)
  | some i ↦
      let m' = with_op true id m in
      if i.op_held
      then (unlock_operations held m, err instance_busy)
      else (if i.deployment_locked || is_moving i.state
          then (unlock_operations (id ∷ held) m', err instance_busy)
          else (m', ok (id ∷ held)))
]

unfoldable pub take_all : List Text → List Text → Instances → Instances × Result (List Text)
take_all held [] m = (m, ok held)
take_all held (id ∷ ids) m =
    let (m', r) = take_one held id m in
    elim r [ err e ↦ (m', err e) | ok held' ↦ take_all held' ids m' ]

-- `ReserveDeployment`: the ids that are reserved now, with the last one first.
unfoldable pub reserve_deployment : List Text → Instances → Instances × Result (List Text)
reserve_deployment ids m =
    let (m', r) = take_all [] (sort_texts ids) m in
    elim r [
      | err e ↦ (m', err e)
      | ok held ↦ (unlock_operations held (set_locked true held m'), ok held)
    ]

-- The function that `ReserveDeployment` returns, once it has got the mutex of each instance.
unfoldable pub release : List Text → Instances → Instances
release held m = set_locked false held m
