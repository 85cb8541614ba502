-- ===== src/Supervisor/Registry.antt =====
-- daemon/internal/supervisor/manager.go: which instances there are. A loop over the map of instances
-- visits its keys in an order that is an argument; the map is a function. Writing the port into the
-- workspace, which only yields warnings, and the events are left out.
pub mod Served
pub mod Checks
pub mod Ports
pub mod Leak
use prism_panel.Common.{
  ℕ, Bool, true, false, ◌&&◌, ◌||◌, not, List, [], ◌∷◌, ◌++◌, map, Option, none, some,
  if◌then◌else◌, ◌==◌, nat_eq, text_eq, contains,
}
use prism_panel.Common.Text.{Text}
use prism_panel.Common.Error.{
  Result, ok, err, ◌>>=◌, ◌>>◌, guard, instance_busy, instance_not_found, invalid_config,
  invalid_state, port_conflict,
}
use prism_panel.Server.{
  validate, Paths, ServerConfig, InstanceConfig, normalize, validate, instances,
}
use prism_panel.Supervisor.Types.{
  Instance, Instances, State, failed, stopped, is_stopped, new_instance,
}
use prism_panel.Supervisor.Deployment.{find, with_op, unlock_operations}

-- One candidate against the instance under one key.
abbrev pub check_against : Text → InstanceConfig → Text → Option Instance → Result (Unit {0})
check_against replacing candidate id none = ok tt
check_against replacing candidate id (some i) =
    if i.cfg.server_id == replacing
    then ok tt
    else (if id == candidate.instance_id
        then err invalid_config
        else (if i.cfg.port == candidate.port then err port_conflict else ok tt))

unfoldable pub check_candidate : Text → InstanceConfig → List Text → Instances → Result (Unit {0})
check_candidate replacing candidate [] m = ok tt
check_candidate replacing candidate (id ∷ ids) m =
    check_against replacing candidate id (m id) >> check_candidate replacing candidate ids m

unfoldable pub check_candidates :
    ℕ → Text → List InstanceConfig → List Text → Instances → Result (Unit {0})
check_candidates daemon_port replacing [] visit m = ok tt
check_candidates daemon_port replacing (c ∷ cs) visit m = do
  guard (not (c.port == daemon_port)) port_conflict
  check_candidate replacing c visit m
  check_candidates daemon_port replacing cs visit m

abbrev pub ports_of : List InstanceConfig → List ℕ
ports_of = map (λ c. c.port)

-- The two nested loops over the candidates.
unfoldable pub check_pairs : List InstanceConfig → Result (Unit {0})
check_pairs [] = ok tt
check_pairs (c ∷ cs) = guard (not (contains (ports_of cs) c.port)) port_conflict >> check_pairs cs

unfoldable pub validate_server :
    ℕ → List InstanceConfig → Text → List Text → Instances → Result (Unit {0})
validate_server daemon_port candidates replacing visit m = do
  check_candidates daemon_port replacing candidates visit m
  check_pairs candidates

-- How the loop that takes the mutexes ends.
pub data Locking : Type 0 where
  all_locked held_back refused : List Text → Locking

-- One round. `held_back` gives the mutexes back and fails; `refused` fails at an instance that is
-- locked for a deployment, and gives none back.
abbrev pub lock_one : Text → List Text → Text → Option Instance → Locking
lock_one server_id locked id none = all_locked locked
lock_one server_id locked id (some i) =
    if not (i.cfg.server_id == server_id)
    then all_locked locked
    else (if i.op_held
        then held_back locked
        else (if i.deployment_locked then refused (id ∷ locked) else all_locked (id ∷ locked)))

unfoldable pub lock_server : Text → List Text → List Text → Instances → Locking
lock_server server_id locked [] m = all_locked locked
lock_server server_id locked (id ∷ ids) m = elim (lock_one server_id locked id (m id)) [
  | all_locked more ↦ lock_server server_id more ids m
  | held_back more ↦ held_back more
  | refused more ↦ refused more
]

-- The instances with the mutexes of these taken.
unfoldable pub with_held : List Text → Instances → Instances
with_held [] m = m
with_held (id ∷ ids) m = with_op true id (with_held ids m)

-- `targets[id]`, where a later instance of the same id counts.
unfoldable pub target : Text → List InstanceConfig → Option InstanceConfig
target id [] = none
target id (c ∷ cs) = elim (target id cs) [
  | some d ↦ some d
  | none ↦ if id == c.instance_id then some c else none
]

-- `m.instances[id]` after both loops: a target is entered or changed, and what is no longer a target
-- is deleted, or left unmanaged until it stops.
abbrev pub retarget : Text → Option InstanceConfig → Option Instance → Option Instance
retarget server_id (some c) none = some (new_instance c)
retarget server_id (some c) (some i) = some (record i { cfg = c; managed = true })
retarget server_id none none = none
retarget server_id none (some i) =
    if not (i.cfg.server_id == server_id)
    then some i
    else (if is_stopped i.state then none else some (record i { managed = false }))

unfoldable pub with_targets : Text → List InstanceConfig → Instances → Instances
with_targets server_id targets m id = retarget server_id (target id targets) (m id)

-- The first loop of `RemoveServer`: is there an instance that holds it up?
unfoldable pub in_use : Text → List Text → Instances → Bool
in_use server_id [] m = false
in_use server_id (id ∷ ids) m = elim (m id) [
  | none ↦ in_use server_id ids m
  | some i ↦
      ((i.cfg.server_id == server_id) && (not (is_stopped i.state) || i.deployment_locked))
      || in_use server_id ids m
]

-- The second loop.
abbrev pub unless_of : Text → Option Instance → Option Instance
unless_of server_id none = none
unless_of server_id (some i) = if i.cfg.server_id == server_id then none else some i

unfoldable pub remove_server : Text → List Text → Instances → Instances × Result (Unit {0})
remove_server server_id visit m =
    if in_use server_id visit m
    then (m, err instance_busy)
    else ((λ id. unless_of server_id (m id)), ok tt)

-- `withFileMutation`, up to the call of `mutate`: the workspace that it is called with.
unfoldable pub with_file_mutation : Text → Bool → Instances → Result Text
with_file_mutation id require_stopped m = elim (find id m) [
  | none ↦ err instance_not_found
  | some i ↦ do
    guard (not i.op_held) instance_busy
    guard (not i.deployment_locked) instance_busy
    guard
        (not (
          require_stopped
          && not (is_stopped i.state)
          && not (elim i.state [ failed ↦ true | _ ↦ false ])))
        invalid_state
    ok i.cfg.workspace
]

-- The rest of `ApplyServer`, with the mutexes as the loop leaves them.
abbrev pub apply_locked :
    Text → List InstanceConfig → Instances → Locking → Instances × Result (Unit {0})
apply_locked server_id targets m (held_back locked) =
    (unlock_operations locked (with_held locked m), err instance_busy)
apply_locked server_id targets m (refused locked) = (with_held locked m, err instance_busy)
apply_locked server_id targets m (all_locked locked) =
    (unlock_operations locked (with_targets server_id targets (with_held locked m)), ok tt)

module _ (fs : Paths) (daemon_port : ℕ) where
  -- `ValidateServer`
  unfoldable pub validate_candidate :
      ServerConfig → Text → List Text → Instances → Result (Unit {0})
  validate_candidate raw replacing visit m =
      let server = normalize fs raw in
      validate fs server >> validate_server daemon_port (instances fs server) replacing visit m

  -- `ApplyServer`, but for the warnings.
  unfoldable pub apply_server : ServerConfig → List Text → Instances → Instances × Result (Unit {0})
  apply_server raw visit m =
      let server = normalize fs raw in
      let targets = instances fs server in
      elim (validate_server daemon_port targets server.server_id visit m) [
        | err e ↦ (m, err e)
        | ok _ ↦ apply_locked server.server_id targets m (lock_server server.server_id [] visit m)
      ]
