-- ===== src/Schedule/Task.antt =====
-- panel/internal/schedule/service.go: the checks on a new task, and the round of the loop that runs
-- tasks. The answers of the store are arguments; an error of the store is internal.
pub mod Targets
pub mod Prepared
pub mod Due
use prism_panel.Common.{
  ℕ, ◌+◌, ◌-◌, Bool, true, false, ◌||◌, ◌&&◌, ◌*◌, not, List, [], ◌∷◌, ◌++◌, Option, none, some,
  ltb, leb, if◌then◌else◌, ◌==◌, nat_eq, text_eq, contains, length,
}
use prism_panel.Common.Text.{Text, codes, trim_space}
use prism_panel.Common.Error.{Result, ok, err, ◌>>=◌, ◌>>◌, guard, invalid_config, internal}
use prism_panel.Schedule.Command.{command_allowed}
use prism_panel.Schedule.Spec.{
  Calendar, a_second, since, normalize_timezone, normalize_config, first_run, next_after,
}

-- `ScheduledTaskTarget`
pub record Target : Type 0 where
  pub node_id : Text
  pub node_name : Text
  pub server_id : Text
  pub instance_id : Text
  pub instance_name : Text

pub record TaskInput : Type 0 where
  pub name : Text
  pub enabled : Bool
  pub schedule_type : Text
  pub schedule : Text
  pub timezone : Text
  pub action_type : Text
  pub action_payload : Text
  pub targets : List Target

-- `ScheduledTask`, without its id, its runs and its author
pub record ScheduledTask : Type 0 where
  pub name : Text
  pub enabled : Bool
  pub schedule_type : Text
  pub schedule_config : Text
  pub timezone : Text
  pub action_type : Text
  pub action_payload : Text
  pub next_run_at : Option ℕ
  pub targets : List Target

abbrev pub action_permission : Text → Text
action_permission action =
    if action == codes "start"
    then codes "instance.start"
    else (if action == codes "stop"
        then codes "instance.stop"
        else (if action == codes "restart"
            then codes "instance.restart"
            else (if action == codes "kill"
                then codes "instance.kill"
                else (if action == codes "command" then codes "console.command" else []))))

abbrev pub is_set : Text → Bool
is_set value = not (value == [])

abbrev pub trimmed : Target → Target
trimmed t = record t {
  node_id = trim_space t.node_id;
  server_id = trim_space t.server_id;
  instance_id = trim_space t.instance_id;
  instance_name = trim_space t.instance_name;
}

abbrev pub target_key : Target → Text
target_key t = t.node_id ++ 0 ∷ t.instance_id

abbrev pub named : Text → Target → Target
named node t = record t {
  node_name = node;
  instance_name = if t.instance_name == [] then t.instance_id else t.instance_name;
}

-- The payload of an action.
unfoldable pub payload_of : (ℕ → ℕ) → Bool → Text → Text → Result Text
payload_of lower manage_operators action payload =
    if action == codes "command"
    then guard (not (payload == [] || ltb 2000 (length payload))) invalid_config
      >> guard (command_allowed lower payload manage_operators) invalid_config
      >> ok payload
    else ok []

abbrev pub task_of : TaskInput → Text → Text → ℕ → Text → List Target → ScheduledTask
task_of input timezone config next payload targets = record {
  name = trim_space input.name;
  enabled = input.enabled;
  schedule_type = input.schedule_type;
  schedule_config = config;
  timezone = timezone;
  action_type = trim_space input.action_type;
  action_payload = payload;
  next_run_at = if input.enabled then some next else none;
  targets = targets;
}

module _ (get_node : Text → Result (Option Text)) where
  -- The name of a node; `none` stands for `ErrNotFound`.
  unfoldable pub node_name_of : Text → Result Text
  node_name_of id = elim (get_node id) [
    | err e ↦ err internal
    | ok found ↦ elim found [ none ↦ err invalid_config | some name ↦ ok name ]
  ]

  -- The loop of `normalizeTargets`; `seen` are the keys so far.
  unfoldable pub collect_targets : List Text → List Target → Result (List Target)
  collect_targets seen [] = ok []
  collect_targets seen (t ∷ ts) =
      let item = trimmed t in
      let complete = is_set item.node_id && is_set item.server_id && is_set item.instance_id in
      let skipped = collect_targets seen ts in
      let entered = node_name_of item.node_id >>= λ name.
      collect_targets (target_key item ∷ seen) ts >>= λ rest. ok (named name item ∷ rest) in
      guard complete invalid_config
      >> (if contains seen (target_key item) then skipped else entered)

  unfoldable pub normalize_targets : List Target → Result (List Target)
  normalize_targets targets =
      guard (not (length targets == 0 || ltb 200 (length targets))) invalid_config
      >> collect_targets [] targets

  unfoldable pub prepare_task : Calendar → (ℕ → ℕ) → Bool → TaskInput → ℕ → Result ScheduledTask
  prepare_task cal lower manage_operators input now = do
    guard (not (trim_space input.name == [] || ltb 100 (length (trim_space input.name))))
        invalid_config
    timezone ← normalize_timezone cal input.timezone
    config ← normalize_config cal input.schedule_type input.schedule
    next ← first_run cal input.schedule_type config timezone now
    guard (is_set (action_permission (trim_space input.action_type))) invalid_config
    payload ←
        payload_of lower manage_operators (trim_space input.action_type)
          (trim_space input.action_payload)
    targets ← normalize_targets input.targets
    ok (task_of input timezone config next payload targets)

-- A task of the store.
pub record DueTask : Type 0 where
  pub id : Text
  pub task : ScheduledTask

-- The arguments of `ClaimScheduledTask`.
pub record Claim : Type 0 where
  pub task_id : Text
  pub scheduled_for : ℕ
  pub next_run : Option ℕ
  pub missed : Bool

-- 30 seconds
abbrev pub missed_grace_period : ℕ
missed_grace_period = 30 * a_second

-- One round of `processDue`, up to the claim.
unfoldable pub claim_of : Calendar → ℕ → Text → ScheduledTask → ℕ → Claim
claim_of cal now id task scheduled =
    let next = next_after cal task.schedule_type task.schedule_config task.timezone scheduled now in
    let missed = ltb missed_grace_period (since scheduled now) in
    elim next [
      | err e ↦ record { task_id = id; scheduled_for = scheduled; next_run = none; missed = true }
      | ok run ↦ record { task_id = id; scheduled_for = scheduled; next_run = run; missed = missed }
    ]

-- The rest of the round. The store answers a claim with the id of a run and whether it was claimed.
abbrev pub enter_claim :
    Claim → Result (Text × Bool) → List Claim × List Text → List Claim × List Text
enter_claim claim (err e) (claims, runs) = (claim ∷ claims, runs)
enter_claim claim (ok answer) (claims, runs) =
    (claim ∷ claims, if answer.1 && not claim.missed then answer.0 ∷ runs else runs)

abbrev pub process_one :
    Calendar
    → (Claim → Result (Text × Bool))
    → ℕ
    → Text
    → ScheduledTask
    → Option ℕ
    → List Claim × List Text
    → List Claim × List Text
process_one cal store now id task none rest = rest
process_one cal store now id task (some scheduled) rest =
    let claim = claim_of cal now id task scheduled in enter_claim claim (store claim) rest

-- The claims of `processDue`, and the runs that it starts.
unfoldable pub process_due :
    Calendar → (Claim → Result (Text × Bool)) → ℕ → List DueTask → List Claim × List Text
process_due cal store now [] = ([], [])
process_due cal store now (t ∷ ts) =
    process_one cal store now t.id t.task t.task.next_run_at (process_due cal store now ts)
