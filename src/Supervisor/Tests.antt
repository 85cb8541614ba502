-- ===== src/Supervisor/Tests.antt =====
-- Runs of the reservation at concrete inputs.
use prism_panel.Common.{
  ℕ, ◌≡◌, refl, ◌⊎◌, ◌||◌, true, List, [], ◌∷◌, none, some, if◌then◌else◌, ◌==◌, text_eq, nat_eq,
}
use prism_panel.Common.Text.{Text, codes}
use prism_panel.Firewall.Rules.{insert_text, sort_texts, text_less}
use prism_panel.Common.Int.{ℤ}
use prism_panel.Server.{InstanceConfig, standalone}
use prism_panel.Supervisor.Types.{Instances, running, new_instance}
use prism_panel.Supervisor.Deployment.{
  find, with_op, take_one, take_all, reserve_deployment, release,
}
use prism_panel.Supervisor.Deployment.Reserve.{
  Failed, Reserved, reserve_deployment_outcome, release-reserve_deployment,
}
use prism_panel.Common.{false, ◌+◌, ◌≤◌, ◌++◌, Bool-cases, inl, inr, arith}
use prism_panel.Common.Error.{err, instance_busy}
use prism_panel.Server.{Paths, ServerConfig, normalize, instances}
use prism_panel.Supervisor.Types.{stopped}
use prism_panel.Supervisor.Restart.{restart_window, allowed_restarts}
use prism_panel.Supervisor.Restart.Budget.{within, within-allowed-le}
use prism_panel.Supervisor.Lifecycle.{
  World, Binding, idle, preparing, answers, bind, Event, starts, restarts, prepares, connects,
  exits, stop_ends, step, borrows, retargets, marks, gives_back, server_changer, reserver,
}
use prism_panel.Supervisor.Lifecycle.Invariant.{IsSound, start_world, run, run-IsSound}
use prism_panel.Supervisor.Lifecycle.Race.{IsServing, restart_race}
use prism_panel.Supervisor.Registry.{
  validate_server, check_candidates, check_candidate, check_pairs, apply_server,
}
use prism_panel.Supervisor.Registry.Leak.{AllFree, IsStuck, apply_server_leak}
use prism_panel.Supervisor.Registry.Ports.{Covers, HasOwnPorts, apply_server-HasOwnPorts}

abbrev config : Text → ℕ → InstanceConfig
config id port = record {
  instance_id = id;
  server_id = id;
  slot = 0;
  server_type = standalone;
  platform = codes "paper";
  name = id;
  workspace = codes "/srv";
  port = port;
  process = record {
    start_command = codes "java";
    stop_command = codes "stop";
    stop_timeout_seconds = ℤ.pos 60;
    auto_start = true;
    auto_restart = true;
  };
  encoding = codes "utf-8";
}

-- Two running instances.
abbrev node : Instances
node id =
    if (id == codes "a") || (id == codes "b")
    then some (record (new_instance (config id 25_565)) { state = running })
    else none

abbrev asked : List Text
asked = codes "b" ∷ codes "a" ∷ []

reserve_deployment_outcome_example :
    let r = reserve_deployment asked node in Failed node r ⊎ Reserved asked node r
reserve_deployment_outcome_example = reserve_deployment_outcome asked node

release-reserve_deployment_example :
    release (codes "b" ∷ codes "a" ∷ []) (reserve_deployment asked node).0 (codes "a")
    ≡ node (codes "a")
unfolding reserve_deployment take_all take_one find with_op sort_texts insert_text text_less nat_eq
    text_eq
release-reserve_deployment_example =
    release-reserve_deployment asked (codes "b" ∷ codes "a" ∷ []) node refl (codes "a")

within-allowed-le_example :
    within 0 (allowed_restarts [] (1 ∷ 2 ∷ 3 ∷ 4 ∷ (restart_window + 5) ∷ [])) ≤ 3
within-allowed-le_example =
    within-allowed-le 0 0 (1 ∷ 2 ∷ 3 ∷ 4 ∷ (restart_window + 5) ∷ [])
      (omega arith, (omega arith, (omega arith, (omega arith, (omega arith, tt)))))

-- A server that is changed and starts, is reserved for a deployment, and whose process then dies.
abbrev bound : Binding
bound = record {
  client = record { identity = 7; hello_pid = 100 };
  session_id = codes "s";
  plugin_token = codes "t";
}

abbrev life : List Event
life =
    borrows server_changer
    ∷ retargets (some (config (codes "a") 25_566))
    ∷ gives_back
    ∷ starts
    ∷ prepares none
    ∷ connects bound
    ∷ borrows reserver
    ∷ marks
    ∷ gives_back
    ∷ exits bound.client false none 5
    ∷ starts
    ∷ []

run-IsSound_example : IsSound (run (λ token. token) (start_world (config (codes "a") 25_565)) life)
run-IsSound_example = run-IsSound (λ token. token) (config (codes "a") 25_565) life

abbrev serving : World
serving = record {
  closing = false;
  current = bind (λ token. token) bound (new_instance (config (codes "a") 25_565));
  task = idle;
}

serving-IsServing : IsServing serving bound.client
unfolding bind
serving-IsServing = record {
  open_ = refl;
  known = refl;
  free = refl;
  unlocked = refl;
  serves = refl;
  has_session = refl;
}

restart_race_example :
    let w1 = (step (λ token. token) serving restarts).0 in
    let early = step (λ token. token) w1 (stop_ends true) in
    let noted = (step (λ token. token) w1 (exits bound.client false none 5)).0 in
    (early.1 ≡ answers (err instance_busy))
    × ((step (λ token. token) early.0 (exits bound.client false none 5)).0.current.state ≡ stopped)
    × ((step (λ token. token) noted (stop_ends true)).0.task ≡ preparing)
restart_race_example = restart_race (λ token. token) serving bound.client none 5 serving-IsServing

-- Paths that are left as they are.
abbrev plain : Paths
plain = record {
  is_abs = λ path. true;
  clean = λ path. path;
  join = λ a b. a ++ b;
  lower = λ c. c;
  separator = codes "/";
}

-- The server "a", of one instance, on a new port.
abbrev moved : ServerConfig
moved = record {
  schema_version = 2;
  kind = standalone;
  platform = codes "paper";
  server_id = codes "a";
  name = codes "a";
  workspace = codes "/srv";
  port = 25_570;
  root_path = [];
  image_directory = [];
  instance_count = 0;
  ports = [];
  exclude = [];
  process = (config (codes "a") 25_570).process;
  encoding = codes "utf-8";
}

-- Two instances, the first of them locked for a deployment.
abbrev pinned : Instances
pinned id =
    if id == codes "a"
    then some (record (new_instance (config (codes "a") 25_565)) { deployment_locked = true })
    else (if id == codes "b" then some (new_instance (config (codes "b") 25_566)) else none)

abbrev keys : List Text
keys = codes "a" ∷ codes "b" ∷ []

pinned-AllFree : AllFree pinned
pinned-AllFree j k e = elim (Bool-cases (j == codes "a")) [
  | inl first ↦ ground arith
  | inr other ↦ elim (Bool-cases (j == codes "b")) [
    | inl second ↦ ground arith
    | inr neither ↦ ground arith
  ]
]

apply_server_leak_example :
    let r = apply_server plain 8080 moved keys pinned in
    (r.1 ≡ err instance_busy) × ((j : Text) × IsStuck r.0 j)
unfolding normalize instances validate_server check_candidates check_candidate check_pairs nat_eq
    text_eq
apply_server_leak_example =
    apply_server_leak plain 8080 moved keys pinned (codes "a") pinned-AllFree refl
      (
        record (new_instance (config (codes "a") 25_565)) { deployment_locked = true },
        refl,
        refl,
        refl,
      )
      refl

pinned-Covers : Covers keys pinned
pinned-Covers j i e = ground arith

pinned-HasOwnPorts : HasOwnPorts 8080 pinned
pinned-HasOwnPorts = record {
  apart = λ i j c d e f same. ground arith;
  free = λ i c e. ground arith;
}

apply_server-HasOwnPorts_example : HasOwnPorts 8080 (apply_server plain 8080 moved keys pinned).0
apply_server-HasOwnPorts_example =
    apply_server-HasOwnPorts plain 8080 moved keys pinned pinned-Covers pinned-HasOwnPorts
