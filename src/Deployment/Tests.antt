-- ===== src/Deployment/Tests.antt =====
-- The deployment theorems at work, on a group with two instances.
use prism_panel.Common.{
  ◌≡◌, ◌≢◌, refl, true, false, List, [], ◌∷◌, ◌++◌, none, some, text_eq, nat_eq, arith,
}
use prism_panel.Common.Text.{Text, codes}
use prism_panel.Common.Int.{pos}
use prism_panel.Common.Dict.{lookup, insert, delete}
use prism_panel.Common.Error.{ok, err, internal}
use prism_panel.Server.{ServerConfig, mirror}
use prism_panel.Deployment.Task.{
  mirror_deploy, image_sync_back, ended, Task, new_task, is_finished, go_on_from, launch,
  cancel_task, ask_stop, finish_cancelled,
}
use prism_panel.Deployment.Task.Final.{IsFinal}
use prism_panel.Deployment.Manager.{
  Answers, Manager, with_lock, check_start, begin_start, normalize_slots, sort_slots, commit_first,
  commit_start, advance, cancel,
}
use prism_panel.Deployment.Manager.Locks.{holders}
use prism_panel.Deployment.Manager.Trace.{
  Event, begins, commits, cancels, advances, run, new_manager, AllNew,
}
use prism_panel.Deployment.Manager.Kept.{IsManager}
use prism_panel.Deployment.Manager.Invariant.{new_manager-IsManager, run-IsManager}
use prism_panel.Deployment.Manager.Ends.{task_ends, finished_stays}
use prism_panel.Deployment.Manager.Alone.{IsShut, sync_back_alone}
use prism_panel.Deployment.Swap
use prism_panel.Deployment.Swap.{absent, holding, deploy_files, sync_back}
use prism_panel.Deployment.Swap.Safety.{
  IsKept, at_start, with_files, FailsToEnable, without_bin, failing_enable, exchange_keeps,
  failed_enable_loses_bin,
}

abbrev group : ServerConfig
group = record {
  schema_version = 1;
  kind = mirror;
  platform = [];
  server_id = codes "lobby";
  name = codes "Lobby";
  workspace = [];
  port = 0;
  root_path = codes "/srv/lobby";
  image_directory = codes "image";
  instance_count = 2;
  ports = 25565 ∷ 25566 ∷ [];
  exclude = [];
  process = record {
    start_command = codes "java";
    stop_command = codes "stop";
    stop_timeout_seconds = pos 10;
    auto_start = false;
    auto_restart = false;
  };
  encoding = [];
}

abbrev all_well : Answers
all_well = record {
  found = ok group;
  image_there = true;
  precheck = λ kind targets. ok tt;
  reserves = λ targets. ok tt;
}

abbrev lobby : Text
lobby = codes "lobby"

abbrev task : Text
task = codes "deploy-1"

-- A deployment to both instances.
abbrev deploying_both : List Event
deploying_both = begins all_well mirror_deploy lobby [] ∷ commits 0 task ∷ []

abbrev both : Manager
both = run deploying_both new_manager

both_task : lookup task both.tasks ≡ some (new_task lobby mirror_deploy (1 ∷ 2 ∷ []))
unfolding run begin_start check_start normalize_slots commit_start commit_first with_lock lookup
    insert text_eq
both_task = refl

both_new : AllNew deploying_both new_manager
unfolding begin_start check_start normalize_slots with_lock lookup text_eq
both_new = (tt, (refl, tt))

run-IsManager_example : IsManager both
run-IsManager_example = run-IsManager deploying_both new_manager both_new new_manager-IsManager

-- The second slot fails.
abbrev all_steps : List Event
all_steps =
    advances task none
    ∷ advances task none
    ∷ advances task none
    ∷ advances task none
    ∷ advances task none
    ∷ advances task none
    ∷ advances task none
    ∷ advances task none
    ∷ advances task (some (codes "busy"))
    ∷ advances task none
    ∷ advances task none
    ∷ advances task none
    ∷ advances task none
    ∷ []

abbrev queued_task : Task
queued_task = new_task lobby mirror_deploy (1 ∷ 2 ∷ [])

both-IsManager : IsManager both
both-IsManager = run-IsManager deploying_both new_manager both_new new_manager-IsManager

task_ends_example :
    (u : Task) × (lookup task (run all_steps both).tasks ≡ some u)
    × (u.phase ≡ ended)
    × (is_finished u.status ≡ true)
    × (lookup u.server_id (run all_steps both).active ≢ some task)
unfolding text_eq
task_ends_example =
    task_ends all_steps task queued_task both
      (tt, (tt, (tt, (tt, (tt, (tt, (tt, (tt, (tt, (tt, (tt, (tt, (tt, tt)))))))))))))
      both-IsManager both_task (omega arith)

-- One that is cancelled at once.
abbrev cancelling : List Event
cancelling =
    deploying_both
    ++ (cancels task false ∷ advances task none ∷ advances task none ∷ advances task none ∷ [])

abbrev cancelled_both : Manager
cancelled_both = run cancelling new_manager

abbrev cancelled_task : Task
cancelled_task = finish_cancelled (launch (cancel_task false queued_task))

cancelled_there : lookup task cancelled_both.tasks ≡ some cancelled_task
unfolding run begin_start check_start normalize_slots commit_start commit_first with_lock lookup
    insert delete text_eq advance cancel go_on_from launch cancel_task ask_stop finish_cancelled
cancelled_there = refl

cancelling_new : AllNew cancelling new_manager
unfolding begin_start check_start normalize_slots with_lock lookup text_eq
cancelling_new = (tt, (refl, (tt, (tt, (tt, (tt, tt))))))

cancelled-IsManager : IsManager cancelled_both
cancelled-IsManager = run-IsManager cancelling new_manager cancelling_new new_manager-IsManager

cancelled_finished : is_finished cancelled_task.status ≡ true
unfolding launch cancel_task ask_stop finish_cancelled
cancelled_finished = refl

finished_stays_example :
    (u : Task) × (lookup task (run (cancels task true ∷ all_steps) cancelled_both).tasks ≡ some u)
    × IsFinal cancelled_task u
finished_stays_example =
    finished_stays (cancels task true ∷ all_steps) task cancelled_task cancelled_both
      (tt, (tt, (tt, (tt, (tt, (tt, (tt, (tt, (tt, (tt, (tt, (tt, (tt, (tt, tt))))))))))))))
      cancelled-IsManager cancelled_there cancelled_finished

-- One that syncs the first instance back.
abbrev syncing : List Event
syncing = begins all_well image_sync_back lobby (1 ∷ []) ∷ commits 0 task ∷ []

abbrev sync_task : Task
sync_task = new_task lobby image_sync_back (1 ∷ [])

syncing_there : lookup task (run syncing new_manager).tasks ≡ some sync_task
unfolding run begin_start check_start normalize_slots commit_start commit_first with_lock lookup
    insert text_eq sort_slots nat_eq
syncing_there = refl

syncing_new : AllNew syncing new_manager
unfolding begin_start check_start normalize_slots with_lock lookup text_eq sort_slots nat_eq
syncing_new = (tt, (refl, tt))

sync_back_alone_example :
    (holders image_sync_back lobby (run syncing new_manager) ≡ 1)
    × (holders mirror_deploy lobby (run syncing new_manager) ≡ 0)
    × IsShut lobby (run syncing new_manager)
sync_back_alone_example =
    sync_back_alone task sync_task (run syncing new_manager)
      (run-IsManager syncing new_manager syncing_new new_manager-IsManager) syncing_there refl refl

exchange_keeps_example :
    IsKept
      (failing_enable (codes "new"))
      (with_files (codes "old") (holding (codes "bin")))
      (deploy_files
        (failing_enable (codes "new"))
        (at_start (with_files (codes "old") (holding (codes "bin"))))).0
      (deploy_files
        (failing_enable (codes "new"))
        (at_start (with_files (codes "old") (holding (codes "bin"))))).1
    × IsKept
        (failing_enable (codes "new"))
        (with_files (codes "old") (holding (codes "bin")))
        (sync_back
          (failing_enable (codes "new"))
          (at_start (with_files (codes "old") (holding (codes "bin"))))).0
        (sync_back
          (failing_enable (codes "new"))
          (at_start (with_files (codes "old") (holding (codes "bin"))))).1
exchange_keeps_example =
    exchange_keeps (failing_enable (codes "new")) (with_files (codes "old") (holding (codes "bin")))

-- What is left of the temporary directory cannot be removed.
abbrev stuck : Swap.Answers
stuck = record (failing_enable (codes "new")) {
  temp_left = some (with_files (codes "new") (holding (codes "bin")));
}

stuck-FailsToEnable : FailsToEnable stuck
stuck-FailsToEnable = record {
  in_root = refl;
  makes_temp = refl;
  builds = refl;
  no_bin = refl;
  backs_up = refl;
  reads_bin = refl;
  moves_bin = refl;
  not_enabled = refl;
  restores = refl;
}

failed_enable_loses_bin_example :
    (deploy_files stuck (at_start (with_files (codes "old") (holding (codes "bin"))))
      ≡ (without_bin stuck (codes "old"), err internal))
    × (sync_back stuck (at_start (with_files (codes "old") (holding (codes "bin"))))
        ≡ (without_bin stuck (codes "old"), err internal))
failed_enable_loses_bin_example =
    failed_enable_loses_bin stuck (codes "old") (codes "bin") stuck-FailsToEnable
