-- ===== src/Deployment/Manager/Invariant.antt =====
-- Histories of the deployment manager, for its tables and locks.
use prism_panel.Common.{◌≡◌, refl, false, List, [], ◌∷◌, nat_eq, text_eq, arith}
use prism_panel.Common.Dict.{lookup, tally}
use prism_panel.Deployment.Task.{Kind, mirror_deploy, image_sync_back}
use prism_panel.Deployment.Manager.{Manager}
use prism_panel.Deployment.Manager.Locks.{units}
use prism_panel.Deployment.Manager.Trace.{
  Event, begins, commits, cancels, advances, progresses, mutates, unmutates, step, run, new_manager,
  IsNew, AllNew,
}
use prism_panel.Deployment.Manager.Kept.{
  IsManager, advance-IsManager, cancel-IsManager, progress-IsManager, begin_start-IsManager,
  begin_mutation-IsManager, end_mutation-IsManager, commit_start-IsManager,
}

step-IsManager : (e : Event) (m : Manager) → IsNew e m → IsManager m → IsManager (step e m)
step-IsManager (begins a kind server_id requested) m n w =
    begin_start-IsManager a kind server_id requested m w
step-IsManager (commits index task_id) m n w = commit_start-IsManager index task_id m n w
step-IsManager (cancels id force) m n w = cancel-IsManager id force m w
step-IsManager (advances id answer) m n w = advance-IsManager id answer m w
step-IsManager (progresses id p) m n w = progress-IsManager id p m w
step-IsManager (mutates server_id) m n w = begin_mutation-IsManager server_id m w
step-IsManager (unmutates server_id) m n w = end_mutation-IsManager server_id m w

unheld : (mode : Kind) → units mode (record { readers = 0; writer = false }) ≡ 0
unheld mirror_deploy = refl
unheld image_sync_back = refl

-- The manager as it starts is right.
pub new_manager-IsManager : IsManager new_manager
unfolding lookup tally
new_manager-IsManager = record {
  table = record {
    sound = λ id t h. absurd (ground (arith, h));
    busy = λ id t h n. absurd (ground (arith, h));
    own = λ s id h. absurd (ground (arith, h));
  };
  locks = record { lawful = λ s h. refl; accounts = λ mode s. unheld mode };
}

-- From a manager in which that holds, it holds after any calls, second critical sections, steps of
-- goroutines, copies and image changes in any order, where every new task gets a new id: every task
-- is sound, a server has exactly its one unfinished task under way, and every image lock is held by
-- exactly the tasks, calls and changes that work on the image, and by one alone if exclusively.
pub run-IsManager :
    (es : List Event) (m : Manager) → AllNew es m → IsManager m → IsManager (run es m)
unfolding run
run-IsManager [] m n w = w
run-IsManager (e ∷ es) m (n, ns) w = run-IsManager es (step e m) ns (step-IsManager e m n w)
