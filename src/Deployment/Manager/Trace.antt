-- ===== src/Deployment/Manager/Trace.antt =====
-- Histories of the deployment manager: calls, their second critical sections, steps of the
-- goroutines and changes to images, in any order.
use prism_panel.Common.{ℕ, ◌≡◌, Bool, false, List, [], ◌∷◌, Option, none, text_eq}
use prism_panel.Common.Text.{Text}
use prism_panel.Common.Dict.{lookup}
use prism_panel.Deployment.Task.{Kind, Progress}
use prism_panel.Deployment.Manager.{
  Answers, Manager, begin_start, commit_start, cancel, advance, progress, begin_mutation,
  end_mutation,
}

pub data Event : Type 0 where
  begins : Answers → Kind → Text → List ℕ → Event
  commits : ℕ → Text → Event
  cancels : Text → Bool → Event
  advances : Text → Option Text → Event
  progresses : Text → Progress → Event
  mutates unmutates : Text → Event

abbrev pub step : Event → Manager → Manager
step (begins a kind server_id requested) m = (begin_start a kind server_id requested m).0
step (commits index task_id) m = (commit_start index task_id m).0
step (cancels id force) m = (cancel id force m).0
step (advances id answer) m = advance id answer m
step (progresses id p) m = progress id p m
step (mutates server_id) m = (begin_mutation server_id m).0
step (unmutates server_id) m = end_mutation server_id m

unfoldable pub run : List Event → Manager → Manager
run [] m = m
run (e ∷ es) m = run es (step e m)

-- `NewManager`
abbrev pub new_manager : Manager
new_manager = record {
  tasks = [];
  active = [];
  locks = λ s. record { readers = 0; writer = false };
  pending = [];
  mutating = [];
}

-- The random id of a new task is new.
abbrev pub IsNew : Event → Manager → Type 0
IsNew (commits index task_id) m = lookup task_id m.tasks ≡ none
IsNew _ m = Unit

abbrev pub AllNew : List Event → Manager → Type 0
AllNew [] m = Unit
AllNew (e ∷ es) m = IsNew e m × AllNew es (step e m)
