-- ===== src/Deployment/Task.antt =====
-- daemon/internal/deployment/manager.go: a task, and the goroutine that works it off. Its phase says
-- where the goroutine stands; each critical section is a step. Messages and times are left out.
pub mod Sound
pub mod Steps
pub mod Final
use prism_panel.Common.{
  ℕ, suc, ◌+◌, ◌-◌, ◌%◌, ◌^◌, Bool, true, false, List, [], ◌∷◌, ◌++◌, Option, none, some, ltb,
  if◌then◌else◌, length, drop,
}
use prism_panel.Common.Text.{Text, codes}
use prism_panel.Server.{instance_id_of}

pub data Status : Type 0 where
  queued running cancel_requested force_stop_requested cancelled force_stopped : Status
  completed completed_with_errors failed : Status

abbrev pub is_finished : Status → Bool
is_finished cancelled = true
is_finished force_stopped = true
is_finished completed = true
is_finished completed_with_errors = true
is_finished failed = true
is_finished _ = false

pub data Kind : Type 0 where
  mirror_deploy image_sync_back : Kind

pub record Log : Type 0 where
  pub sequence : ℕ
  pub level : Text
  pub stage : Text
  pub instance_id : Text

-- Where the goroutine is: not yet running, before the check for the slots that are left, before the
-- note of a slot, in `DeployInstance` for it, behind it with a message or without one, before the
-- count of a slot, in `finishCancelled`, before the deferred release, or at its end.
pub data Phase : Type 0 where
  launched halting releasing ended : Phase
  looping counting : List ℕ → Phase
  entering deploying deployed : ℕ → List ℕ → Phase
  failing : Text → ℕ → List ℕ → Phase

-- `stopped` is `context.Err() != nil`; of the times only whether they are set is kept. Counts of
-- files and bytes stay below 2^63.
pub record Task : Type 0 where
  pub server_id : Text
  pub kind : Kind
  pub targets : List ℕ
  pub status : Status
  pub current_instance : Text
  pub completed_count : ℕ
  pub failed_count : ℕ
  pub copy_stage : Text
  pub copy_files_total : ℕ
  pub copy_files_done : ℕ
  pub copy_bytes_total : ℕ
  pub copy_bytes_done : ℕ
  pub started : Bool
  pub finished : Bool
  pub error : Text
  pub logs : List Log
  pub stopped : Bool
  pub force : Bool
  pub phase : Phase

abbrev pub last_sequence : List Log → ℕ
last_sequence [] = 0
last_sequence (l ∷ ls) = let rest = last_sequence ls in elim ls [ [] ↦ l.sequence | k ∷ ks ↦ rest ]

unfoldable pub push_log : Text → Text → Text → List Log → List Log
push_log level stage instance_id logs =
    let new : Log = record {
      sequence = (last_sequence logs + 1) % 2 ^ 64;
      level = level;
      stage = stage;
      instance_id = instance_id;
    } in
    let more = logs ++ (new ∷ []) in
    if ltb 1000 (length more) then drop (length more - 1000) more else more

-- `appendLogLocked`
abbrev pub append_log : Text → Text → Text → Task → Task
append_log level stage instance_id t = record t { logs = push_log level stage instance_id t.logs }

abbrev pub new_task : Text → Kind → List ℕ → Task
new_task server_id kind targets = append_log (codes "info") (codes "queued") [] (record {
  server_id = server_id;
  kind = kind;
  targets = targets;
  status = queued;
  current_instance = [];
  completed_count = 0;
  failed_count = 0;
  copy_stage = [];
  copy_files_total = 0;
  copy_files_done = 0;
  copy_bytes_total = 0;
  copy_bytes_done = 0;
  started = false;
  finished = false;
  error = [];
  logs = [];
  stopped = false;
  force = false;
  phase = launched;
})

unfoldable pub ask_stop : Bool → Task → Task
ask_stop force t =
    let asked = record t { force = force; stopped = true } in
    if force
    then append_log (codes "warn") (codes "force_stop_requested") t.current_instance
        (record asked { status = force_stop_requested })
    else append_log (codes "warn") (codes "cancel_requested") t.current_instance
        (record asked { status = cancel_requested })

-- `Cancel`, for a task that is there
unfoldable pub cancel_task : Bool → Task → Task
cancel_task force t = if is_finished t.status then t else ask_stop force t

abbrev pub stop_error : Kind → Bool → Text
stop_error mirror_deploy force =
    if force then codes "deployment force stopped" else codes "deployment cancelled"
stop_error image_sync_back force =
    if force then codes "image sync back force stopped" else codes "image sync back cancelled"

-- `finishCancelled`
unfoldable pub finish_cancelled : Task → Task
finish_cancelled t =
    let over = record t {
      current_instance = [];
      finished = true;
      error = stop_error t.kind t.force;
      phase = releasing;
    } in
    if t.force
    then append_log (codes "warn") (codes "force_stopped") []
        (record over { status = force_stopped })
    else append_log (codes "warn") (codes "cancelled") [] (record over { status = cancelled })

-- The last critical section of `run`.
unfoldable pub finish_all : Task → Task
finish_all t =
    let over = record t { current_instance = []; finished = true; phase = releasing } in
    if ltb 0 t.failed_count
    then append_log (codes "warn") (codes "completed") []
        (record over { status = completed_with_errors })
    else append_log (codes "info") (codes "completed") []
        (record over { status = completed; error = [] })

unfoldable pub launch : Task → Task
launch t =
    append_log (codes "info") (codes "prechecking") []
      (record t { status = running; started = true; phase = looping t.targets })

unfoldable pub enter_slot : ℕ → List ℕ → Task → Task
enter_slot slot slots t =
    let id = instance_id_of t.server_id slot in
    append_log (codes "info") (codes "stopping") id (record t {
      current_instance = id;
      copy_stage = codes "preparing";
      copy_files_total = 0;
      copy_files_done = 0;
      copy_bytes_total = 0;
      copy_bytes_done = 0;
      phase = deploying slot slots;
    })

-- After `DeployInstance`, which fails with a message or not; only then the context is looked at.
abbrev pub answer_slot : Option Text → ℕ → List ℕ → Task → Task
answer_slot none slot slots t = record t { phase = deployed slot slots }
answer_slot (some message) slot slots t = record t {
  phase = if t.stopped then halting else failing message slot slots;
}

unfoldable pub note_success : ℕ → List ℕ → Task → Task
note_success slot slots t =
    append_log (codes "info") (codes "completed") (instance_id_of t.server_id slot)
      (record t { phase = counting slots })

unfoldable pub note_failure : Text → ℕ → List ℕ → Task → Task
note_failure message slot slots t =
    append_log (codes "error") (codes "failed") (instance_id_of t.server_id slot)
      (record t { failed_count = suc t.failed_count; error = message; phase = counting slots })

-- The next step of `run` from a phase: a critical section, or a look at the context, which is made
-- without the mutex.
unfoldable pub go_on_from : Phase → Option Text → Task → Task
go_on_from launched answer t = launch t
go_on_from (looping []) answer t = finish_all t
go_on_from (looping (slot ∷ slots)) answer t = record t {
  phase = if t.stopped then halting else entering slot slots;
}
go_on_from (entering slot slots) answer t = enter_slot slot slots t
go_on_from (deploying slot slots) answer t = answer_slot answer slot slots t
go_on_from (deployed slot slots) answer t = note_success slot slots t
go_on_from (failing message slot slots) answer t = note_failure message slot slots t
go_on_from (counting slots) answer t = record t {
  completed_count = suc t.completed_count;
  phase = looping slots;
}
go_on_from halting answer t = finish_cancelled t
go_on_from releasing answer t = record t { phase = ended }
go_on_from ended answer t = t

abbrev pub go_on : Option Text → Task → Task
go_on answer t = go_on_from t.phase answer t

-- `beginCopyProgress`, `setCopyStage`, `advanceCopyProgress` and `log`
pub data Progress : Type 0 where
  begins : Text → ℕ → ℕ → Progress
  stages : Text → Progress
  advances : ℕ → Bool → Progress
  notes : Text → Text → Text → Progress

unfoldable pub note_progress : Progress → Task → Task
note_progress (begins stage files bytes) t = record t {
  copy_stage = stage;
  copy_files_total = files;
  copy_files_done = 0;
  copy_bytes_total = bytes;
  copy_bytes_done = 0;
}
note_progress (stages stage) t = record t { copy_stage = stage }
note_progress (advances bytes file_done) t = record t {
  copy_bytes_done = t.copy_bytes_done + bytes;
  copy_files_done = if file_done then suc t.copy_files_done else t.copy_files_done;
}
note_progress (notes level stage instance_id) t = append_log level stage instance_id t
