-- ===== src/Supervisor/Lifecycle.antt =====
-- daemon/internal/supervisor: lifecycle.go, deployment.go, session_recover.go and session_detach.go,
-- for one instance. An operation holds the mutex `op` from its start to its answer and waits in
-- between, while the goroutine that waits for the session and the shutdown go on: so an operation is
-- the events at which it goes on, and a task says where it waits. The functions of manager.go and
-- deployment_lock.go that take `op` are events too. State events, console lines and the plugin's
-- reports are left out, and what a deployment answers is the answer of the start that it ends with,
-- if any.
pub mod Invariant
pub mod Race
use prism_panel.Common.{
  ℕ, suc, ◌+◌, Bool, true, false, ◌&&◌, ◌||◌, not, List, [], ◌∷◌, Option, none, some, ltb,
  if◌then◌else◌, ◌==◌, nat_eq, text_eq,
}
use prism_panel.Common.Text.{Text, codes}
use prism_panel.Common.Error.{
  ErrorCode, Result, ok, err, instance_not_found, instance_busy, invalid_state,
  plugin_operation_failed, process_start_failed, process_stop_failed,
}
use prism_panel.Supervisor.Types.{
  State, stopped, starting, running, stopping, deploying, failed, is_running, is_switching,
  is_moving, is_stopped, is_failed, Client, Instance,
}
use prism_panel.Server.{InstanceConfig}
use prism_panel.Supervisor.Restart.{allow_auto_restart}

-- What `stopLocked` is called for.
pub data After : Type 0 where
  returns then_starts then_deploys : After

-- The other functions that take `op`: `ApplyServer`, `ReserveDeployment`, the function that it
-- returns, and `withFileMutation`, which asks for a stopped instance or not.
pub data Borrower : Type 0 where
  server_changer reserver releaser : Borrower
  file_changer : Bool → Borrower

-- Where the holder of `op` waits: for `beforeStart`, for `ensureSession`, for the end of a session,
-- or for the files of a deployment, of an instance that was running or not. `lent` is `op` in another
-- function, `lost` where such a function has returned without giving it back.
pub data Task : Type 0 where
  idle preparing connecting lost : Task
  lent : Borrower → Task
  awaiting : Client → After → Task
  applying : Bool → Task

pub record World : Type 0 where
  pub closing : Bool
  pub current : Instance
  pub task : Task

pub data Answer : Type 0 where
  silent schedules_restart : Answer
  deployment_fails : Text → Answer
  answers : Result (Unit {0}) → Answer

-- `sessionBinding`
pub record Binding : Type 0 where
  pub client : Client
  pub session_id : Text
  pub plugin_token : Text

abbrev pub same_client : Option Client → Client → Bool
same_client none c = false
same_client (some d) c = d.identity == c.identity

-- The operation is over, and `op` is free.
abbrev pub finish_with : World → Answer → World × Answer
finish_with w a = (record w { current = record w.current { op_held = false }; task = idle }, a)

abbrev pub finish : World → Result (Unit {0}) → World × Answer
finish w r = finish_with w (answers r)

-- `startLocked`, up to `beforeStart`.
unfoldable pub begin_start : World → World × Answer
begin_start w =
    if w.closing
    then finish w (err invalid_state)
    else (if is_running w.current.state
        then finish w (ok tt)
        else (if is_switching w.current.state
            then finish w (err instance_busy)
            else (record w { task = preparing }, silent)))

abbrev pub mark_start_failed : Text → Instance → Instance
mark_start_failed message i = record i { state = failed; last_error = message }

unfoldable pub prepared : Option Text → World → World × Answer
prepared (some message) w =
    finish (record w { current = mark_start_failed message w.current })
      (err plugin_operation_failed)
prepared none w = (
  record w { current = record w.current { state = starting; last_error = [] }; task = connecting },
  silent,
)

-- The critical section that binds a session.
unfoldable pub bind : (Text → Text) → Binding → Instance → Instance
bind digest b i = record i {
  session = some b.client;
  expected_exit = false;
  session_id = b.session_id;
  pid = b.client.hello_pid;
  runtime_port = some i.cfg.port;
  runtime_encoding = i.cfg.encoding;
  plugin_token = some (digest b.plugin_token);
  plugin_generation = suc i.plugin_generation;
  plugin_connected = false;
  plugin_pending_restart = false;
  plugin_runtime_mismatch = false;
  plugin_files_changed = false;
  state = running;
}

-- `RecoverSessions`, for one session that could be attached to.
unfoldable pub recover : (Text → Text) → Binding → Instance → Instance
recover digest b i = record i {
  session = some b.client;
  expected_exit = false;
  session_id = b.session_id;
  pid = b.client.hello_pid;
  runtime_port = some i.cfg.port;
  runtime_encoding = i.cfg.encoding;
  plugin_token = if b.plugin_token == [] then i.plugin_token else some (digest b.plugin_token);
  plugin_generation = suc i.plugin_generation;
  plugin_connected = false;
  state = running;
  last_error = [];
}

-- `stopLocked` returns, with no error.
unfoldable pub go_on : After → World → World × Answer
go_on returns w = finish w (ok tt)
go_on then_starts w = begin_start w
go_on then_deploys w = (
  record w {
    current = record w.current { state = deploying; last_error = [] };
    task = applying true;
  },
  silent,
)

abbrev pub stop_session : Option Client → After → World → World × Answer
stop_session none after w =
    go_on after (record w { current = record w.current { state = stopped; last_error = [] } })
stop_session (some c) after w = (
  record w {
    current = record w.current { state = stopping; expected_exit = true };
    task = awaiting c after;
  },
  silent,
)

-- `stopLocked`, up to the end of the session; `Kill` has the same lines.
unfoldable pub begin_stop : After → World → World × Answer
begin_stop after w = stop_session w.current.session after w

-- The first lines of an operation: `lookup`, `op.TryLock` and, but for a deployment,
-- `deploymentLockError`.
unfoldable pub enter : Bool → World → (World → World × Answer) → World × Answer
enter checks_lock w operation =
    if not w.current.managed
    then (w, answers (err instance_not_found))
    else (if w.current.op_held || (checks_lock && w.current.deployment_locked)
        then (w, answers (err instance_busy))
        else operation (record w { current = record w.current { op_held = true } }))

abbrev pub lend : Borrower → World → World
lend b w = record w { current = record w.current { op_held = true }; task = lent b }

-- How the other functions take `op`. `ApplyServer` returns with it if it finds the instance locked
-- for a deployment; the function that releases a reservation waits for it.
abbrev pub enter_change : World → World × Answer
enter_change w =
    if w.current.op_held
    then (w, answers (err instance_busy))
    else (if w.current.deployment_locked
        then (record (lend server_changer w) { task = lost }, answers (err instance_busy))
        else (lend server_changer w, silent))

abbrev pub enter_reservation : World → World × Answer
enter_reservation w = enter false w (λ taken.
    if taken.current.deployment_locked || is_moving taken.current.state
    then finish taken (err instance_busy)
    else (lend reserver taken, silent))

abbrev pub enter_release : World → World × Answer
enter_release w = if w.current.op_held then (w, silent) else (lend releaser w, silent)

abbrev pub enter_mutation : Bool → World → World × Answer
enter_mutation requires_stopped w = enter true w (λ taken.
    if requires_stopped && not (is_stopped taken.current.state || is_failed taken.current.state)
    then finish taken (err invalid_state)
    else (lend (file_changer requires_stopped) taken, silent))

unfoldable pub borrow : Borrower → World → World × Answer
borrow server_changer w = enter_change w
borrow reserver w = enter_reservation w
borrow releaser w = enter_release w
borrow (file_changer requires_stopped) w = enter_mutation requires_stopped w

-- What `ApplyServer` writes: the new configuration, or none for an instance that is no target, which
-- it takes out of its table, with no change to it, if it is stopped.
abbrev pub retargeted : Option InstanceConfig → Instance → Instance
retargeted (some cfg) i = record i { cfg = cfg; managed = true }
retargeted none i = record i { managed = if is_stopped i.state then i.managed else false }

abbrev pub is_some : Option Client → Bool
is_some none = false
is_some (some c) = true

-- `DeployInstance`, up to the files.
unfoldable pub begin_deploy : World → World × Answer
begin_deploy w =
    if is_moving w.current.state
    then finish w (err instance_busy)
    else (if is_some w.current.session && is_running w.current.state
        then begin_stop then_deploys w
        else (
          record w {
            current = record w.current { state = deploying; last_error = [] };
            task = applying false;
          },
          silent,
        ))

abbrev pub applied : Option Text → Bool → Instance → Instance
applied none cancelled i = record i { state = stopped; last_error = [] }
applied (some message) cancelled i =
    if cancelled
    then record i { state = stopped; last_error = [] }
    else record i { state = failed; last_error = message }

abbrev pub deploy_answer : Option Text → Answer
deploy_answer none = answers (ok tt)
deploy_answer (some message) = deployment_fails message

-- The rest of `DeployInstance`.
unfoldable pub end_deploy : Bool → Option Text → Bool → Bool → World → World × Answer
end_deploy was_running failure cancelled restores w =
    let w' = record w { current = applied failure cancelled w.current } in
    if was_running && restores then begin_start w' else finish_with w' (deploy_answer failure)

abbrev pub limit_reached : Text
limit_reached = codes "automatic restart limit reached"

abbrev pub or_unexpected : Option Text → Text
or_unexpected none = codes "process exited unexpectedly"
or_unexpected (some message) = message

-- The critical section of `waitSession`, once it is sure that this is the session of the instance.
unfoldable pub end_session : Option Text → ℕ → Instance → Instance × Answer
end_session message now i =
    let ended = record i {
      session = none;
      pid = 0;
      runtime_port = none;
      runtime_encoding = [];
      plugin_token = none;
      plugin_generation = suc i.plugin_generation;
      plugin_connected = false;
      state = if i.expected_exit then stopped else failed;
      last_error = if i.expected_exit then [] else or_unexpected message;
    } in
    let (kept, allowed) = allow_auto_restart i.restarts now in
    if i.expected_exit || not (i.managed && i.cfg.process.auto_restart)
    then (ended, silent)
    else (if allowed
        then (record ended { restarts = kept }, schedules_restart)
        else (record ended { restarts = kept; last_error = limit_reached }, silent))

-- `waitSession` after the end of a session; `detached` says how it ended.
unfoldable pub wait_session : Client → Bool → Option Text → ℕ → World → World × Answer
wait_session c detached message now w =
    if not (same_client w.current.session c) || detached
    then (w, silent)
    else (let (i, a) = end_session message now w.current in (record w { current = i }, a))

-- The calls, and the events at which they go on. `connects` has the error of `ensureSession`, or the
-- session; `stop_ends` says whether the session ended in time. The last four are of the functions
-- that borrow `op`: they take it, write a configuration or the mark of a deployment, and give it back.
pub data Event : Type 0 where
  starts stops kills restarts deploys detaches : Event
  prepares : Option Text → Event
  refuses : Text → Event
  connects : Binding → Event
  stop_ends : Bool → Event
  applies : Option Text → Bool → Bool → Event
  exits : Client → Bool → Option Text → ℕ → Event
  recovers : Binding → Event
  borrows : Borrower → Event
  retargets : Option InstanceConfig → Event
  marks gives_back : Event

module _ (digest : Text → Text) where
  -- How the holder of `op` goes on; an event that it does not wait for changes nothing.
  unfoldable pub resume : Task → Event → World → World × Answer
  resume preparing (prepares r) w = prepared r w
  resume connecting (refuses message) w =
      finish (record w { current = mark_start_failed message w.current }) (err process_start_failed)
  resume connecting (connects b) w = finish (record w { current = bind digest b w.current }) (ok tt)
  resume (awaiting c after) (stop_ends in_time) w =
      if in_time then go_on after w else finish w (err process_stop_failed)
  resume (applying was_running) (applies failure cancelled restores) w =
      end_deploy was_running failure cancelled restores w
  resume (lent server_changer) (retargets target) w =
      (record w { current = retargeted target w.current }, silent)
  resume (lent reserver) marks w =
      (record w { current = record w.current { deployment_locked = true } }, silent)
  resume (lent releaser) marks w =
      (record w { current = record w.current { deployment_locked = false } }, silent)
  resume (lent b) gives_back w = finish_with w silent
  resume _ _ w = (w, silent)

  unfoldable pub step : World → Event → World × Answer
  step w starts = enter true w begin_start
  step w stops = enter true w (begin_stop returns)
  step w kills = enter true w (begin_stop returns)
  step w restarts = enter true w (begin_stop then_starts)
  step w deploys = enter false w begin_deploy
  step w detaches =
      (record w { closing = true; current = record w.current { session = none } }, silent)
  step w (exits c detached message now) = wait_session c detached message now w
  step w (recovers b) = (record w { current = recover digest b w.current }, silent)
  step w (prepares r) = resume w.task (prepares r) w
  step w (refuses message) = resume w.task (refuses message) w
  step w (connects b) = resume w.task (connects b) w
  step w (stop_ends in_time) = resume w.task (stop_ends in_time) w
  step w (applies failure cancelled restores) = resume w.task (applies failure cancelled restores) w
  step w (borrows b) = borrow b w
  step w (retargets target) = resume w.task (retargets target) w
  step w marks = resume w.task marks w
  step w gives_back = resume w.task gives_back w
