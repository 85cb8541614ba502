-- ===== src/Supervisor/Lifecycle/Invariant.antt =====
-- What holds of an instance whatever calls, exits and shutdowns come, in whatever order.
use prism_panel.Common.{
  ℕ, ◌≤◌, ◌≡◌, refl, inl, inr, Bool, true, false, not, List, [], ◌∷◌, Option, none, some, length,
  arith, Bool-cases, if_both, ◌∙◌, ◌&&◌, ◌||◌,
}
use prism_panel.Common.Text.{Text}
use prism_panel.Common.Error.{err, instance_busy, process_stop_failed, invalid_state}
use prism_panel.Supervisor.Types.{
  State, stopped, starting, stopping, is_running, is_moving, is_stopped, is_failed, Client,
  Instance, new_instance,
}
use prism_panel.Server.{InstanceConfig}
use prism_panel.Supervisor.Restart.Budget.{length-allow}
use prism_panel.Supervisor.Lifecycle.{
  After, returns, then_starts, then_deploys, Task, idle, preparing, connecting, awaiting, applying,
  World, Answer, answers, Binding, same_client, finish_with, begin_start, prepared, bind, recover,
  go_on, begin_stop, stop_session, enter, is_some, begin_deploy, applied, end_deploy, deploy_answer,
  end_session, wait_session, Event, starts, stops, restarts, deploys, detaches, prepares, refuses,
  connects, stop_ends, applies, exits, recovers, resume, step, kills, Borrower, server_changer,
  reserver, releaser, file_changer, lent, lend, borrow, retargets, marks, gives_back, borrows,
  silent,
}

abbrev pub is_starting : State → Bool
is_starting s = elim s [ starting ↦ true | _ ↦ false ]

abbrev pub is_stopping : State → Bool
is_stopping s = elim s [ stopping ↦ true | _ ↦ false ]

abbrev pub is_idle : Task → Bool
is_idle t = elim t [ idle ↦ true | _ ↦ false ]

abbrev pub is_connecting : Task → Bool
is_connecting t = elim t [ connecting ↦ true | _ ↦ false ]

-- Nothing of a process is left.
abbrev pub IsCleared : Instance → Type 0
IsCleared i = (i.pid ≡ 0) × (i.runtime_port ≡ none) × (i.plugin_token ≡ none)

-- Until the shutdown a running or stopping instance has a session, a stopping one expects its exit,
-- and one without a session keeps neither a process, a port nor a token.
pub record IsLive (closing : Bool) (i : Instance) : Type 0 where
  pub running_lives : closing ≡ false → is_running i.state ≡ true → is_some i.session ≡ true
  pub stopping_lives : closing ≡ false → is_stopping i.state ≡ true → is_some i.session ≡ true
  pub stopping_expects : is_stopping i.state ≡ true → i.expected_exit ≡ true
  pub cleared : closing ≡ false → is_some i.session ≡ false → IsCleared i
  pub few_restarts : length i.restarts ≤ 3

-- The mutex is held exactly while an operation waits or another function has it, or has lost it, and
-- an instance is starting only while an operation waits for its session.
pub record IsSound (w : World) : Type 0 where
  pub live : IsLive w.closing w.current
  pub held : w.current.op_held ≡ not (is_idle w.task)
  pub starting_waits : is_starting w.current.state ≡ true → is_connecting w.task ≡ true

abbrev pub start_world : InstanceConfig → World
start_world cfg = record { closing = false; current = new_instance cfg; task = idle }

start_world-IsSound : (cfg : InstanceConfig) → IsSound (start_world cfg)
start_world-IsSound cfg = ground arith

abbrev IsSoundAfter : World × Answer → Type 0
IsSoundAfter r = IsSound r.0

-- Within an operation, between its waits.
abbrev IsReady : World → Type 0
IsReady w =
    IsLive w.closing w.current × (w.current.op_held ≡ true) × (is_starting w.current.state ≡ false)

begin_start-IsSound : (w : World) → IsReady w → IsSound (begin_start w).0
unfolding begin_start
begin_start-IsSound w (v, h, n) = ground arith

prepared-IsSound : (r : Option Text) (w : World) → IsReady w → IsSound (prepared r w).0
unfolding prepared
prepared-IsSound none w (v, h, n) = ground arith
prepared-IsSound (some m) w (v, h, n) = ground arith

bind-IsLive :
    (digest : Text → Text) (closing : Bool) (b : Binding) (i : Instance)
    → IsLive closing i
    → IsLive closing (bind digest b i)
unfolding bind
bind-IsLive digest closing b i v = ground arith

recover-IsLive :
    (digest : Text → Text) (closing : Bool) (b : Binding) (i : Instance)
    → IsLive closing i
    → IsLive closing (recover digest b i)
unfolding recover
recover-IsLive digest closing b i v = ground arith

go_on-IsSound : (after : After) (w : World) → IsReady w → IsSound (go_on after w).0
unfolding go_on
go_on-IsSound returns w (v, h, n) = ground arith
go_on-IsSound then_starts w r = begin_start-IsSound w r
go_on-IsSound then_deploys w (v, h, n) = ground arith

stop_session-IsSound :
    (found : Option Client) (after : After) (w : World)
    → w.current.session ≡ found
    → IsReady w
    → IsSound (stop_session found after w).0
stop_session-IsSound none after w e (v, h, n) =
    go_on-IsSound after
      (record w { current = record w.current { state = stopped; last_error = [] } }) (ground arith)
stop_session-IsSound (some c) after w e (v, h, n) = ground arith

begin_stop-IsSound : (after : After) (w : World) → IsReady w → IsSound (begin_stop after w).0
unfolding begin_stop
begin_stop-IsSound after w r = stop_session-IsSound w.current.session after w refl r

end_session-IsLive :
    (message : Option Text) (now : ℕ) (closing : Bool) (i : Instance)
    → IsLive closing i
    → IsLive closing (end_session message now i).0
unfolding end_session
end_session-IsLive message now closing i v =
    ground (arith, length-allow i.restarts now v.few_restarts)

end_session-calm :
    (message : Option Text) (now : ℕ) (i : Instance)
    → ((end_session message now i).0.op_held ≡ i.op_held)
      × (is_starting (end_session message now i).0.state ≡ false)
unfolding end_session
end_session-calm message now i = ground arith

wait_session-IsSound :
    (c : Client) (detached : Bool) (message : Option Text) (now : ℕ) (w : World)
    → IsSound w
    → IsSound (wait_session c detached message now w).0
unfolding wait_session
wait_session-IsSound c detached message now w v =
    if_both IsSoundAfter (not (same_client w.current.session c) || detached) _ _ v (
      let (h, n) = end_session-calm message now w.current in
      record {
        live = end_session-IsLive message now w.closing w.current v.live;
        held = h ∙ v.held;
        starting_waits = λ e. cc;
      })

applied-IsLive :
    (failure : Option Text) (cancelled closing : Bool) (i : Instance)
    → IsLive closing i
    → IsLive closing (applied failure cancelled i)
applied-IsLive none cancelled closing i v = ground arith
applied-IsLive (some m) cancelled closing i v = ground arith

applied-calm :
    (failure : Option Text) (cancelled : Bool) (i : Instance)
    → ((applied failure cancelled i).op_held ≡ i.op_held)
      × (is_starting (applied failure cancelled i).state ≡ false)
applied-calm none cancelled i = (refl, refl)
applied-calm (some m) cancelled i = ground arith

finish_with-IsSound : (w : World) (a : Answer) → IsReady w → IsSound (finish_with w a).0
finish_with-IsSound w a (v, h, n) = ground arith

end_deploy-IsSound :
    (was_running : Bool) (failure : Option Text) (cancelled restores : Bool) (w : World)
    → IsReady w
    → IsSound (end_deploy was_running failure cancelled restores w).0
unfolding end_deploy
end_deploy-IsSound was_running failure cancelled restores w (v, h, n) =
    let w' : World = record w { current = applied failure cancelled w.current } in
    let (h', n') = applied-calm failure cancelled w.current in
    let r : IsReady w' = (applied-IsLive failure cancelled w.closing w.current v, h' ∙ h, n') in
    if_both IsSoundAfter (was_running && restores) (begin_start w')
      (finish_with w' (deploy_answer failure)) (begin_start-IsSound w' r)
      (finish_with-IsSound w' (deploy_answer failure) r)

begin_deploy-IsSound : (w : World) → IsReady w → IsSound (begin_deploy w).0
unfolding begin_deploy
begin_deploy-IsSound w (v, h, n) =
    if_both IsSoundAfter (is_moving w.current.state) _ _
      (finish_with-IsSound w (answers (err instance_busy)) (v, h, n))
      (if_both IsSoundAfter (is_some w.current.session && is_running w.current.state) _ _
        (begin_stop-IsSound then_deploys w (v, h, n)) (ground arith))

enter-IsSound :
    (checks_lock : Bool) (w : World) (operation : World → World × Answer)
    → ((w' : World) → IsReady w' → IsSound (operation w').0)
    → IsSound w
    → IsSound (enter checks_lock w operation).0
unfolding enter
enter-IsSound checks_lock w operation keeps v =
    if_both IsSoundAfter (not w.current.managed) _ _ v
      (elim (Bool-cases (w.current.op_held || (checks_lock && w.current.deployment_locked))) [
        | inl busy ↦ rw busy v
        | inr free ↦ rw free (keeps _ (ground arith))
      ])

lend-IsSound : (b : Borrower) (w : World) → IsReady w → IsSound (lend b w)
lend-IsSound b w (v, h, n) = ground arith

borrow-IsSound : (b : Borrower) (w : World) → IsSound w → IsSound (borrow b w).0
unfolding borrow
borrow-IsSound server_changer w v = ground arith
borrow-IsSound reserver w v =
    enter-IsSound false w _
      (λ taken r.
        if_both IsSoundAfter (taken.current.deployment_locked || is_moving taken.current.state) _ _
          (finish_with-IsSound taken (answers (err instance_busy)) r)
          (lend-IsSound reserver taken r))
      v
borrow-IsSound releaser w v = ground arith
borrow-IsSound (file_changer stopped_only) w v =
    enter-IsSound true w _
      (λ taken r.
        if_both IsSoundAfter
          (stopped_only && not (is_stopped taken.current.state || is_failed taken.current.state)) _
          _ (finish_with-IsSound taken (answers (err invalid_state)) r)
          (lend-IsSound (file_changer stopped_only) taken r))
      v

-- A waiting operation that is not about to be connected has no starting instance.
ready : (w : World) → IsSound w → is_idle w.task ≡ false → is_connecting w.task ≡ false → IsReady w
ready w v busy other = ground arith

module _ (digest : Text → Text) where
  resume-IsSound :
      (t : Task) (e : Event) (w : World) → w.task ≡ t → IsSound w → IsSound (resume digest t e w).0
  unfolding resume
  resume-IsSound preparing (prepares r) w t v =
      prepared-IsSound r w (ready w v (rw t refl) (rw t refl))
  resume-IsSound connecting (refuses message) w t v = ground arith
  resume-IsSound connecting (connects b) w t v =
      (let live = bind-IsLive digest w.closing b w.current v.live in unfold bind in ground arith)
  resume-IsSound (awaiting c after) (stop_ends in_time) w t v =
      let r : IsReady w = ready w v (rw t refl) (rw t refl) in
      if_both IsSoundAfter in_time (go_on after w) _ (go_on-IsSound after w r)
        (finish_with-IsSound w (answers (err process_stop_failed)) r)
  resume-IsSound (applying was_running) (applies failure cancelled restores) w t v =
      end_deploy-IsSound was_running failure cancelled restores w
        (ready w v (rw t refl) (rw t refl))
  resume-IsSound (lent server_changer) (retargets (some cfg)) w t v = ground arith
  resume-IsSound (lent server_changer) (retargets none) w t v = ground arith
  resume-IsSound (lent reserver) marks w t v = ground arith
  resume-IsSound (lent releaser) marks w t v = ground arith
  resume-IsSound (lent b) gives_back w t v =
      finish_with-IsSound w silent (ready w v (rw t refl) (rw t refl))
  resume-IsSound _ _ w t v = v

  -- Whatever calls come, and whatever session ends meanwhile, `IsSound` is kept.
  step-IsSound : (w : World) (e : Event) → IsSound w → IsSound (step digest w e).0
  unfolding step
  step-IsSound w starts v = enter-IsSound true w begin_start begin_start-IsSound v
  step-IsSound w stops v = enter-IsSound true w (begin_stop returns) (begin_stop-IsSound returns) v
  step-IsSound w kills v = enter-IsSound true w (begin_stop returns) (begin_stop-IsSound returns) v
  step-IsSound w restarts v =
      enter-IsSound true w (begin_stop then_starts) (begin_stop-IsSound then_starts) v
  step-IsSound w deploys v = enter-IsSound false w begin_deploy begin_deploy-IsSound v
  step-IsSound w detaches v = ground arith
  step-IsSound w (exits c detached message now) v = wait_session-IsSound c detached message now w v
  step-IsSound w (recovers b) v =
      let live = recover-IsLive digest w.closing b w.current v.live in
      record {
        live = live;
        held = unfold recover in v.held;
        starting_waits = unfold recover in (λ e. cc);
      }
  step-IsSound w (prepares r) v = resume-IsSound w.task (prepares r) w refl v
  step-IsSound w (refuses message) v = resume-IsSound w.task (refuses message) w refl v
  step-IsSound w (connects b) v = resume-IsSound w.task (connects b) w refl v
  step-IsSound w (stop_ends in_time) v = resume-IsSound w.task (stop_ends in_time) w refl v
  step-IsSound w (applies failure cancelled restores) v =
      resume-IsSound w.task (applies failure cancelled restores) w refl v
  step-IsSound w (borrows b) v = borrow-IsSound b w v
  step-IsSound w (retargets target) v = resume-IsSound w.task (retargets target) w refl v
  step-IsSound w marks v = resume-IsSound w.task marks w refl v
  step-IsSound w gives_back v = resume-IsSound w.task gives_back w refl v

  unfoldable pub run : World → List Event → World
  run w [] = w
  run w (e ∷ es) = run (step digest w e).0 es

  run_from : (es : List Event) (w : World) → IsSound w → IsSound (run w es)
  unfolding run
  run_from [] w v = v
  run_from (e ∷ es) w v = run_from es (step digest w e).0 (step-IsSound w e v)

  -- While an instance is in the table: whatever calls, exits, recoveries and shutdowns come, and
  -- whatever `ApplyServer`, reservations and file changes do to it, in whatever order, its mutex is
  -- held exactly while an operation waits or another function has it or has lost it, and the instance
  -- is starting only while an operation waits for its session. Until the shutdown a running or
  -- stopping instance has a session, a stopping one expects its exit, and one without a session keeps
  -- neither a process, a port nor a token. At most three restarts are remembered.
  pub run-IsSound : (cfg : InstanceConfig) (es : List Event) → IsSound (run (start_world cfg) es)
  run-IsSound cfg es = run_from es (start_world cfg) (start_world-IsSound cfg)
