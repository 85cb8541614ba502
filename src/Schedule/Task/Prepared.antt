-- ===== src/Schedule/Task/Prepared.antt =====
-- What a prepared task has passed.
use prism_panel.Common.{
  ℕ, ◌≤◌, ◌<◌, ◌≡◌, refl, subst, ◌⊎◌, inl, inr, Bool, true, false, ◌||◌, List, [], Option, none,
  some, ltb, if◌then◌else◌, ◌==◌, nat_eq, text_eq, length, arith, Bool-cases,
}
use prism_panel.Common.Text.{Text, codes, trim_space}
use prism_panel.Common.Error.{Result, ok, Result-cases}
use prism_panel.Schedule.Command.{command_allowed}
use prism_panel.Schedule.Spec.{Calendar, normalize_timezone, normalize_config, first_run}
use prism_panel.Schedule.Spec.Planned.{IsSteadyZone, first_run-ahead}
use prism_panel.Schedule.Task.{
  Target, TaskInput, ScheduledTask, action_permission, is_set, normalize_targets, payload_of,
  task_of, prepare_task,
}
use prism_panel.Schedule.Task.Targets.{AreTargets, normalize_targets-AreTargets}

-- The payload of a command, or of another action.
abbrev pub IsPayload : (ℕ → ℕ) → Bool → Text → Text → Type 0
IsPayload lower manage_operators action payload =
    (((action == codes "command") ≡ true)
      × (is_set payload ≡ true)
      × (length payload ≤ 2000)
      × (command_allowed lower payload manage_operators ≡ true))
    ⊎ (((action == codes "command") ≡ false) × (payload ≡ []))

payload_of-IsPayload :
    (lower : ℕ → ℕ) (manage_operators : Bool) (action payload p : Text)
    → payload_of lower manage_operators action payload ≡ ok p
    → IsPayload lower manage_operators action p
unfolding payload_of
payload_of-IsPayload lower manage_operators action payload p h =
    elim (Bool-cases (action == codes "command")) [
      | inr other ↦ inr (other, ground arith)
      | inl command ↦ elim (Bool-cases (payload == [] || ltb 2000 (length payload))) [
        | inl bad ↦ absurd (ground arith)
        | inr good ↦ elim (Bool-cases (command_allowed lower payload manage_operators)) [
          | inr kept ↦ absurd (ground arith)
          | inl allowed ↦
              let e : payload ≡ p = ground arith in
              let (some_payload, short, passes) =
                subst
                  (λ q.
                    (is_set q ≡ true)
                    × (length q ≤ 2000)
                    × (command_allowed lower q manage_operators ≡ true))
                  e (ground arith, ground arith, allowed) in
              inl (command, some_payload, short, passes)
        ]
      ]
    ]

module _ (get_node : Text → Result (Option Text)) where
  -- What the task that `prepareTask` returns fulfils.
  pub record IsPrepared (lower : ℕ → ℕ) (manage_operators : Bool) (input : TaskInput) (now : ℕ)
      (task : ScheduledTask) : Type 0 where
    pub name_set : is_set task.name ≡ true
    pub name_short : length task.name ≤ 100
    pub permitted : is_set (action_permission task.action_type) ≡ true
    pub payload : IsPayload lower manage_operators task.action_type task.action_payload
    pub targets : AreTargets get_node task.targets
    pub planned :
        ((input.enabled ≡ true) × ((t : ℕ) × (task.next_run_at ≡ some t) × (now < t)))
        ⊎ ((input.enabled ≡ false) × (task.next_run_at ≡ none))

  planned_run :
      (enabled : Bool) (now t : ℕ)
      → now < t
      → ((enabled ≡ true) × ((x : ℕ) × ((if enabled then some t else none) ≡ some x) × (now < x)))
        ⊎ ((enabled ≡ false) × ((if enabled then some t else none) ≡ none))
  planned_run true now t h = inl (refl, (t, refl, h))
  planned_run false now t h = inr (refl, refl)

  task_of-IsPrepared :
      (cal : Calendar) (lower : ℕ → ℕ) (manage_operators : Bool) (input : TaskInput) (now : ℕ)
      (timezone config : Text) (next : ℕ) (payload : Text) (targets : List Target)
      → IsSteadyZone cal timezone now
      → ((trim_space input.name == []) || ltb 100 (length (trim_space input.name))) ≡ false
      → first_run cal input.schedule_type config timezone now ≡ ok next
      → is_set (action_permission (trim_space input.action_type)) ≡ true
      → payload_of lower manage_operators
          (trim_space input.action_type)
          (trim_space input.action_payload)
        ≡ ok payload
      → normalize_targets get_node input.targets ≡ ok targets
      → IsPrepared lower manage_operators input now
          (task_of input timezone config next payload targets)
  task_of-IsPrepared cal lower manage_operators input now timezone config next payload targets
        steady good f permitted p t =
      record {
        name_set = ground arith;
        name_short = ground arith;
        permitted = permitted;
        payload =
            payload_of-IsPayload lower manage_operators (trim_space input.action_type)
              (trim_space input.action_payload) payload p;
        targets = normalize_targets-AreTargets get_node input.targets targets t;
        planned =
            planned_run input.enabled now next
              (first_run-ahead cal input.schedule_type config timezone now next steady f);
      }

  -- Where the time zone of the task does not change its clocks between midnight and a week after, a
  -- task that `prepareTask` returns has a name of at most 100 characters and a known action; a
  -- command is not empty, has at most 2000 characters and is let through, and another action has no
  -- payload; there are 1 to 200 targets, no two with the same node and instance, each complete and on
  -- a node of the store; and its next run lies ahead if it is enabled, else there is none.
  pub prepare_task-IsPrepared :
      (cal : Calendar) (lower : ℕ → ℕ) (manage_operators : Bool) (input : TaskInput) (now : ℕ)
      (task : ScheduledTask)
      → ((timezone : Text)
          → normalize_timezone cal input.timezone ≡ ok timezone
          → IsSteadyZone cal timezone now)
      → prepare_task get_node cal lower manage_operators input now ≡ ok task
      → IsPrepared lower manage_operators input now task
  unfolding prepare_task
  prepare_task-IsPrepared cal lower manage_operators input now task steady h =
      let name = trim_space input.name in
      let action = trim_space input.action_type in
      elim (Bool-cases (name == [] || ltb 100 (length name))) [
        | inl bad ↦ absurd (ground arith)
        | inr good ↦ elim (Result-cases (normalize_timezone cal input.timezone)) [
          | inr (e, z) ↦ absurd (ground arith)
          | inl (timezone, z) ↦
              elim (Result-cases (normalize_config cal input.schedule_type input.schedule)) [
                | inr (e, c) ↦ absurd (ground arith)
                | inl (config, c) ↦
                    elim (Result-cases (first_run cal input.schedule_type config timezone now)) [
                      | inr (e, f) ↦ absurd (ground arith)
                      | inl (next, f) ↦ elim (Bool-cases (is_set (action_permission action))) [
                        | inr unknown ↦ absurd (ground arith)
                        | inl permitted ↦
                            elim (Result-cases (
                              payload_of lower manage_operators action
                                (trim_space input.action_payload))) [
                                  | inr (e, p) ↦ absurd (ground arith)
                                  | inl (payload, p) ↦
                                      elim (Result-cases
                                        (normalize_targets get_node input.targets)) [
                                          | inr (e, t) ↦ absurd (ground arith)
                                          | inl (targets, t) ↦
                                              let e : task_of input timezone config next payload
                                                    targets
                                                  ≡ task =
                                                ground arith in
                                              subst (IsPrepared lower manage_operators input now) e
                                                (task_of-IsPrepared cal lower manage_operators input
                                                  now timezone config next payload targets
                                                  (steady timezone z) good f permitted p t)
                                        ]
                                ]
                      ]
                    ]
              ]
        ]
      ]
