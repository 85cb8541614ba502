-- ===== src/Schedule/Tests.antt =====
-- A task that runs every minute, and one that is due.
use prism_panel.Common.{
  ℕ, ◌+◌, ◌*◌, ◌/◌, ◌≡◌, refl, Bool, true, List, [], ◌∷◌, All, Option, none, some, arith, nat_eq,
  text_eq,
}
use prism_panel.Common.Text.{Text, codes, trim_space, trim_left, is_space}
use prism_panel.Common.Error.{Result, ok}
use prism_panel.Schedule.Command.{command_allowed, fields, words_from, after_colon}
use prism_panel.Schedule.Spec.{
  Calendar, normalize_timezone, normalize_config, parse_config, check_config, first_run,
  first_of_kind,
}
use prism_panel.Schedule.Spec.Planned.{IsSteady, a_day, of_clock}
use prism_panel.Schedule.Task.{
  TaskInput, ScheduledTask, DueTask, Claim, node_name_of, collect_targets, normalize_targets,
  payload_of, prepare_task, process_due,
}
use prism_panel.Schedule.Task.Prepared.{IsPrepared, prepare_task-IsPrepared}
use prism_panel.Schedule.Task.Due.{IsDue, IsRound, process_due-IsTimely}

-- Days of one length, and every text a configuration of one minute.
abbrev plain_days : Calendar
plain_days = record {
  decode = λ raw. some (record { run_at = []; time = []; weekdays = []; interval_seconds = 60 });
  encode = λ c. codes "{}";
  located = λ name. true;
  rfc3339 = λ value. none;
  clock = λ layout value. none;
  date = λ location t c. (t / a_day) * a_day + of_clock c;
  add_days = λ location t n. t + n * a_day;
  weekday = λ location t. 1;
}

plain_days-IsSteady : (location : Text) (now : ℕ) → IsSteady plain_days location now
plain_days-IsSteady location now = record {
  midnight = (now / a_day) * a_day;
  begun = omega arith;
  not_over = omega arith;
  dates = λ c. refl;
  days = λ t n low high few. refl;
}

abbrev say : TaskInput
say = record {
  name = codes " hello ";
  enabled = true;
  schedule_type = codes "interval";
  schedule = [];
  timezone = [];
  action_type = codes "command";
  action_payload = codes "say hello";
  targets =
      record {
        node_id = codes "n";
        node_name = [];
        server_id = codes "s";
        instance_id = codes "i";
        instance_name = [];
      }
      ∷ [];
}

abbrev said : ScheduledTask
said = record {
  name = codes "hello";
  enabled = true;
  schedule_type = codes "interval";
  schedule_config = codes "{}";
  timezone = codes "Asia/Shanghai";
  action_type = codes "command";
  action_payload = codes "say hello";
  next_run_at = some 60_000_001_000;
  targets =
      record {
        node_id = codes "n";
        node_name = codes "node";
        server_id = codes "s";
        instance_id = codes "i";
        instance_name = codes "i";
      }
      ∷ [];
}

abbrev one_node : Text → Result (Option Text)
one_node id = ok (some (codes "node"))

prepared : prepare_task one_node plain_days (λ c. c) true say 1000 ≡ ok said
unfolding prepare_task normalize_timezone normalize_config parse_config check_config first_run
    first_of_kind payload_of command_allowed fields words_from after_colon normalize_targets
    collect_targets node_name_of trim_space trim_left is_space nat_eq text_eq
prepared = refl

prepare_task-IsPrepared_example : IsPrepared one_node (λ c. c) true say 1000 said
prepare_task-IsPrepared_example =
    prepare_task-IsPrepared one_node plain_days (λ c. c) true say 1000 said
      (λ timezone e location f. plain_days-IsSteady location 1000) prepared

abbrev due : List DueTask
due = record { id = codes "t"; task = said } ∷ []

abbrev claims_all : Claim → Result (Text × Bool)
claims_all claim = ok (codes "r", true)

due-IsDue : All (IsDue 60_000_002_000) due
due-IsDue = ((λ scheduled e. (ground arith, ground arith)), tt)

process_due-IsTimely_example :
    IsRound claims_all 60_000_002_000 (process_due plain_days claims_all 60_000_002_000 due)
process_due-IsTimely_example =
    process_due-IsTimely plain_days claims_all 60_000_002_000 due
      ((λ location e. plain_days-IsSteady location 60_000_002_000), tt) due-IsDue
