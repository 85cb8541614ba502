-- ===== src/Supervisor/Types.antt =====
-- daemon/internal/supervisor/types.go: the states and the instance. Metrics, the console and the reports of the plugin are left out.
-- A session connection is a pointer in the source, so it has an identity here.
use prism_panel.Common.{ℕ, Bool, true, false, List, [], Option, none}
use prism_panel.Common.Text.{Text}
use prism_panel.Server.{InstanceConfig}

pub data State : Type 0 where
  stopped starting running stopping deploying failed : State

abbrev pub is_stopped : State → Bool
is_stopped s = elim s [ stopped ↦ true | _ ↦ false ]

abbrev pub is_failed : State → Bool
is_failed s = elim s [ failed ↦ true | _ ↦ false ]

abbrev pub is_running : State → Bool
is_running s = elim s [ running ↦ true | _ ↦ false ]

-- `state == StateStarting || state == StateStopping`
abbrev pub is_switching : State → Bool
is_switching s = elim s [ starting ↦ true | stopping ↦ true | _ ↦ false ]

-- The same, or `state == StateDeploying`.
abbrev pub is_moving : State → Bool
is_moving s = elim s [ starting ↦ true | stopping ↦ true | deploying ↦ true | _ ↦ false ]

-- `sessionConn`: its identity, and the process and session of its hello frame.
pub record Client : Type 0 where
  pub identity : ℕ
  pub hello_pid : ℕ

-- `op_held`: somebody holds the mutex `op`. `plugin_token` is the hash, if it is set.
pub record Instance : Type 0 where
  pub cfg : InstanceConfig
  pub managed : Bool
  pub op_held : Bool
  pub deployment_locked : Bool
  pub state : State
  pub session : Option Client
  pub expected_exit : Bool
  pub session_id : Text
  pub pid : ℕ
  pub runtime_port : Option ℕ
  pub runtime_encoding : Text
  pub last_error : Text
  pub restarts : List ℕ
  pub plugin_token : Option Text
  pub plugin_generation : ℕ
  pub plugin_connected : Bool
  pub plugin_pending_restart : Bool
  pub plugin_runtime_mismatch : Bool
  pub plugin_files_changed : Bool

abbrev pub Instances : Type 0
Instances = Text → Option Instance

abbrev pub new_instance : InstanceConfig → Instance
new_instance cfg = record {
  cfg = cfg;
  managed = true;
  op_held = false;
  deployment_locked = false;
  state = stopped;
  session = none;
  expected_exit = false;
  session_id = [];
  pid = 0;
  runtime_port = none;
  runtime_encoding = [];
  last_error = [];
  restarts = [];
  plugin_token = none;
  plugin_generation = 0;
  plugin_connected = false;
  plugin_pending_restart = false;
  plugin_runtime_mismatch = false;
  plugin_files_changed = false;
}
