-- ===== src/Supervisor/Commands.antt =====
-- daemon/internal/supervisor/lifecycle.go: `Command` and the choice of `StartAuto`. The codec of the
-- console and the write to the session are arguments.
use prism_panel.Common.{
  Bool, false, ◌&&◌, ◌||◌, not, List, [], ◌∷◌, ◌++◌, Option, none, some, ltb, if◌then◌else◌, ◌==◌,
  nat_eq, text_eq, contains, select,
}
use prism_panel.Common.Text.{Text, utf8_length}
use prism_panel.Common.Error.{
  Result, ok, err, ◌>>◌, guard, instance_busy, instance_not_found, invalid_command, invalid_state,
  process_input_failed,
}
use prism_panel.Firewall.Rules.{sort_texts}
use prism_panel.Supervisor.Types.{Instance, Instances, is_running}
use prism_panel.Supervisor.Deployment.{find}
use prism_panel.Supervisor.Lifecycle.{is_some}

-- One line, of bounded length.
abbrev pub is_command : Text → Bool
is_command command =
    not (command == [])
    && not (
        ltb 8192 (utf8_length command)
        || (contains command 0 || contains command 13 || contains command 10))

module _ (encode : Text → Text → Option Text) (accepts : Text → Bool) where
  -- The bytes that go to the session, once the instance has been found.
  abbrev pub send_line : Text → Instance → Result Text
  send_line command i = do
    guard (not i.deployment_locked) instance_busy
    guard (is_running i.state && is_some i.session) invalid_state
    elim (encode i.runtime_encoding (command ++ 10 ∷ [])) [
      | none ↦ err process_input_failed
      | some line ↦ if accepts line then ok line else err process_input_failed
    ]

  -- `Command`
  unfoldable pub command : Text → Text → Instances → Result Text
  command id line m = do
    guard (is_command line) invalid_command
    elim (find id m) [ none ↦ err instance_not_found | some i ↦ send_line line i ]

abbrev pub starts_itself : Option Instance → Bool
starts_itself none = false
starts_itself (some i) = i.cfg.process.auto_start

-- The instances that `StartAuto` starts, in their order.
unfoldable pub auto_started : List Text → Instances → List Text
auto_started visit m = sort_texts (select (λ id. starts_itself (m id)) visit)
