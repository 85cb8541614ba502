-- ===== src/Supervisor/Console/Tests.antt =====
-- A console with room for two lines and a subscriber that reads.
use prism_panel.Common.{◌≡◌, false, List, [], ◌∷◌, arith}
use prism_panel.Common.Text.{codes}
use prism_panel.Supervisor.Console.{
  new_console, subscribe, Event, added, reset, subscribed, received, run,
}
use prism_panel.Supervisor.Console.Ring.{Shows, new_log, log_run, history, run-Shows-history}
use prism_panel.Supervisor.Console.Delivery.{Delivers, subscribe-Delivers}

abbrev events : List Event
events =
    added (codes "stdout") (codes "a")
    ∷ reset (codes "s")
    ∷ subscribed 1
    ∷ added (codes "stdout") (codes "b")
    ∷ received 1
    ∷ added (codes "stderr") (codes "c")
    ∷ []

run-Shows-history_example :
    let s = run events (new_console 2) in
    let l = log_run events new_log in Shows l s × ((subscribe 2 s).1 ≡ history 2 2 l)
run-Shows-history_example = run-Shows-history events 2 2 (omega arith)

subscribe-Delivers_example :
    let (s, _, id) = subscribe 0 (new_console 2) in
    Delivers id (record { pending = []; closed = false }) events s
subscribe-Delivers_example = subscribe-Delivers (new_console 2) 0 events (omega arith)
