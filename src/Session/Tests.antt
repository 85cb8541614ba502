-- ===== src/Session/Tests.antt =====
-- A run of the host at concrete inputs.
use prism_panel.Common.{
  ◌≡◌, refl, ◌↔◌, true, arith, List, [], ◌∷◌, Option, none, some, text_eq, nat_eq, length,
}
use prism_panel.Common.Text.{Text, codes}
use prism_panel.Common.Int.{ℤ}
use prism_panel.Session.Command.{split_command}
use prism_panel.Session.Command.Quoting.{line_of, split_command-line_of}
use prism_panel.Session.Host.{
  Host, Event, publishes, subscribes, reads, finishes, capacity, start, keep_last, offer,
  stream_type, publish, backlog, replay, subscribe, finish_channel, finish, take_frame,
  read_channel, at_index, step,
}
use prism_panel.Session.Host.Order.{InOrder, run, run-InOrder, subscribe_blocks}

abbrev events : List Event
events =
    publishes (codes "stdout") (codes "hello")
    ∷ subscribes 0
    ∷ publishes (codes "stderr") (codes "oops")
    ∷ reads 0
    ∷ finishes (ℤ.pos 1) (codes "exit")
    ∷ subscribes 1
    ∷ []

abbrev or_start : Option Host → Host
or_start none = start
or_start (some h) = h

abbrev ended : Host
ended = or_start (run start events)

went : run start events ≡ some ended
unfolding run step publish keep_last offer stream_type subscribe backlog finish finish_channel
    read_channel take_frame at_index nat_eq text_eq
went = refl

run-InOrder_example : InOrder ended
run-InOrder_example = run-InOrder events ended (omega arith) went

subscribe_blocks_example :
    (subscribe 0 ended ≡ none) ↔ ((ended.exited ≡ true) × (length (replay ended 0) ≡ capacity))
subscribe_blocks_example = subscribe_blocks 0 ended (run-InOrder events ended (omega arith) went)

abbrev fields : List Text
fields = codes "java" ∷ codes "my server.jar" ∷ []

split_command-line_of_example : split_command (line_of fields) ≡ some fields
unfolding nat_eq
split_command-line_of_example = split_command-line_of fields (
  ((λ e. cc), (refl, (refl, (refl, (refl, tt))))),
  (
    (
      (λ e. cc),
      (
        refl,
        (
          refl,
          (
            refl,
            (refl, (refl, (refl, (refl, (refl, (refl, (refl, (refl, (refl, (refl, tt)))))))))),
          ),
        ),
      ),
    ),
    tt,
  ),
)
