-- ===== src/Supervisor/Console.antt =====
-- daemon/internal/supervisor/types.go and `Subscribe` of manager.go: the console of an instance. Each
-- call runs under the mutex of the instance, so it is one step; times are left out. A Go channel is
-- what it holds and whether it is closed; a subscriber is registered while its channel is open, as
-- the code closes it where it deletes it.
pub mod Ring
pub mod Delivery
mod Tests
use prism_panel.Common.{
  ℕ, suc, ◌+◌, ◌%◌, ◌^◌, Bool, true, false, List, [], ◌∷◌, ◌++◌, Option, none, some, ltb,
  if◌then◌else◌, ◌==◌, nat_eq, length, drop, select,
}
use prism_panel.Common.Text.{Text, codes}

pub record ConsoleLine : Type 0 where
  pub type : Text
  pub session_id : Text
  pub sequence : ℕ
  pub stream : Text
  pub content : Text

pub record Channel : Type 0 where
  pub pending : List ConsoleLine
  pub closed : Bool

-- The fields of an instance that the console uses; `console` is the ring.
pub record Console : Type 0 where
  pub session_id : Text
  pub sequence : ℕ
  pub capacity : ℕ
  pub console : List ConsoleLine
  pub subscribers : ℕ → Option Channel
  pub next_sub_id : ℕ

abbrev pub new_console : ℕ → Console
new_console capacity = record {
  session_id = [];
  sequence = 0;
  capacity = capacity;
  console = [];
  subscribers = λ id. none;
  next_sub_id = 0;
}

-- `++` on a uint64
abbrev pub next : ℕ → ℕ
next n = (n + 1) % 2 ^ 64

-- `ring.add`, for a capacity that is not zero: with zero it would fail.
unfoldable pub ring_add : ℕ → ConsoleLine → List ConsoleLine → List ConsoleLine
ring_add capacity line lines =
    if length lines == capacity then drop 1 lines ++ (line ∷ []) else lines ++ (line ∷ [])

-- `ring.after`
unfoldable pub ring_after : ℕ → List ConsoleLine → List ConsoleLine
ring_after sequence = select (λ line. ltb sequence line.sequence)

-- `select { case subscriber <- line: default: … close(subscriber) }`
abbrev pub offer : ConsoleLine → Option Channel → Option Channel
offer line none = none
offer line (some ch) =
    if ch.closed
    then some ch
    else (if ltb (length ch.pending) 256
        then some (record ch { pending = ch.pending ++ (line ∷ []) })
        else some (record ch { closed = true }))

-- `publishConsoleLocked`
unfoldable pub publish : ConsoleLine → Console → Console
publish line s = record s {
  console = ring_add s.capacity line s.console;
  subscribers = λ id. offer line (s.subscribers id);
}

abbrev pub output_line : Text → Text → Text → ℕ → ConsoleLine
output_line stream content session_id sequence = record {
  type = codes "console.line";
  session_id = session_id;
  sequence = sequence;
  stream = stream;
  content = content;
}

abbrev pub reset_line : Text → ℕ → ConsoleLine
reset_line session_id sequence = record {
  type = codes "console.reset";
  session_id = session_id;
  sequence = sequence;
  stream = codes "system";
  content = [];
}

unfoldable pub add_console : Text → Text → Console → Console × ConsoleLine
add_console stream content s =
    let line = output_line stream content s.session_id (next s.sequence) in
    (publish line (record s { sequence = next s.sequence }), line)

unfoldable pub reset_console : Text → Console → Console × ConsoleLine
reset_console session_id s =
    let line = reset_line session_id (next s.sequence) in
    (
      publish line (record s { session_id = session_id; sequence = next s.sequence; console = [] }),
      line,
    )

-- `Subscribe`, once the instance has been found: the history and the id of the subscription.
unfoldable pub subscribe : ℕ → Console → Console × List ConsoleLine × ℕ
subscribe after s =
    let from = if ltb s.sequence after then 0 else after in
    let id = next s.next_sub_id in
    (
      record s {
        subscribers = λ j.
            if j == id then some (record { pending = []; closed = false }) else s.subscribers j;
        next_sub_id = id;
      },
      ring_after from s.console,
      id,
    )

abbrev pub close : Option Channel → Option Channel
close none = none
close (some ch) = some (record ch { closed = true })

-- The function `cancel` that `Subscribe` returns.
unfoldable pub cancel : ℕ → Console → Console
cancel id s = record s {
  subscribers = λ j. if j == id then close (s.subscribers j) else s.subscribers j;
}

abbrev pub rest_of : Option Channel → Option Channel
rest_of none = none
rest_of (some ch) = some (record ch { pending = drop 1 ch.pending })

abbrev pub first_of : Option Channel → List ConsoleLine
first_of none = []
first_of (some ch) = elim ch.pending [ [] ↦ [] | line ∷ lines ↦ line ∷ [] ]

-- A receive from the channel; one that would block takes nothing.
unfoldable pub receive : ℕ → Console → Console × List ConsoleLine
receive id s = (
  record s { subscribers = λ j. if j == id then rest_of (s.subscribers j) else s.subscribers j },
  first_of (s.subscribers id),
)

pub data Event : Type 0 where
  added : Text → Text → Event
  reset : Text → Event
  subscribed cancelled received : ℕ → Event

abbrev pub step : Event → Console → Console
step (added stream content) s = (add_console stream content s).0
step (reset session_id) s = (reset_console session_id s).0
step (subscribed after) s = (subscribe after s).0
step (cancelled id) s = cancel id s
step (received id) s = (receive id s).0

unfoldable pub run : List Event → Console → Console
run [] s = s
run (e ∷ es) s = run es (step e s)
