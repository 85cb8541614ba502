-- ===== src/Session/Host.antt =====
-- sessiond/internal/host/host.go: the output of the process, its replay buffer and its subscribers.
-- A subscriber is an index: its channel, whether the map `subs` holds it, and what its reader has
-- taken from the channel so far. Identity and process fields of a frame are left out; they are
-- constants of the host.
pub mod Replay
pub mod Stream
pub mod Order
use prism_panel.Common.{
  ℕ, zero, suc, ◌+◌, ◌-◌, ◌%◌, ◌^◌, Bool, true, false, ◌&&◌, not, List, [], ◌∷◌, ◌++◌, map, Option,
  none, some, ltb, if◌then◌else◌, length, drop, select, ◌==◌, text_eq,
}
use prism_panel.Common.Text.{Text, codes}
use prism_panel.Common.Int.{ℤ}

pub data Kind : Type 0 where
  stdout stderr exit : Kind

pub record Frame : Type 0 where
  pub kind : Kind
  pub sequence : ℕ
  pub content : Text
  pub code : ℤ

pub record Channel : Type 0 where
  pub taken : List Frame
  pub buffer : List Frame
  pub registered : Bool
  pub closed : Bool

pub record Host : Type 0 where
  pub sequence : ℕ
  pub lines : List Frame
  pub channels : List Channel
  pub exited : Bool
  pub exit_code : ℤ
  pub exit_err : Text

-- The capacity of a channel, and of the replay buffer.
abbrev pub capacity : ℕ
capacity = 256

abbrev pub start : Host
start = record {
  sequence = 0;
  lines = [];
  channels = [];
  exited = false;
  exit_code = ℤ.pos 0;
  exit_err = [];
}

-- `h.lines[len(h.lines)-256:]`, where there are more.
unfoldable pub keep_last : List Frame → List Frame
keep_last lines =
    if ltb capacity (length lines) then drop (length lines - capacity) lines else lines

-- `select { case subscriber <- frame: default: delete; close }`
unfoldable pub offer : Frame → Channel → Channel
offer frame c =
    if not c.registered
    then c
    else (if ltb (length c.buffer) capacity
        then record c { buffer = c.buffer ++ frame ∷ [] }
        else record c { registered = false; closed = true })

-- `streamType`
unfoldable pub stream_type : Text → Kind
stream_type stream = if stream == codes "stderr" then stderr else stdout

unfoldable pub publish : Text → Text → Host → Host
publish stream content h =
    let frame : Frame = record {
      kind = stream_type stream;
      sequence = suc h.sequence % 2 ^ 64;
      content = content;
      code = ℤ.pos 0;
    } in
    record h {
      sequence = suc h.sequence % 2 ^ 64;
      lines = keep_last (h.lines ++ frame ∷ []);
      channels = map (offer frame) h.channels;
    }

abbrev pub exit_frame : Host → Frame
exit_frame h = record {
  kind = exit;
  sequence = h.sequence;
  content = h.exit_err;
  code = h.exit_code;
}

abbrev pub replay : Host → ℕ → List Frame
replay h after = select (λ f. ltb after f.sequence) h.lines

-- The frames that a new subscriber is sent at once.
unfoldable pub backlog : Host → ℕ → List Frame
backlog h after = if h.exited then replay h after ++ exit_frame h ∷ [] else replay h after

abbrev pub joined : List Frame → Host → Host
joined frames h = record h {
  channels =
      h.channels ++ record { taken = []; buffer = frames; registered = true; closed = false } ∷ [];
}

-- `channel <- frame` for each frame, with the lock held and no reader yet: `none` where it blocks
-- for ever.
unfoldable pub subscribe : ℕ → Host → Option Host
subscribe after h =
    let frames = backlog h after in
    if ltb capacity (length frames) then none else some (joined frames h)

-- The function that `subscribe` returns.
unfoldable pub cancel_channel : Channel → Channel
cancel_channel c = if c.registered then record c { registered = false; closed = true } else c

unfoldable pub finish_channel : Frame → Channel → Channel
finish_channel frame c = if not c.registered then c else record c {
  buffer = if ltb (length c.buffer) capacity then c.buffer ++ frame ∷ [] else c.buffer;
  registered = false;
  closed = true;
}

-- `Finish` once: `code` and `message` are read off the error.
unfoldable pub finish : ℤ → Text → Host → Host
finish code message h =
    let ended = record h { exited = true; exit_code = code; exit_err = message } in
    if h.exited
    then h
    else record ended { channels = map (finish_channel (exit_frame ended)) h.channels }

-- The reader takes the oldest frame, if there is one.
unfoldable pub take_frame : List Frame → Channel → Channel
take_frame [] c = c
take_frame (f ∷ fs) c = record c { taken = c.taken ++ f ∷ []; buffer = fs }

unfoldable pub read_channel : Channel → Channel
unfolding take_frame
read_channel c = take_frame c.buffer c

unfoldable pub at_index : (Channel → Channel) → ℕ → List Channel → List Channel
at_index change i [] = []
at_index change zero (c ∷ cs) = change c ∷ cs
at_index change (suc i) (c ∷ cs) = c ∷ at_index change i cs

pub data Event : Type 0 where
  publishes : Text → Text → Event
  subscribes : ℕ → Event
  cancels : ℕ → Event
  reads : ℕ → Event
  finishes : ℤ → Text → Event

unfoldable pub step : Host → Event → Option Host
step h (publishes stream content) = some (publish stream content h)
step h (subscribes after) = subscribe after h
step h (cancels i) = some (record h { channels = at_index cancel_channel i h.channels })
step h (reads i) = some (record h { channels = at_index read_channel i h.channels })
step h (finishes code message) = some (finish code message h)
