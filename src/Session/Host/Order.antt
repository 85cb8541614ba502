-- ===== src/Session/Host/Order.antt =====
-- The invariant of the host: the replay buffer and every channel hold the output in its order.
use mathlib.Core.List.{append-nil}
use prism_panel.Common.{
  ℕ, zero, suc, ◌+◌, ◌-◌, ◌%◌, ◌^◌, ◌≤◌, ◌<◌, ◌≡◌, refl, ◌∙◌, subst, ◌↔◌, ◌⊎◌, inl, inr, Bool, true,
  false, List, [], ◌∷◌, ◌++◌, map, Option, none, some, ltb, length, drop, select, arith, All,
  Bool-cases, Option-cases, length-append, length-select-le, if_both, All-append, All-drop,
}
use prism_panel.Common.Text.{Text}
use prism_panel.Common.Int.{ℤ}
use prism_panel.Session.Host.{
  Frame, Channel, Host, stdout, stderr, Event, publishes, subscribes, cancels, reads, finishes,
  keep_last, capacity, start, offer, stream_type, publish, exit_frame, replay, backlog, joined,
  subscribe, cancel_channel, finish_channel, finish, read_channel, at_index, step,
}
use prism_panel.Session.Host.Replay.{
  EndsAt, EndsAt-snoc, EndsAt-keep_last, EndsAt-replay, length-keep_last,
}
use prism_panel.Session.Host.Stream.{
  outputs, outputs-All, outputs-append, is_output, IsOutput, IsChannel, offer-IsChannel,
  cancel_channel-IsChannel, finish_channel-IsChannel, take_frame-IsChannel,
}

-- The replay buffer holds at most `capacity` lines, with consecutive numbers up to the last line of
-- the process, and every channel is in order.
pub record InOrder (h : Host) : Type 0 where
  pub buffered : EndsAt h.sequence h.lines
  pub few : length h.lines ≤ capacity
  pub only_output : All IsOutput h.lines
  pub followed : All (IsChannel h.sequence) h.channels

-- The host starts in order.
pub start-InOrder : InOrder start
start-InOrder = record {
  buffered = (omega arith, tt);
  few = omega arith;
  only_output = tt;
  followed = tt;
}

All-map :
    (P Q : Channel → Type 0) (f : Channel → Channel)
    → ((c : Channel) → P c → Q (f c))
    → (cs : List Channel) → All P cs
    → All Q (map f cs)
All-map P Q f k [] h = tt
All-map P Q f k (c ∷ cs) h = (k c h.0, All-map P Q f k cs h.1)

All-at_index :
    (P : Channel → Type 0) (f : Channel → Channel)
    → ((c : Channel) → P c → P (f c))
    → (i : ℕ) (cs : List Channel) → All P cs
    → All P (at_index f i cs)
unfolding at_index
All-at_index P f k i [] h = tt
All-at_index P f k zero (c ∷ cs) h = (k c h.0, h.1)
All-at_index P f k (suc i) (c ∷ cs) h = (h.0, All-at_index P f k i cs h.1)

All-select : (p : Frame → Bool) (fs : List Frame) → All IsOutput fs → All IsOutput (select p fs)
All-select p [] h = tt
All-select p (f ∷ fs) h = elim (Bool-cases (p f)) [
  | inl kept ↦ rw kept (h.0, All-select p fs h.1)
  | inr left ↦ rw left (All-select p fs h.1)
]

keep_last-IsOutput : (fs : List Frame) → All IsOutput fs → All IsOutput (keep_last fs)
unfolding keep_last
keep_last-IsOutput fs h =
    if_both (λ x. All IsOutput x) (ltb capacity (length fs)) (drop (length fs - capacity) fs) fs
      (All-drop IsOutput (length fs - capacity) fs h) h

stream_type_output : (stream : Text) → (stream_type stream ≡ stdout) ⊎ (stream_type stream ≡ stderr)
unfolding stream_type
stream_type_output stream = ground arith

publish-InOrder :
    (stream content : Text) (h : Host)
    → suc h.sequence < 2 ^ 64
    → InOrder h
    → InOrder (publish stream content h)
unfolding publish
publish-InOrder stream content h b v =
    let w : suc h.sequence % 2 ^ 64 ≡ suc h.sequence = omega (arith, b) in
    let frame : Frame = record {
      kind = stream_type stream;
      sequence = suc h.sequence;
      content = content;
      code = ℤ.pos 0;
    } in
    let o : is_output frame ≡ true = elim (stream_type_output stream) [
      | inl e ↦ rw e refl
      | inr e ↦ rw e refl
    ] in
    rw w (record {
      buffered =
          EndsAt-keep_last (suc h.sequence) (h.lines ++ frame ∷ [])
            (EndsAt-snoc h.sequence h.lines frame v.buffered refl);
      few = length-keep_last (h.lines ++ frame ∷ []);
      only_output =
          keep_last-IsOutput (h.lines ++ frame ∷ [])
            (All-append IsOutput h.lines (frame ∷ []) v.only_output (o, tt));
      followed =
          All-map (IsChannel h.sequence) (IsChannel (suc h.sequence)) (offer frame)
            (λ c w. offer-IsChannel h.sequence frame c o refl w) h.channels v.followed;
    })

outputs-backlog : (after : ℕ) (h : Host) → InOrder h → outputs (backlog h after) ≡ replay h after
unfolding backlog
outputs-backlog after h v =
    let kept : All IsOutput (replay h after) =
      All-select (λ f. ltb after f.sequence) h.lines v.only_output in
    if_both (λ fs. outputs fs ≡ replay h after) h.exited (replay h after ++ exit_frame h ∷ [])
      (replay h after)
      (outputs-append (replay h after) (exit_frame h ∷ [])
        ∙ append-nil (outputs (replay h after))
        ∙ outputs-All (replay h after) kept)
      (outputs-All (replay h after) kept)

joined-InOrder :
    (after : ℕ) (h : Host)
    → InOrder h
    → length (backlog h after) ≤ capacity
    → InOrder (joined (backlog h after) h)
joined-InOrder after h v l = record {
  buffered = v.buffered;
  few = v.few;
  only_output = v.only_output;
  followed =
      All-append (IsChannel h.sequence) h.channels
        (record { taken = []; buffer = backlog h after; registered = true; closed = false } ∷ [])
        v.followed
        (
          record {
            last = h.sequence;
            in_order =
                rw (outputs-backlog after h v) (EndsAt-replay h.sequence after h.lines v.buffered);
            not_ahead = omega arith;
            up_to_date = λ r. refl;
            bounded = l;
            open_or_closed = refl;
          },
          tt,
        );
}

subscribe-InOrder :
    (after : ℕ) (h next : Host) → InOrder h → subscribe after h ≡ some next → InOrder next
unfolding subscribe
subscribe-InOrder after h next v e = elim (Bool-cases (ltb capacity (length (backlog h after)))) [
  | inl many ↦ absurd (ground (arith, e))
  | inr fit ↦ subst (λ n. InOrder n) (ground arith) (joined-InOrder after h v (ground arith))
]

finish-InOrder :
    (code : ℤ) (message : Text) (h : Host) → InOrder h → InOrder (finish code message h)
unfolding finish
finish-InOrder code message h v =
    let ended = record h { exited = true; exit_code = code; exit_err = message } in
    let closing = finish_channel (exit_frame ended) in
    if_both (λ n. InOrder n) h.exited h (record ended { channels = map closing h.channels }) v
      (record {
        buffered = v.buffered;
        few = v.few;
        only_output = v.only_output;
        followed =
            All-map (IsChannel h.sequence) (IsChannel h.sequence) closing
              (λ c w. finish_channel-IsChannel h.sequence (exit_frame ended) c refl w) h.channels
              v.followed;
      })

at_index-InOrder :
    (change : Channel → Channel) (i : ℕ) (h : Host)
    → ((c : Channel) → IsChannel h.sequence c → IsChannel h.sequence (change c))
    → InOrder h
    → InOrder (record h { channels = at_index change i h.channels })
at_index-InOrder change i h k v = record {
  buffered = v.buffered;
  few = v.few;
  only_output = v.only_output;
  followed = All-at_index (IsChannel h.sequence) change k i h.channels v.followed;
}

step-InOrder :
    (h next : Host) (e : Event)
    → suc h.sequence < 2 ^ 64
    → InOrder h
    → step h e ≡ some next
    → InOrder next
unfolding step read_channel
step-InOrder h next (publishes stream content) b v e =
    subst (λ n. InOrder n) (ground (arith, e)) (publish-InOrder stream content h b v)
step-InOrder h next (subscribes after) b v e = subscribe-InOrder after h next v e
step-InOrder h next (cancels i) b v e =
    subst (λ n. InOrder n) (ground (arith, e))
      (at_index-InOrder cancel_channel i h (λ c w. cancel_channel-IsChannel h.sequence c w) v)
step-InOrder h next (reads i) b v e =
    subst (λ n. InOrder n) (ground (arith, e))
      (at_index-InOrder read_channel i h (λ c w. take_frame-IsChannel h.sequence c c.buffer refl w)
        v)
step-InOrder h next (finishes code message) b v e =
    subst (λ n. InOrder n) (ground (arith, e)) (finish-InOrder code message h v)

-- The host after a list of events, `none` if a subscription blocked on the way.
unfoldable pub run : Host → List Event → Option Host
run h [] = some h
run h (e ∷ es) = elim (step h e) [ none ↦ none | some next ↦ run next es ]

-- Only a line of the process takes a number.
step-sequence : (h next : Host) (e : Event) → step h e ≡ some next → next.sequence ≤ suc h.sequence
unfolding step subscribe finish publish
step-sequence h next (publishes stream content) e = ground (arith, e)
step-sequence h next (subscribes after) e = ground (arith, e)
step-sequence h next (cancels i) e = ground (arith, e)
step-sequence h next (reads i) e = ground (arith, e)
step-sequence h next (finishes code message) e = ground (arith, e)

run_from :
    (es : List Event) (h last : Host)
    → h.sequence + length es < 2 ^ 64
    → InOrder h
    → run h es ≡ some last
    → InOrder last
unfolding run
run_from [] h last b v e = subst (λ n. InOrder n) (ground (arith, e)) v
run_from (x ∷ es) h last b v e = elim (Option-cases (step h x)) [
  | inl stuck ↦ absurd (ground (arith, e, stuck))
  | inr (next, went) ↦
      let near = step-sequence h next x went in
      run_from es next last (omega (arith, b, near))
        (step-InOrder h next x (omega (arith, b)) v went) (ground (arith, e, went))
]

-- After fewer than 2^64 events that do not block, so that no number comes twice: the replay buffer
-- holds at most 256 lines with consecutive numbers up to the last line of the process, and each
-- subscriber has received, between what it has read and what waits in its channel, consecutive
-- lines: up to the last line while it is registered, up to an earlier one after it was closed.
pub run-InOrder :
    (es : List Event) (last : Host) → length es < 2 ^ 64 → run start es ≡ some last → InOrder last
run-InOrder es last b e = run_from es start last (omega (arith, b)) start-InOrder e

-- A subscription blocks, with the host's lock held, exactly if the process has exited and all the 256
-- lines of a full replay buffer are to be sent again.
pub subscribe_blocks :
    (after : ℕ) (h : Host)
    → InOrder h
    → (subscribe after h ≡ none) ↔ ((h.exited ≡ true) × (length (replay h after) ≡ capacity))
unfolding subscribe backlog
subscribe_blocks after h v =
    let some_of = length-select-le (λ f. ltb after f.sequence) h.lines in
    let longer = length-append (replay h after) (exit_frame h ∷ []) in
    let few = v.few in
    elim (Bool-cases h.exited) [
      | inl over ↦ ((λ e. (over, ground arith)), λ p. ground arith)
      | inr running ↦ ((λ e. absurd (ground arith)), λ p. absurd (ground arith))
    ]
