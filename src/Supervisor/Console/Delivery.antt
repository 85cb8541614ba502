-- ===== src/Supervisor/Console/Delivery.antt =====
-- What a subscriber takes from its channel.
use mathlib.Core.List.{append_assoc, append-nil}
use prism_panel.Common.{
  ℕ, suc, ◌+◌, ◌^◌, ◌≤◌, ◌<◌, ◌≡◌, refl, sym, ap, ◌∙◌, ◌⊎◌, inl, inr, Bool, true, false, List, [],
  ◌∷◌, ◌++◌, Option, some, ltb, if◌then◌else◌, ◌==◌, nat_eq, eq→≡, eq_refl, length, drop, arith,
  Bool-cases,
}
use prism_panel.Supervisor.Console.{
  ConsoleLine, Channel, Console, next, offer, publish, output_line, reset_line, add_console,
  reset_console, subscribe, cancel, rest_of, first_of, receive, Event, added, reset, subscribed,
  cancelled, received, step, run,
}

-- The lines that a call publishes, and those that a receive from this channel takes.
abbrev pub lines_of : Event → Console → List ConsoleLine
lines_of (added stream content) s = (add_console stream content s).1 ∷ []
lines_of (reset session) s = (reset_console session s).1 ∷ []
lines_of (subscribed after) s = []
lines_of (cancelled id) s = []
lines_of (received id) s = []

abbrev pub taken_of : ℕ → Event → Console → List ConsoleLine
taken_of id (received j) s = if id == j then (receive j s).1 else []
taken_of id (added stream content) s = []
taken_of id (reset session) s = []
taken_of id (subscribed after) s = []
taken_of id (cancelled j) s = []

unfoldable pub published : List Event → Console → List ConsoleLine
published [] s = []
published (e ∷ es) s = lines_of e s ++ published es (step e s)

unfoldable pub taken : ℕ → List Event → Console → List ConsoleLine
taken id [] s = []
taken id (e ∷ es) s = taken_of id e s ++ taken id es (step e s)

-- The channel after one call: it has lost what was taken and got what was published, or it is closed
-- and has got nothing.
abbrev Moves : Channel → List ConsoleLine → List ConsoleLine → Option Channel → Type 0
Moves ch lines gone o =
    (after : Channel) × (o ≡ some after)
    × (((after.closed ≡ false)
          × (ch.closed ≡ false)
          × (ch.pending ++ lines ≡ gone ++ after.pending))
        ⊎ ((after.closed ≡ true) × (ch.pending ≡ gone ++ after.pending)))

kept : (ch : Channel) → Moves ch [] [] (some ch)
kept ch = elim (Bool-cases ch.closed) [
  | inl shut ↦ (ch, refl, inr (shut, refl))
  | inr alive ↦ (ch, refl, inl (alive, alive, append-nil ch.pending))
]

offered : (ch : Channel) (line : ConsoleLine) → Moves ch (line ∷ []) [] (offer line (some ch))
offered ch line = elim (Bool-cases ch.closed) [
  | inl shut ↦ (ch, rw shut refl, inr (shut, refl))
  | inr alive ↦ elim (Bool-cases (ltb (length ch.pending) 256)) [
    | inl room ↦ (
      record ch { pending = ch.pending ++ (line ∷ []) },
      rw (alive, room) refl,
      inl (alive, alive, refl),
    )
    | inr full ↦ (record ch { closed = true }, rw (alive, full) refl, inr (refl, refl))
  ]
]

first-rest :
    (lines : List ConsoleLine) (b : Bool)
    → lines ≡ first_of (some (record { pending = lines; closed = b })) ++ drop 1 lines
first-rest [] b = refl
first-rest (x ∷ xs) b = refl

popped : (ch : Channel) → Moves ch [] (first_of (some ch)) (rest_of (some ch))
popped ch = elim (Bool-cases ch.closed) [
  | inl shut ↦
      (record ch { pending = drop 1 ch.pending }, refl, inr (shut, first-rest ch.pending ch.closed))
  | inr alive ↦ (
    record ch { pending = drop 1 ch.pending },
    refl,
    inl (alive, alive, append-nil ch.pending ∙ first-rest ch.pending ch.closed),
  )
]

step-Moves :
    (id : ℕ) (ch : Channel) (e : Event) (s : Console)
    → s.subscribers id ≡ some ch
    → id ≤ s.next_sub_id
    → suc s.next_sub_id < 2 ^ 64
    → Moves ch (lines_of e s) (taken_of id e s) ((step e s).subscribers id)
unfolding add_console reset_console subscribe cancel receive publish
step-Moves id ch (added stream content) s e low high =
    rw e (offered ch (output_line stream content s.session_id (next s.sequence)))
step-Moves id ch (reset session) s e low high =
    rw e (offered ch (reset_line session (next s.sequence)))
step-Moves id ch (subscribed after) s e low high =
    let other : (id == next s.next_sub_id) ≡ false = ground arith in rw (other, e) (kept ch)
step-Moves id ch (cancelled j) s e low high = elim (Bool-cases (id == j)) [
  | inl same ↦ rw (same, e) (record ch { closed = true }, refl, inr (refl, refl))
  | inr other ↦ rw (other, e) (kept ch)
]
step-Moves id ch (received j) s e low high = elim (Bool-cases (id == j)) [
  | inl same ↦ rw (same, sym (eq→≡ id j same), e) (popped ch)
  | inr other ↦ rw (other, e) (kept ch)
]

-- No id is given twice before the counter wraps.
step-next_sub_id :
    (e : Event) (s : Console)
    → suc s.next_sub_id < 2 ^ 64
    → (s.next_sub_id ≤ (step e s).next_sub_id) × ((step e s).next_sub_id ≤ suc s.next_sub_id)
unfolding add_console reset_console subscribe cancel receive publish
step-next_sub_id (added stream content) s h = (omega arith, omega arith)
step-next_sub_id (reset session) s h = (omega arith, omega arith)
step-next_sub_id (subscribed after) s h = (omega arith, omega arith)
step-next_sub_id (cancelled j) s h = (omega arith, omega arith)
step-next_sub_id (received j) s h = (omega arith, omega arith)

-- A closed channel stays so, and is only emptied.
closed_run :
    (id : ℕ) (ch : Channel) (es : List Event) (s : Console)
    → s.subscribers id ≡ some ch
    → ch.closed ≡ true
    → id ≤ s.next_sub_id
    → s.next_sub_id + length es < 2 ^ 64
    → (last : Channel) × ((run es s).subscribers id ≡ some last)
      × (last.closed ≡ true)
      × (ch.pending ≡ taken id es s ++ last.pending)
unfolding run taken
closed_run id ch [] s e shut low high = (ch, e, shut, refl)
closed_run id ch (x ∷ es) s e shut low high =
    let (up, most) = step-next_sub_id x s (omega (arith, high)) in
    let (after, f, moved) = step-Moves id ch x s e low (omega (arith, high)) in
    elim moved [
      | inl (_, alive, _) ↦ absurd (ground (arith, shut, alive))
      | inr (shut', p) ↦
          let (last, g, shut'', q) =
            closed_run id after es (step x s) f shut' (omega (arith, up))
              (omega (arith, most, high)) in
          (
            last,
            g,
            shut'',
            p
                ∙ ap (λ ys. taken_of id x s ++ ys) q
                ∙ sym (append_assoc (taken_of id x s) (taken id es (step x s)) last.pending),
          )
    ]

-- What was published from here on: taken from the channel, still in it, or missed.
abbrev pub Delivers : ℕ → Channel → List Event → Console → Type 0
Delivers id ch es s =
    (last : Channel) × ((run es s).subscribers id ≡ some last)
    × ((missed : List ConsoleLine) × (ch.pending ++ published es s
          ≡ (taken id es s ++ last.pending) ++ missed)
        × (last.closed ≡ false → missed ≡ []))

append_joined : (a b c d : List ConsoleLine) → a ++ ((b ++ c) ++ d) ≡ ((a ++ b) ++ c) ++ d
append_joined a b c d =
    sym (append_assoc a (b ++ c) d) ∙ ap (λ ys. ys ++ d) (sym (append_assoc a b c))

delivers :
    (id : ℕ) (ch : Channel) (es : List Event) (s : Console)
    → s.subscribers id ≡ some ch
    → id ≤ s.next_sub_id
    → s.next_sub_id + length es < 2 ^ 64
    → Delivers id ch es s
unfolding run taken published
delivers id ch [] s e low high = (ch, e, ([], refl, λ _. refl))
delivers id ch (x ∷ es) s e low high =
    let (up, most) = step-next_sub_id x s (omega (arith, high)) in
    let (after, f, moved) = step-Moves id ch x s e low (omega (arith, high)) in
    let lines = lines_of x s in
    let gone = taken_of id x s in
    let more = published es (step x s) in
    let later = taken id es (step x s) in
    elim moved [
      | inl (_, _, p) ↦
          let (last, g, (missed, q, none_missed)) =
            delivers id after es (step x s) f (omega (arith, up)) (omega (arith, most, high)) in
          (
            last,
            g,
            (
              missed,
              sym (append_assoc ch.pending lines more)
                  ∙ ap (λ ys. ys ++ more) p
                  ∙ append_assoc gone after.pending more
                  ∙ ap (λ ys. gone ++ ys) q
                  ∙ append_joined gone later last.pending missed,
              none_missed,
            ),
          )
      | inr (shut, p) ↦
          let (last, g, shut', q) =
            closed_run id after es (step x s) f shut (omega (arith, up))
              (omega (arith, most, high)) in
          (
            last,
            g,
            (
              lines ++ more,
              ap (λ ys. ys ++ (lines ++ more))
                  (p ∙ ap (λ ys. gone ++ ys) q ∙ sym (append_assoc gone later last.pending)),
              λ alive. absurd (ground (arith, alive, shut')),
            ),
          )
    ]

-- Until the counter of subscriptions wraps, the lines published after a subscription are, in their
-- order: those taken from its channel, then those in it, then those it missed; and as long as the
-- channel is open, it has missed none.
pub subscribe-Delivers :
    (s : Console) (after : ℕ) (es : List Event)
    → suc (s.next_sub_id + length es) < 2 ^ 64
    → let (s', history, id) = subscribe after s in
      Delivers id (record { pending = []; closed = false }) es s'
unfolding subscribe
subscribe-Delivers s after es h =
    let id = next s.next_sub_id in
    let (s', _, _) = subscribe after s in
    delivers id (record { pending = []; closed = false }) es s' (rw (eq_refl id) refl) (omega arith)
      (omega (arith, h))
