-- ===== src/Supervisor/Console/Ring.antt =====
-- The ring keeps the end of a log that grows until it is reset.
use prism_panel.Common.{
  ℕ, zero, suc, ◌-◌, ◌≤◌, ◌<◌, ◌≡◌, refl, sym, ap, subst, ◌∙◌, inl, inr, List, [], ◌∷◌, ◌++◌, ltb,
  if◌then◌else◌, ◌==◌, nat_eq, eq→≡, length, drop, length-drop, length-append, arith, Bool-cases,
}
use prism_panel.Common.Text.{Text}
use prism_panel.Supervisor.Console.{
  ConsoleLine, Console, new_console, next, ring_add, ring_after, publish, output_line, reset_line,
  add_console, reset_console, subscribe, cancel, receive, Event, added, reset, subscribed,
  cancelled, received, step, run,
}

-- The specification: everything published since the last reset.
pub record Log : Type 0 where
  pub session : Text
  pub published : ℕ
  pub all : List ConsoleLine

abbrev pub log_step : Event → Log → Log
log_step (added stream content) l = record l {
  published = next l.published;
  all = l.all ++ (output_line stream content l.session (next l.published) ∷ []);
}
log_step (reset session) l = record {
  session = session;
  published = next l.published;
  all = reset_line session (next l.published) ∷ [];
}
log_step (subscribed after) l = l
log_step (cancelled id) l = l
log_step (received id) l = l

unfoldable pub log_run : List Event → Log → Log
log_run [] l = l
log_run (e ∷ es) l = log_run es (log_step e l)

-- The last n lines.
abbrev pub last : ℕ → List ConsoleLine → List ConsoleLine
last n lines = drop (length lines - n) lines

-- The ring has the last lines of the log, as many as fit.
pub record Shows (l : Log) (s : Console) : Type 0 where
  pub session_id : s.session_id ≡ l.session
  pub sequence : s.sequence ≡ l.published
  pub console : s.console ≡ last s.capacity l.all

drop-nil : (n : ℕ) → drop {A = ConsoleLine} n [] ≡ []
drop-nil zero = refl
drop-nil (suc n) = refl

drop-suc : (n : ℕ) (xs : List ConsoleLine) → drop 1 (drop n xs) ≡ drop (suc n) xs
drop-suc zero xs = refl
drop-suc (suc n) [] = refl
drop-suc (suc n) (x ∷ xs) = drop-suc n xs

drop-append :
    (n : ℕ) (xs ys : List ConsoleLine) → n ≤ length xs → drop n (xs ++ ys) ≡ drop n xs ++ ys
drop-append zero xs ys h = refl
drop-append (suc n) [] ys h = absurd (omega arith)
drop-append (suc n) (x ∷ xs) ys h = drop-append n xs ys (omega arith)

ring_add-last :
    (capacity : ℕ) (line : ConsoleLine) (xs : List ConsoleLine)
    → 1 ≤ capacity
    → ring_add capacity line (last capacity xs) ≡ last capacity (xs ++ (line ∷ []))
unfolding ring_add
ring_add-last capacity line xs h =
    let k = length xs - capacity in
    let n = length-append xs (line ∷ []) in
    let m = length-drop k xs in
    elim (Bool-cases (length (last capacity xs) == capacity)) [
      | inl full ↦
          let e = eq→≡ (length (last capacity xs)) capacity full in
          let more : suc k ≡ length (xs ++ (line ∷ [])) - capacity = omega (arith, m, e, h, n) in
          rw (full, ring_add)
            (ap (λ ys. ys ++ (line ∷ [])) (drop-suc k xs)
              ∙ sym (drop-append (suc k) xs (line ∷ []) (omega (arith, m, e, h)))
              ∙ ap (λ j. drop j (xs ++ (line ∷ []))) more)
      | inr free ↦
          let short : length xs < capacity = ground (arith, m) in
          let all : k ≡ 0 = omega (arith, short) in
          let still : 0 ≡ length (xs ++ (line ∷ [])) - capacity = omega (arith, short, n) in
          rw (free, ring_add)
            (ap (λ j. drop j xs ++ (line ∷ [])) all ∙ ap (λ j. drop j (xs ++ (line ∷ []))) still)
    ]

capacity-step : (e : Event) (s : Console) → (step e s).capacity ≡ s.capacity
unfolding add_console reset_console subscribe cancel receive publish
capacity-step (added stream content) s = refl
capacity-step (reset session) s = refl
capacity-step (subscribed after) s = refl
capacity-step (cancelled id) s = refl
capacity-step (received id) s = refl

capacity-run : (es : List Event) (s : Console) → (run es s).capacity ≡ s.capacity
unfolding run
capacity-run [] s = refl
capacity-run (e ∷ es) s = capacity-run es (step e s) ∙ capacity-step e s

step-Shows :
    (e : Event) (l : Log) (s : Console)
    → 1 ≤ s.capacity
    → Shows l s
    → Shows (log_step e l) (step e s)
unfolding add_console reset_console subscribe cancel receive publish
step-Shows (added stream content) l s h w = record {
  session_id = w.session_id;
  sequence = ap next w.sequence;
  console =
      rw (w.session_id, w.sequence, w.console)
        (ring_add-last s.capacity (output_line stream content l.session (next l.published)) l.all
          h);
}
step-Shows (reset session) l s h w = record {
  session_id = refl;
  sequence = ap next w.sequence;
  console =
      let line = reset_line session (next l.published) in
      rw w.sequence (
        ap (ring_add s.capacity line) (sym (drop-nil (0 - s.capacity)))
        ∙ ring_add-last s.capacity line [] h);
}
step-Shows (subscribed after) l s h w = record {
  session_id = w.session_id;
  sequence = w.sequence;
  console = w.console;
}
step-Shows (cancelled id) l s h w = record {
  session_id = w.session_id;
  sequence = w.sequence;
  console = w.console;
}
step-Shows (received id) l s h w = record {
  session_id = w.session_id;
  sequence = w.sequence;
  console = w.console;
}

run-Shows :
    (es : List Event) (l : Log) (s : Console)
    → 1 ≤ s.capacity
    → Shows l s
    → Shows (log_run es l) (run es s)
unfolding run log_run
run-Shows [] l s h w = w
run-Shows (e ∷ es) l s h w =
    run-Shows es (log_step e l) (step e s) (subst (λ n. 1 ≤ n) (sym (capacity-step e s)) h)
      (step-Shows e l s h w)

abbrev pub new_log : Log
new_log = record { session = []; published = 0; all = [] }

-- The history that a subscriber ought to get: the last lines of the log behind the one that he asks
-- for, or all of them where he asks for one that is still to come.
abbrev pub history : ℕ → ℕ → Log → List ConsoleLine
history capacity after l =
    ring_after (if ltb l.published after then 0 else after) (last capacity l.all)

-- The console of a new instance whose ring has room, after any calls, is that of the log: session
-- and sequence agree, the ring is the end of the log, and `Subscribe` answers with its history.
pub run-Shows-history :
    (es : List Event) (capacity after : ℕ)
    → 1 ≤ capacity
    → let s = run es (new_console capacity) in
      let l = log_run es new_log in Shows l s × ((subscribe after s).1 ≡ history capacity after l)
run-Shows-history es capacity after h =
    let s = run es (new_console capacity) in
    let l = log_run es new_log in
    let w =
      run-Shows es new_log (new_console capacity) h
        (record { session_id = refl; sequence = refl; console = sym (drop-nil (0 - capacity)) }) in
    (w, unfold subscribe in rw (w.sequence, w.console, capacity-run es (new_console capacity)) refl)
