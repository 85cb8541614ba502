-- ===== src/Auth/Lockout.antt =====
-- When the limiter blocks a key.
use prism_panel.Common.{
  ℕ, suc, ◌+◌, ◌≤◌, ◌<◌, ◌≡◌, refl, ◌∙◌, ap, false, ◌&&◌, not, List, [], ◌∷◌, ltb, leb,
  if◌then◌else◌, ◌==◌, nat_eq, text_eq, arith, All, contains, length, eq_refl,
}
use prism_panel.Common.Text.{Text}
use prism_panel.Common.Dict.{insert, delete, lookup-insert, lookup-delete}
use prism_panel.Auth.Limiter.{
  Attempt, Limiter, window, entry, allowed, bump, counted, failure, success, zero_attempt,
}

entry-insert :
    (l : Limiter) (j k : Text) (a : Attempt)
    → entry (insert k a l) j ≡ (if j == k then a else entry l j)
unfolding entry
entry-insert l j k a = ground (arith, lookup-insert j k a l)

-- Failures on other keys leave a key alone.
pub entry-failure_other :
    (l : Limiter) (keys : List Text) (key : Text) (now : ℕ)
    → contains keys key ≡ false
    → entry (failure l keys now) key ≡ entry l key
unfolding failure
entry-failure_other l [] key now h = refl
entry-failure_other l (k ∷ keys) key now h = ground (
  arith,
  entry-failure_other (insert k (bump (entry l k) now) l) keys key now,
  entry-insert l key k (bump (entry l k) now),
)

entry-delete :
    (l : Limiter) (j k : Text) → entry (delete k l) j ≡ (if j == k then zero_attempt else entry l j)
unfolding entry
entry-delete l j k = ground (arith, lookup-delete j k l)

-- A success clears its keys, and no others.
pub entry-success :
    (l : Limiter) (keys : List Text) (key : Text)
    → entry (success l keys) key ≡ (if contains keys key then zero_attempt else entry l key)
unfolding success
entry-success l [] key = refl
entry-success l (k ∷ keys) key =
    ground (arith, entry-success (delete k l) keys key, entry-delete l key k)

-- Failures of one key, one after the other.
unfoldable pub fail_at : Limiter → Text → List ℕ → Limiter
fail_at l key [] = l
fail_at l key (now ∷ more) = fail_at (failure l (key ∷ []) now) key more

abbrev pub last : ℕ → List ℕ → ℕ
last now [] = now
last now (t ∷ ts) = last t ts

-- A time that lies in the window that opens at `start`.
abbrev pub InWindow : ℕ → ℕ → Type 0
InWindow start now = (start ≤ now) × (now ≤ start + window)

entry-failure :
    (l : Limiter) (key : Text) (now : ℕ)
    → entry (failure l (key ∷ []) now) key ≡ bump (entry l key) now
unfolding failure
entry-failure l key now = entry-insert l key key _ ∙ ground (arith, eq_refl key)

bump_all : Attempt → List ℕ → Attempt
bump_all a [] = a
bump_all a (now ∷ more) = bump_all (bump a now) more

entry-fail_at :
    (l : Limiter) (key : Text) (times : List ℕ)
    → entry (fail_at l key times) key ≡ bump_all (entry l key) times
unfolding fail_at bump_all
entry-fail_at l key [] = refl
entry-fail_at l key (now ∷ more) =
    entry-fail_at (failure l (key ∷ []) now) key more
    ∙ ap (λ a. bump_all a more) (entry-failure l key now)

bump-InWindow :
    (a : Attempt) (now : ℕ)
    → 0 < a.window_start
    → InWindow a.window_start now
    → bump a now ≡ counted a now
unfolding bump
bump-InWindow a now pos h = ground arith

-- The block that stands after further failures in the window.
abbrev blocked_after : Attempt → List ℕ → ℕ
blocked_after a [] = a.blocked_until
blocked_after a (now ∷ more) =
    if leb 5 (a.failures + suc (length more)) then last now more + window else a.blocked_until

bump_all_step :
    (a : Attempt) (now : ℕ) (more : List ℕ)
    → 0 < a.window_start
    → InWindow a.window_start now
    → bump_all a (now ∷ more) ≡ bump_all (counted a now) more
unfolding bump_all
bump_all_step a now more pos h = ap (λ b. bump_all b more) (bump-InWindow a now pos h)

bump_all-blocked :
    (a : Attempt) (times : List ℕ)
    → 0 < a.window_start
    → All (InWindow a.window_start) times
    → (bump_all a times).blocked_until ≡ blocked_after a times
unfolding counted
bump_all-blocked a [] pos h = unfold bump_all in refl
bump_all-blocked a (now ∷ []) pos h =
    ap (λ b. b.blocked_until) (bump_all_step a now [] pos h.0) ∙ unfold bump_all in ground arith
bump_all-blocked a (now ∷ next ∷ more) pos h =
    ap (λ b. b.blocked_until) (bump_all_step a now (next ∷ more) pos h.0)
    ∙ bump_all-blocked (counted a now) (next ∷ more) pos h.1
    ∙ ground arith

bump-zero :
    (now : ℕ)
    → bump zero_attempt now ≡ record { failures = 1; window_start = now; blocked_until = 0 }
unfolding bump counted
bump-zero now = ground arith

opening_block :
    (first : ℕ) (more : List ℕ)
    → 0 < first
    → All (InWindow first) more
    → (bump_all zero_attempt (first ∷ more)).blocked_until
      ≡ (if leb 4 (length more) then last first more + window else 0)
unfolding bump_all
opening_block first [] pos h = ap (λ b. b.blocked_until) (bump-zero first)
opening_block first (now ∷ more) pos h =
    ap (λ b. (bump_all b (now ∷ more)).blocked_until) (bump-zero first)
    ∙ bump_all-blocked (record { failures = 1; window_start = first; blocked_until = 0 })
        (now ∷ more) pos h
    ∙ ground arith

-- A key with no record that fails at a time, and then at more times within 15 minutes of it, is
-- blocked exactly if there are five failures or more, and then until 15 minutes after the last one.
pub allowed-fail_at :
    (l : Limiter) (key : Text) (first : ℕ) (more : List ℕ) (now : ℕ)
    → entry l key ≡ zero_attempt
    → 0 < first
    → All (InWindow first) more
    → allowed (fail_at l key (first ∷ more)) (key ∷ []) now
      ≡ not (leb 4 (length more) && ltb now (last first more + window))
unfolding allowed
allowed-fail_at l key first more now fresh pos h =
    let e = entry-fail_at l key (first ∷ more) ∙ ap (λ a. bump_all a (first ∷ more)) fresh in
    let b = ap (λ a. a.blocked_until) e ∙ opening_block first more pos h in rw b (ground arith)
