-- ===== src/Supervisor/Restart/Budget.antt =====
-- However often a process dies, few restarts fall into any window of five minutes.
use prism_panel.Common.{
  ℕ, ◌+◌, ◌≤◌, ◌<◌, ◌≡◌, refl, inl, inr, ◌&&◌, List, [], ◌∷◌, ◌++◌, ltb, leb, if◌then◌else◌, length,
  select, arith, Bool-cases, length-append, length-select-le,
}
use prism_panel.Supervisor.Restart.{restart_window, is_recent, allow_auto_restart, allowed_restarts}

-- How many of the times lie in the window of five minutes that opens after `start`.
unfoldable pub within : ℕ → List ℕ → ℕ
within start [] = 0
within start (t ∷ ts) =
    (if ltb start t && leb t (start + restart_window) then 1 else 0) + within start ts

-- The times do not run backwards.
abbrev pub Ordered : ℕ → List ℕ → Type 0
Ordered from [] = Unit
Ordered from (t ∷ ts) = (from ≤ t) × Ordered t ts

within-append :
    (start : ℕ) (xs ys : List ℕ) → within start (xs ++ ys) ≡ within start xs + within start ys
unfolding within
within-append start [] ys = omega arith
within-append start (x ∷ xs) ys = omega (arith, within-append start xs ys)

within-le-length : (start : ℕ) (xs : List ℕ) → within start xs ≤ length xs
unfolding within
within-le-length start [] = omega arith
within-le-length start (x ∷ xs) = ground (arith, within-le-length start xs)

-- What has left the window of the present lies in no window that reaches the present.
within-select :
    (start now : ℕ) (xs : List ℕ)
    → now ≤ start + restart_window
    → within start (select (is_recent now) xs) ≡ within start xs
unfolding within
within-select start now [] h = refl
within-select start now (x ∷ xs) h = ground (arith, within-select start now xs h)

-- A window that has closed takes no later time.
within-late :
    (start now : ℕ) (xs : List ℕ)
    → start + restart_window < now
    → Ordered now xs
    → within start xs ≡ 0
unfolding within
within-late start now [] h o = refl
within-late start now (x ∷ xs) h o = ground (arith, within-late start x xs (omega arith) o.1)

within-allowed-late :
    (start now : ℕ) (restarts xs : List ℕ)
    → start + restart_window < now
    → Ordered now xs
    → within start (allowed_restarts restarts xs) ≡ 0
unfolding within allowed_restarts
within-allowed-late start now restarts [] h o = refl
within-allowed-late start now restarts (x ∷ xs) h o =
    ground
      (arith, within-allowed-late start x (allow_auto_restart restarts x).0 xs (omega arith) o.1)

pub length-allow :
    (restarts : List ℕ) (now : ℕ)
    → length restarts ≤ 3
    → length (allow_auto_restart restarts now).0 ≤ 3
unfolding allow_auto_restart
length-allow restarts now h = ground (
  arith,
  length-append (select (is_recent now) restarts) (now ∷ []),
  length-select-le (is_recent now) restarts,
)

within-allow :
    (start now : ℕ) (restarts : List ℕ)
    → now ≤ start + restart_window
    → within start (allow_auto_restart restarts now).0
      ≡ within start restarts
        + within start (if (allow_auto_restart restarts now).1 then now ∷ [] else [])
unfolding allow_auto_restart within
within-allow start now restarts h = ground (
  arith,
  within-select start now restarts h,
  within-append start (select (is_recent now) restarts) (now ∷ []),
)

-- The kept times in a window, and those that will be allowed.
within-kept-le :
    (start from : ℕ) (restarts xs : List ℕ)
    → length restarts ≤ 3
    → Ordered from xs
    → within start restarts + within start (allowed_restarts restarts xs) ≤ 3
unfolding within allowed_restarts
within-kept-le start from restarts [] l o = omega (arith, within-le-length start restarts)
within-kept-le start from restarts (now ∷ xs) l o =
    elim (Bool-cases (leb now (start + restart_window))) [
      | inl here ↦ ground (
        arith,
        within-allow start now restarts (ground arith),
        within-kept-le start now (allow_auto_restart restarts now).0 xs
            (length-allow restarts now l) o.1,
      )
      | inr past ↦ omega (
        arith,
        within-le-length start restarts,
        within-allowed-late start now restarts (now ∷ xs) (ground arith) (omega arith, o.1),
      )
    ]

-- Whatever the times at which a process dies unexpectedly, as long as the clock does not run
-- backwards, at most three automatic restarts are allowed in any window of five minutes.
pub within-allowed-le :
    (start from : ℕ) (xs : List ℕ) → Ordered from xs → within start (allowed_restarts [] xs) ≤ 3
unfolding within
within-allowed-le start from xs o = omega (arith, within-kept-le start from [] xs (omega arith) o)
