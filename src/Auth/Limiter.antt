-- ===== src/Auth/Limiter.antt =====
-- panel/internal/auth/limiter.go. Times are in nanoseconds, and 0 is the zero time.
use prism_panel.Common.{
  ℕ, suc, ◌+◌, ◌-◌, Bool, true, ◌&&◌, ◌||◌, not, List, [], ◌∷◌, Option, none, some, ltb, leb,
  if◌then◌else◌, ◌==◌, nat_eq, text_eq,
}
use prism_panel.Common.Text.{Text}
use prism_panel.Common.Dict.{Dict, lookup, insert, delete}

pub record Attempt : Type 0 where
  pub failures : ℕ
  pub window_start : ℕ
  pub blocked_until : ℕ

-- A missing key reads as the zero value.
abbrev pub zero_attempt : Attempt
zero_attempt = record { failures = 0; window_start = 0; blocked_until = 0 }

abbrev pub or_zero : Option Attempt → Attempt
or_zero none = zero_attempt
or_zero (some a) = a

abbrev pub Limiter : Type 0
Limiter = Dict Text Attempt

-- 15 minutes
abbrev pub window : ℕ
window = 900_000_000_000

unfoldable pub entry : Limiter → Text → Attempt
entry l key = or_zero (lookup key l)

unfoldable pub allowed : Limiter → List Text → ℕ → Bool
allowed l [] now = true
allowed l (key ∷ keys) now = not (ltb now (entry l key).blocked_until) && allowed l keys now

-- The window of an entry is over, or was never opened.
abbrev pub stale : Attempt → ℕ → Bool
stale a now = (a.window_start == 0) || ltb window (now - a.window_start)

abbrev pub opened : Attempt → ℕ → Attempt
opened a now =
    if stale a now then record { failures = 0; window_start = now; blocked_until = 0 } else a

-- `entry.failures++`, and the block from the fifth failure on.
unfoldable pub counted : Attempt → ℕ → Attempt
counted a now = record a {
  failures = suc a.failures;
  blocked_until = if leb 5 (suc a.failures) then now + window else a.blocked_until;
}

-- One round of the loop of `failure`.
unfoldable pub bump : Attempt → ℕ → Attempt
bump a now = counted (opened a now) now

unfoldable pub failure : Limiter → List Text → ℕ → Limiter
failure l [] now = l
failure l (key ∷ keys) now = failure (insert key (bump (entry l key) now) l) keys now

unfoldable pub success : Limiter → List Text → Limiter
success l [] = l
success l (key ∷ keys) = success (delete key l) keys
