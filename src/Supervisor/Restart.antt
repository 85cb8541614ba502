-- ===== src/Supervisor/Restart.antt =====
-- daemon/internal/supervisor/lifecycle.go: `allowAutoRestartLocked`, over the times of the restarts.
-- The clock is an argument; times are in nanoseconds.
pub mod Budget
use prism_panel.Common.{
  ℕ, ◌+◌, Bool, true, false, List, [], ◌∷◌, ◌++◌, ltb, leb, if◌then◌else◌, length, select,
}

-- 5 minutes
abbrev pub restart_window : ℕ
restart_window = 300_000_000_000

-- `item.After(now.Add(-5 * time.Minute))`
abbrev pub is_recent : ℕ → ℕ → Bool
is_recent now item = ltb now (item + restart_window)

-- The times that are kept, and whether there may be another restart.
unfoldable pub allow_auto_restart : List ℕ → ℕ → List ℕ × Bool
allow_auto_restart restarts now =
    let filtered = select (is_recent now) restarts in
    if leb 3 (length filtered) then (filtered, false) else (filtered ++ now ∷ [], true)

-- The times at which restarts were allowed, out of those at which they were asked for.
unfoldable pub allowed_restarts : List ℕ → List ℕ → List ℕ
allowed_restarts restarts [] = []
allowed_restarts restarts (now ∷ later) =
    let (kept, allowed) = allow_auto_restart restarts now in
    let rest = allowed_restarts kept later in if allowed then now ∷ rest else rest
