-- ===== src/Files/Path.antt =====
-- daemon/internal/files/service.go: `normalizeRelative` and `securePath`, and `isRecyclePath` of
-- recycle.go. What `os.Lstat` answers and the functions of path/filepath are a parameter.
pub mod Inside
use prism_panel.Common.{
  Bool, true, false, ◌&&◌, ◌||◌, not, List, [], ◌∷◌, ◌++◌, if◌then◌else◌, ◌==◌, nat_eq, text_eq,
  contains,
}
use prism_panel.Common.Text.{Text, codes, has_prefix, split}
use prism_panel.Common.Error.{
  ErrorCode, Result, ok, err, ◌>>=◌, ◌>>◌, guard, file_not_found, invalid_request, path_escape,
}
use prism_panel.Ticket.Path.{slash, dot, dotdot, path_clean, slashed}

-- What `os.Lstat` says of a path.
pub data Stat : Type 0 where
  missing directory link file : Stat
  failing : ErrorCode → Stat

-- `leaves` is the last test of `securePath`: `Rel` from the root fails or starts with "..".
pub record System : Type 0 where
  pub is_absolute : Text → Bool
  pub abs : Text → Result Text
  pub join : Text → Text → Text
  pub leaves : Text → Text → Bool
  pub lstat : Text → Stat

abbrev pub recycle_bin_name : Text
recycle_bin_name = codes ".prism-recycle-bin"

unfoldable pub is_recycle_path : Text → Bool
is_recycle_path clean =
    (clean == recycle_bin_name) || has_prefix clean (recycle_bin_name ++ slash ∷ [])

abbrev pub check_root : Stat → Result (Unit {0})
check_root directory = ok tt
check_root link = err path_escape
check_root file = err path_escape
check_root missing = err file_not_found
check_root (failing e) = err e

-- The last element, which may be missing.
abbrev pub check_last : Bool → Text → Stat → Result Text
check_last allow_missing current missing = if allow_missing then ok current else err file_not_found
check_last allow_missing current (failing e) = err e
check_last allow_missing current link = err path_escape
check_last allow_missing current directory = ok current
check_last allow_missing current file = ok current

-- An element before it.
abbrev pub check_parent : Stat → Result (Unit {0})
check_parent missing = err file_not_found
check_parent (failing e) = err e
check_parent link = err path_escape
check_parent file = err invalid_request
check_parent directory = ok tt

module _ (os : System) where
  unfoldable pub normalize_relative : Text → Result Text
  normalize_relative raw =
      let value = slashed raw in
      if contains value 0 || has_prefix value (slash ∷ []) || os.is_absolute value
      then err path_escape
      else (if contains (split slash value) dotdot
          then err path_escape
          else (let clean = path_clean value in
              if (clean == dotdot) || has_prefix clean (codes "../")
              then err path_escape
              else ok clean))

  -- The loop of `securePath`.
  unfoldable pub walk : Bool → Text → List Text → Result Text
  walk allow_missing current [] = ok current
  walk allow_missing current (part ∷ []) =
      check_last allow_missing (os.join current part) (os.lstat (os.join current part))
  walk allow_missing current (part ∷ next ∷ more) =
      check_parent (os.lstat (os.join current part))
      >> walk allow_missing (os.join current part) (next ∷ more)

  abbrev pub check_inside : Text → Text → Result Text
  check_inside root path = if os.leaves root path then err path_escape else ok path

  abbrev pub from_root : Text → Text → Bool → Result Text
  from_root absolute clean allow_missing =
      if clean == dot
      then ok absolute
      else (walk allow_missing absolute (split slash clean) >>= check_inside absolute)

  unfoldable pub secure_path : Text → Text → Bool → Result Text
  secure_path root relative allow_missing = do
    clean ← normalize_relative relative
    guard (not (is_recycle_path clean)) path_escape
    absolute ← os.abs root
    check_root (os.lstat absolute)
    from_root absolute clean allow_missing
