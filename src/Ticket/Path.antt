-- ===== src/Ticket/Path.antt =====
-- daemon/internal/ticket/manager.go: `normalizePath` and `ticketPathAllowed`, with `path.Clean`.
pub mod Safety
pub mod Scope
use mathlib.Core.List.{reverse}
use prism_panel.Common.{
  ℕ, Bool, true, false, ◌&&◌, ◌||◌, List, [], ◌∷◌, ◌++◌, map, if◌then◌else◌, ◌==◌, nat_eq, text_eq,
  contains,
}
use prism_panel.Common.Text.{Text, codes, trim_space, has_prefix, split, join}
use prism_panel.Common.Error.{Result, ok, err, path_escape}

abbrev pub slash : ℕ
slash = b'/'

abbrev pub dot : Text
dot = codes "."

abbrev pub dotdot : Text
dotdot = codes ".."

-- A ".." takes back the last element, unless that is a ".." too; at a root it is dropped.
unfoldable pub climb : Bool → List Text → List Text
climb rooted [] = if rooted then [] else dotdot ∷ []
climb rooted (top ∷ rest) = if top == dotdot then dotdot ∷ top ∷ rest else rest

-- One element of the path, on the stack of the elements kept, the last one first.
unfoldable pub clean_part : Bool → List Text → Text → List Text
unfolding climb
clean_part rooted out part =
    if (part == []) || (part == dot)
    then out
    else (if part == dotdot then climb rooted out else part ∷ out)

unfoldable pub clean_parts : Bool → List Text → List Text → List Text
clean_parts rooted out [] = out
clean_parts rooted out (part ∷ parts) = clean_parts rooted (clean_part rooted out part) parts

-- `path.Clean`
unfoldable pub path_clean : Text → Text
path_clean value =
    let rooted = has_prefix value (slash ∷ []) in
    let body = join slash (reverse (clean_parts rooted [] (split slash value))) in
    if rooted then slash ∷ body else (if body == [] then dot else body)

-- `strings.ReplaceAll(strings.TrimSpace(value), "\\", "/")`, and "." for the empty text
unfoldable pub slashed : Text → Text
slashed value =
    let s = map (λ c. if c == b'\\' then slash else c) (trim_space value) in
    if s == [] then dot else s

unfoldable pub normalize_path : Text → Result Text
normalize_path raw =
    let value = slashed raw in
    if contains value 0 || has_prefix value (slash ∷ [])
    then err path_escape
    else (if contains (split slash value) dotdot
        then err path_escape
        else (let clean = path_clean value in
            if (clean == dotdot) || has_prefix clean (codes "../")
            then err path_escape
            else ok clean))

-- `ticketPathAllowed`, over the fields `Paths`, `PathPrefix` and `Path` of the ticket
unfoldable pub path_allowed : List Text → Bool → Text → Text → Bool
path_allowed paths path_prefix path request =
    contains paths request
    || (path_prefix
        && ((path == dot) || (request == path) || has_prefix request (path ++ slash ∷ [])))
