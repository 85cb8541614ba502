-- ===== src/Schedule/Command.antt =====
-- panel/internal/consolecommand/validate.go: which commands the panel keeps for itself.
use prism_panel.Common.{
  ℕ, Bool, true, ◌||◌, not, List, [], ◌∷◌, map, contains, if◌then◌else◌, ◌==◌, nat_eq, text_eq,
}
use prism_panel.Common.Text.{Text, codes, is_space, trim_space}

-- One more character in front of the words; a word that is not begun is empty.
abbrev pub push_word : ℕ → List Text → List Text
push_word c [] = if is_space c then [] else (c ∷ []) ∷ []
push_word c (w ∷ ws) =
    if is_space c then (if w == [] then w ∷ ws else [] ∷ w ∷ ws) else (c ∷ w) ∷ ws

unfoldable pub words_from : Text → List Text
words_from [] = []
words_from (c ∷ cs) = push_word c (words_from cs)

-- `strings.Fields`
unfoldable pub fields : Text → List Text
fields s = elim (words_from s) [ [] ↦ [] | w ∷ ws ↦ if w == [] then ws else w ∷ ws ]

-- `strings.TrimPrefix(…, "/")`
abbrev pub without_slash : Text → Text
without_slash [] = []
without_slash (c ∷ cs) = if c == 47 then cs else c ∷ cs

-- What stands behind the last colon, or all.
unfoldable pub after_colon : Text → Text
after_colon [] = []
after_colon (c ∷ cs) =
    let rest = after_colon cs in if contains cs 58 then rest else (if c == 58 then cs else c ∷ cs)

-- `Validate`: is the command let through?
unfoldable pub command_allowed : (ℕ → ℕ) → Text → Bool → Bool
command_allowed lower command manage_operators =
    if not manage_operators then true else elim (fields (trim_space command)) [
      | [] ↦ true
      | first ∷ rest ↦
          let root = after_colon (map lower (without_slash first)) in
          not ((root == codes "op") || (root == codes "deop"))
    ]
