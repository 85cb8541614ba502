-- ===== src/Session/Command.antt =====
-- sessiond/internal/host/host.go: `splitCommand`.
pub mod Quoting
use prism_panel.Common.{
  ℕ, Bool, true, false, ◌&&◌, not, List, [], ◌∷◌, ◌++◌, Option, none, some, if◌then◌else◌, ◌==◌,
  nat_eq, text_eq,
}
use prism_panel.Common.Text.{Text}

pub record Scan : Type 0 where
  pub fields : List Text
  pub current : Text
  pub in_quote : Bool

abbrev pub quote : ℕ
quote = 34

abbrev pub space : ℕ
space = 32

-- `if len(current) > 0`
unfoldable pub flush : Scan → Scan
flush s =
    if s.current == [] then s else record s { fields = s.fields ++ s.current ∷ []; current = [] }

unfoldable pub scan_one : ℕ → Scan → Scan
scan_one c s =
    if c == quote
    then record s { in_quote = not s.in_quote }
    else (if (c == space) && not s.in_quote
        then flush s
        else record s { current = s.current ++ c ∷ [] })

unfoldable pub scan : Scan → Text → Scan
scan s [] = s
scan s (c ∷ cs) = scan (scan_one c s) cs

-- `none` is the error of a quote that does not end.
unfoldable pub split_command : Text → Option (List Text)
split_command command =
    let s = scan (record { fields = []; current = []; in_quote = false }) command in
    if s.in_quote then none else some (flush s).fields
