-- ===== src/Session/Command/Quoting.antt =====
-- A command line of quoted fields is split into these fields.
use mathlib.Core.List.{append_assoc, append-nil}
use prism_panel.Common.{
  ℕ, ◌≡◌, ◌≢◌, refl, sym, ap, ◌∙◌, Bool, true, false, List, [], ◌∷◌, ◌++◌, some, ◌==◌, nat_eq,
  text_eq, All, arith,
}
use prism_panel.Common.Text.{Text}
use prism_panel.Session.Command.{Scan, quote, space, flush, scan_one, scan, split_command}

-- A field in quotes, and a space.
unfoldable pub line_of : List Text → Text
line_of [] = []
line_of (f ∷ fs) = quote ∷ (f ++ quote ∷ space ∷ line_of fs)

-- It is not empty and has no quote.
abbrev pub IsField : Text → Type 0
IsField f = (f ≢ []) × All (λ c. (c == quote) ≡ false) f

abbrev scanning : List Text → Text → Bool → Scan
scanning fields current in_quote = record {
  fields = fields;
  current = current;
  in_quote = in_quote;
}

scan_plain :
    (fields : List Text) (current : Text) (c : ℕ)
    → (c == quote) ≡ false
    → scan_one c (scanning fields current true) ≡ scanning fields (current ++ c ∷ []) true
unfolding scan_one
scan_plain fields current c e = ground arith

scan_quoted :
    (fields : List Text) (current f rest : Text)
    → All (λ c. (c == quote) ≡ false) f
    → scan (scanning fields current true) (f ++ rest)
      ≡ scan (scanning fields (current ++ f) true) rest
unfolding scan
scan_quoted fields current [] rest h =
    ap (λ x. scan (scanning fields x true) rest) (sym (append-nil current))
scan_quoted fields current (c ∷ f) rest h =
    ap (λ x. scan x (f ++ rest)) (scan_plain fields current c h.0)
    ∙ scan_quoted fields (current ++ c ∷ []) f rest h.1
    ∙ ap (λ x. scan (scanning fields x true) rest) (append_assoc current (c ∷ []) f)

close_field :
    (fields : List Text) (f rest : Text)
    → f ≢ []
    → scan (scanning fields f true) (quote ∷ space ∷ rest)
      ≡ scan (scanning (fields ++ f ∷ []) [] false) rest
unfolding scan scan_one flush
close_field fields f rest n = ground arith

scan_line :
    (fields fs : List Text)
    → All IsField fs
    → scan (scanning fields [] false) (line_of fs) ≡ scanning (fields ++ fs) [] false
unfolding scan scan_one line_of nat_eq
scan_line fields [] h = ap (λ x. scanning x [] false) (sym (append-nil fields))
scan_line fields (f ∷ fs) h =
    scan_quoted fields [] f (quote ∷ space ∷ line_of fs) h.0.1
    ∙ close_field fields f (line_of fs) h.0.0
    ∙ scan_line (fields ++ f ∷ []) fs h.1
    ∙ ap (λ x. scanning x [] false) (append_assoc fields (f ∷ []) fs)

-- `splitCommand` reads a line of quoted fields, none of them empty or with a quote inside, back as
-- these fields, whatever spaces they hold.
pub split_command-line_of : (fs : List Text) → All IsField fs → split_command (line_of fs) ≡ some fs
unfolding split_command flush text_eq
split_command-line_of fs h = rw (scan_line [] fs h, split_command) refl
