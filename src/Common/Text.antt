-- ===== src/Common/Text.antt =====
-- Go strings as lists of code points, and the functions of package `strings` that the programs
-- call: `TrimSpace`, `Split`, `Join`, `ReplaceAll` of one character, `HasPrefix`, and a map over
-- the characters.
pub mod Laws
use Prim.Native.Char.{code}
use Prim.Native.String.{String}
use Prim.Native.Nat.{ℕ, ◌+◌}
use mathlib.Core.Bool.{Bool, true, false, ◌&&◌, ◌||◌}
use mathlib.Core.List.{List, [], ◌∷◌, ◌++◌, reverse}
use prism_panel.Common.Tests.{ltb, leb, if◌then◌else◌}
use prism_panel.Common.Equality.{nat_eq, ◌==◌}

abbrev pub Text : Type 0
Text = List ℕ

-- The code points of a literal. `String` has its own `[]` and `∷`.
abbrev pub codes : String → Text
codes String.[] = []
codes (String.◌∷◌ c s) = code c ∷ codes s

-- `unicode.IsSpace`
unfoldable pub is_space : ℕ → Bool
is_space c =
    (leb 9 c && leb c 13)
    || (c == 32)
    || (c == 0x85)
    || (c == 0xa0)
    || (c == 0x1680)
    || (leb 0x2000 c && leb c 0x200a)
    || (c == 0x2028)
    || (c == 0x2029)
    || (c == 0x202f)
    || (c == 0x205f)
    || (c == 0x3000)

-- `strings.TrimLeftFunc` and `strings.TrimSpace`
unfoldable pub trim_left : Text → Text
trim_left [] = []
trim_left (c ∷ s) = let rest = trim_left s in if is_space c then rest else c ∷ s

unfoldable pub trim_space : Text → Text
trim_space s = reverse (trim_left (reverse (trim_left s)))

-- `strings.HasPrefix`
unfoldable pub has_prefix : Text → Text → Bool
has_prefix s [] = true
has_prefix [] (p ∷ ps) = false
has_prefix (c ∷ s) (p ∷ ps) = (c == p) && has_prefix s ps

-- One more character in front of the pieces that follow it.
unfoldable pub push_char : ℕ → ℕ → List Text → List Text
push_char sep c [] = [] ∷ []
push_char sep c (piece ∷ rest) = if c == sep then [] ∷ piece ∷ rest else (c ∷ piece) ∷ rest

-- `strings.Split` by one character: one piece more than there are separators.
unfoldable pub split : ℕ → Text → List Text
unfolding push_char
split sep [] = [] ∷ []
split sep (c ∷ s) = push_char sep c (split sep s)

-- `strings.Join` by one character
unfoldable pub join : ℕ → List Text → Text
join sep [] = []
join sep (p ∷ []) = p
join sep (p ∷ q ∷ ps) = p ++ (sep ∷ join sep (q ∷ ps))

-- How many bytes the code points take.
unfoldable pub utf8_length : Text → ℕ
utf8_length [] = 0
utf8_length (c ∷ cs) =
    (if ltb c 128 then 1 else (if ltb c 2048 then 2 else (if ltb c 65_536 then 3 else 4)))
    + utf8_length cs
