-- ===== src/Common/Text/Laws.antt =====
-- Splitting, joining and prefixes of texts.
use mathlib.Core.Path.{◌≡◌, refl, sym, ap, ◌∙◌}
use mathlib.Core.Bool.{true, false}
use mathlib.Core.List.{List, [], ◌∷◌, ◌++◌, append_assoc}
use Prim.Native.Nat.{ℕ}
use native.Mathlib.Omega.{arith}
use prism_panel.Common.Lists.{All}
use prism_panel.Common.Equality.{nat_eq, contains}
use prism_panel.Common.Text.{push_char, Text, split, join, has_prefix}

abbrev pub IsFree : ℕ → Text → Type 0
IsFree sep s = contains s sep ≡ false

abbrev pub NonEmpty {ℓ} : {A : Type ℓ} → List A → Type 0
NonEmpty [] = ⊥
NonEmpty (x ∷ xs) = Unit

pub split-NonEmpty : (sep : ℕ) (s : Text) → NonEmpty (split sep s)
unfolding split
split-NonEmpty sep [] = tt
split-NonEmpty sep (c ∷ s) = ground (arith, split-NonEmpty sep s)

pub split-IsFree : (sep : ℕ) (s : Text) → All (IsFree sep) (split sep s)
unfolding split
split-IsFree sep [] = (refl, tt)
split-IsFree sep (c ∷ s) = ground (arith, split-IsFree sep s)

pub split_free : (sep : ℕ) (p : Text) → IsFree sep p → split sep p ≡ p ∷ []
unfolding split
split_free sep [] h = refl
split_free sep (c ∷ p) h = ground (arith, split_free sep p)

-- A separator cuts the text in two, whose pieces follow one another.
pub split-append : (sep : ℕ) (a b : Text) → split sep (a ++ sep ∷ b) ≡ split sep a ++ split sep b
unfolding split
split-append sep [] b = ground (arith, split-NonEmpty sep b)
split-append sep (c ∷ a) b = ground (arith, split-append sep a b, split-NonEmpty sep a)

pub split-join :
    (sep : ℕ) (p : Text) (ps : List Text)
    → All (IsFree sep) (p ∷ ps)
    → split sep (join sep (p ∷ ps)) ≡ p ∷ ps
unfolding join
split-join sep p [] h = split_free sep p h.0
split-join sep p (q ∷ ps) h =
    rw (split-append sep p (join sep (q ∷ ps)), split_free sep p h.0, split-join sep q ps h.1)

pub has_prefix-append : (p s : Text) → has_prefix (p ++ s) p ≡ true
unfolding has_prefix
has_prefix-append [] [] = refl
has_prefix-append [] (c ∷ s) = refl
has_prefix-append (c ∷ p) s = ground (arith, has_prefix-append p s)

pub has_prefix_rest : (s p : Text) → has_prefix s p ≡ true → (r : Text) × (s ≡ p ++ r)
unfolding has_prefix
has_prefix_rest s [] h = (s, refl)
has_prefix_rest [] (c ∷ p) h = cc
has_prefix_rest (d ∷ s) (c ∷ p) h =
    let (r, e) = has_prefix_rest s p (ground arith) in (r, ground arith)

join-push_char :
    (sep c : ℕ) (ps : List Text) → NonEmpty ps → join sep (push_char sep c ps) ≡ c ∷ join sep ps
unfolding join push_char
join-push_char sep c [] h = absurd h
join-push_char sep c (p ∷ []) h = ground arith
join-push_char sep c (p ∷ q ∷ ps) h = ground arith

pub join-split : (sep : ℕ) (s : Text) → join sep (split sep s) ≡ s
unfolding join split
join-split sep [] = refl
join-split sep (c ∷ s) =
    join-push_char sep c (split sep s) (split-NonEmpty sep s) ∙ ap (◌∷◌ c) (join-split sep s)

pub join-append :
    (sep : ℕ) (ps : List Text) (q : Text) (qs : List Text)
    → NonEmpty ps
    → join sep (ps ++ q ∷ qs) ≡ join sep ps ++ sep ∷ join sep (q ∷ qs)
unfolding join
join-append sep [] q qs h = absurd h
join-append sep (p ∷ []) q qs h = refl
join-append sep (p ∷ p' ∷ ps) q qs h =
    rw (join-append sep (p' ∷ ps) q qs tt)
      (sym (append_assoc p (sep ∷ join sep (p' ∷ ps)) (sep ∷ join sep (q ∷ qs))))
