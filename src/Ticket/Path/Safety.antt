-- ===== src/Ticket/Path/Safety.antt =====
-- What `normalizePath` and `ticketPathAllowed` guarantee, read on the elements of a path.
use mathlib.Core.List.{reverse, reverse-cons}
use prism_panel.Common.{
  ◌≡◌, refl, sym, subst, ◌≢◌, ◌⊎◌, inl, inr, false, Bool-cases, List, [], ◌∷◌, arith, if◌then◌else◌,
  ◌==◌, text_eq, contains, All, All-append,
}
use prism_panel.Common.Text.{Text, has_prefix, split, join}
use prism_panel.Common.Text.Laws.{IsFree, split-IsFree, split-join}
use prism_panel.Common.Error.{ok}
use prism_panel.Ticket.Path.{
  slash, dot, dotdot, clean_part, clean_parts, path_clean, slashed, normalize_path,
}

-- An element that stands for itself, and cannot leave the directory.
abbrev pub IsPlain : Text → Type 0
IsPlain part = (part ≢ []) × (part ≢ dot) × (part ≢ dotdot)

abbrev IsElement : Text → Type 0
IsElement part = IsFree slash part × (part ≢ []) × (part ≢ dot) × (part ≢ dotdot)

clean_part-All :
    (out : List Text) (part : Text)
    → All IsElement out
    → IsFree slash part
    → part ≢ dotdot
    → All IsElement (clean_part false out part)
unfolding clean_part
clean_part-All out part h f n = ground arith

clean_parts-All :
    (out parts : List Text)
    → All IsElement out
    → All (IsFree slash) parts
    → contains parts dotdot ≡ false
    → All IsElement (clean_parts false out parts)
unfolding clean_parts
clean_parts-All out [] h f n = h
clean_parts-All out (part ∷ parts) h f n =
    clean_parts-All (clean_part false out part) parts (clean_part-All out part h f.0 (ground arith))
      f.1 (ground arith)

reverse-All : (xs : List Text) → All IsElement xs → All IsElement (reverse xs)
reverse-All [] h = tt
reverse-All (x ∷ xs) h =
    rw (reverse-cons x xs)
      (All-append IsElement (reverse xs) (x ∷ []) (reverse-All xs h.1) (h.0, tt))

abbrev pub Confined : Text → Type 0
Confined p = (p ≡ dot) ⊎ All IsPlain (split slash p)

IsPlain-of_elements : (ps : List Text) → All IsElement ps → All IsPlain ps
IsPlain-of_elements [] h = tt
IsPlain-of_elements (p ∷ ps) h = ((h.0.1, h.0.2, h.0.3), IsPlain-of_elements ps h.1)

IsFree-of_elements : (ps : List Text) → All IsElement ps → All (IsFree slash) ps
IsFree-of_elements [] h = tt
IsFree-of_elements (p ∷ ps) h = (h.0.0, IsFree-of_elements ps h.1)

join-Confined :
    (ps : List Text)
    → All IsElement ps
    → Confined (if join slash ps == [] then dot else join slash ps)
unfolding join
join-Confined [] h = ground arith
join-Confined (p ∷ ps) h =
    let e = split-join slash p ps (IsFree-of_elements (p ∷ ps) h) in
    elim (Bool-cases (join slash (p ∷ ps) == [])) [
      | inl empty ↦ rw empty (inl refl)
      | inr full ↦ rw full (inr (rw e (IsPlain-of_elements (p ∷ ps) h)))
    ]

pub path_clean-Confined :
    (value : Text)
    → has_prefix value (slash ∷ []) ≡ false
    → contains (split slash value) dotdot ≡ false
    → Confined (path_clean value)
unfolding path_clean
path_clean-Confined value h n = rw h (
    join-Confined _
      (reverse-All _ (clean_parts-All [] (split slash value) tt (split-IsFree slash value) n)))

normalize_path_inv :
    (raw p : Text)
    → normalize_path raw ≡ ok p
    → let value = slashed raw in
      (has_prefix value (slash ∷ []) ≡ false)
      × (contains (split slash value) dotdot ≡ false)
      × (p ≡ path_clean value)
unfolding normalize_path
normalize_path_inv raw p h = ground arith

-- A path that `normalizePath` accepts is ".", or each of its elements between slashes is a proper
-- name: not empty (so no leading, trailing or doubled slash), not "." and not "..".
pub normalize_path-Confined : (raw p : Text) → normalize_path raw ≡ ok p → Confined p
normalize_path-Confined raw p h =
    let i = normalize_path_inv raw p h in
    subst Confined (sym i.2) (path_clean-Confined (slashed raw) i.0 i.1)
