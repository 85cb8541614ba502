-- ===== src/Ticket/Path/Scope.antt =====
-- `normalizePath` and `ticketPathAllowed` decide what they are meant to.
use mathlib.Core.List.{append-nil, append_assoc}
use prism_panel.Common.{
  ◌≡◌, refl, sym, ap, subst, ◌∙◌, ◌≢◌, ◌↔◌, ◌⊎◌, inl, inr, Bool, true, false, ◌||◌, Bool-cases,
  List, [], ◌∷◌, ◌++◌, arith, if◌then◌else◌, ◌==◌, text_eq, nat_eq, contains, All,
}
use prism_panel.Common.Text.{Text, codes, has_prefix, split, join}
use prism_panel.Common.Text.Laws.{
  split-NonEmpty, split-append, has_prefix_rest, has_prefix-append, join-split, join-append,
}
use prism_panel.Common.Error.{ok, err, path_escape}
use prism_panel.Ticket.Path.{slash, dot, dotdot, path_clean, slashed, normalize_path, path_allowed}
use prism_panel.Ticket.Path.Safety.{IsPlain, Confined, path_clean-Confined}

split-dotdot : split slash dotdot ≡ dotdot ∷ []
unfolding split nat_eq
split-dotdot = refl

Confined-ne-dotdot : (p : Text) → Confined p → p ≢ dotdot
Confined-ne-dotdot p (inl e) h = cc
Confined-ne-dotdot p (inr a) h =
    (subst (All IsPlain) split-dotdot (subst (λ q. All IsPlain (split slash q)) h a)).0.2 refl

split_climbing : (r : Text) → split slash (codes "../" ++ r) ≡ dotdot ∷ split slash r
split_climbing r = split-append slash dotdot r ∙ ap (λ ps. ps ++ split slash r) split-dotdot

Confined-no_climb : (p : Text) → Confined p → has_prefix p (codes "../") ≡ false
Confined-no_climb p c = elim (Bool-cases (has_prefix p (codes "../"))) [
  | inr no_climb ↦ no_climb
  | inl climb ↦ absurd (refute c (has_prefix_rest p (codes "../") climb))
]
  where
    refute : Confined p → (r : Text) × (p ≡ codes "../" ++ r) → ⊥
    refute (inl e) (r, f) = cc
    refute (inr a) (r, f) =
        (subst (All IsPlain) (split_climbing r) (subst (λ q. All IsPlain (split slash q)) f a)).0.2
          refl

-- The text that `normalizePath` looks at holds a NUL, starts at the root or climbs by an element
-- "..".
abbrev pub escapes : Text → Bool
escapes value =
    contains value 0 || has_prefix value (slash ∷ []) || contains (split slash value) dotdot

-- `normalizePath` fails exactly on a text that holds a NUL, starts with a slash or has an element
-- "..", after trimming and after backslashes have become slashes. On every other text it returns
-- what `path.Clean` makes of it: the check of the cleaned path never fires.
pub normalize_path_decides :
    (raw : Text)
    → normalize_path raw
      ≡ (if escapes (slashed raw) then err path_escape else ok (path_clean (slashed raw)))
unfolding normalize_path
normalize_path_decides raw = ground (
  arith,
  λ (h : has_prefix (slashed raw) (slash ∷ []) ≡ false)
        (n : contains (split slash (slashed raw)) dotdot ≡ false).
      Confined-ne-dotdot _ (path_clean-Confined (slashed raw) h n),
  λ (h : has_prefix (slashed raw) (slash ∷ []) ≡ false)
        (n : contains (split slash (slashed raw)) dotdot ≡ false).
      Confined-no_climb _ (path_clean-Confined (slashed raw) h n),
)

-- Every element of the one path, and then some.
abbrev pub Below : Text → Text → Type 0
Below path request = (rest : List Text) × (split slash request ≡ split slash path ++ rest)

prefix-Below :
    (path request : Text) → has_prefix request (path ++ slash ∷ []) ≡ true → Below path request
prefix-Below path request h =
    let (r, e) = has_prefix_rest request (path ++ slash ∷ []) h in
    (split slash r, ap (split slash) (e ∙ append_cons path r) ∙ split-append slash path r)
  where
    append_cons : (p r : Text) → (p ++ slash ∷ []) ++ r ≡ p ++ slash ∷ r
    append_cons p r = append_assoc p (slash ∷ []) r

Below-prefix :
    (path request : Text)
    → Below path request
    → (request ≡ path) ⊎ (has_prefix request (path ++ slash ∷ []) ≡ true)
Below-prefix path request ([], e) =
    inl
      (sym (join-split slash request) ∙ ap (join slash) (e ∙ append-nil _) ∙ join-split slash path)
Below-prefix path request (q ∷ qs, e) = inr (
    subst (λ s. has_prefix s (path ++ slash ∷ []) ≡ true) (sym whole)
      (has_prefix-append (path ++ slash ∷ []) (join slash (q ∷ qs))))
  where
    whole : request ≡ (path ++ slash ∷ []) ++ join slash (q ∷ qs)
    whole =
        sym (join-split slash request)
        ∙ ap (join slash) e
        ∙ join-append slash (split slash path) q qs (split-NonEmpty slash path)
        ∙ ap (λ s. s ++ slash ∷ join slash (q ∷ qs)) (join-split slash path)
        ∙ sym (append_assoc path (slash ∷ []) (join slash (q ∷ qs)))

abbrev pub Covers : Bool → Text → Text → Type 0
Covers path_prefix path request = (path_prefix ≡ true) × ((path ≡ dot) ⊎ Below path request)

directory_test : Text → Text → Bool
directory_test path request =
    (path == dot) || (request == path) || has_prefix request (path ++ slash ∷ [])

directory_test-Below :
    (path request : Text) → directory_test path request ≡ true → (path ≡ dot) ⊎ Below path request
unfolding directory_test
directory_test-Below path request h = ground (arith, here, prefix-Below path request)
  where
    here : request ≡ path → Below path request
    here e = ([], ap (split slash) e ∙ sym (append-nil _))

Below-directory_test :
    (path request : Text) → (path ≡ dot) ⊎ Below path request → directory_test path request ≡ true
unfolding directory_test
Below-directory_test path request (inl e) = ground arith
Below-directory_test path request (inr b) = ground (arith, Below-prefix path request b)

-- A ticket admits a path exactly if it lists it, or covers a directory (the whole root, or a
-- path whose elements are the first elements of the request): "plugins" covers "plugins/a.jar",
-- and not "plugins-old".
pub path_allowed_iff :
    (paths : List Text) (path_prefix : Bool) (path request : Text)
    → (path_allowed paths path_prefix path request ≡ true)
      ↔ ((contains paths request ≡ true) ⊎ Covers path_prefix path request)
unfolding path_allowed
path_allowed_iff paths path_prefix path request = (
  λ h. elim (Bool-cases (contains paths request)) [
    | inl listed ↦ inl listed
    | inr unlisted ↦
        inr
          (ground arith, directory_test-Below path request (unfold directory_test in ground arith))
  ],
  elim [
    | inl listed ↦ ground arith
    | inr (marked, covers) ↦
        unfold directory_test in ground (arith, Below-directory_test path request covers)
  ],
)
