-- ===== src/Files/Upload/Lifetime.antt =====
-- How long the sessions of `UploadChunk` last over calls at different times.
use prism_panel.Common.{
  ℕ, ◌+◌, ◌≤◌, ◌≡◌, refl, ◌∙◌, ◌⊎◌, inl, inr, true, false, List, [], ◌∷◌, none, ◌==◌, text_eq,
  eq_refl, arith, ltb, if_false, Bool-cases,
}
use prism_panel.Common.Text.{Text}
use prism_panel.Common.Dict.{Dict, lookup, insert}
use prism_panel.Files.Upload.{
  Node, Session, Uploads, is_expired, clean_from, clean_up, upload_session_ttl,
}

-- Each call comes within the lifetime of a session after the one before, and none after the end.
abbrev pub InTime : ℕ → ℕ → List (ℕ × Text) → Type 0
InTime end last [] = Unit
InTime end last ((now, part) ∷ calls) =
    (now ≤ end) × (now ≤ last + upload_session_ttl) × InTime end now calls

-- No session has expired.
abbrev pub AllRecent : ℕ → Dict Text Session → Type 0
AllRecent now [] = Unit
AllRecent now ((id, s) ∷ more) = (is_expired now s ≡ false) × AllRecent now more

clean_from_recent :
    (now : ℕ) (kept more : Dict Text Session) (files : Dict Text Node)
    → AllRecent now more
    → clean_from now kept more files ≡ record { sessions = kept; files = files }
clean_from_recent now kept [] files r = refl
clean_from_recent now kept ((id, s) ∷ more) files (e, r) =
    if_false (is_expired now s) _ _ e ∙ clean_from_recent now kept more files r

pub clean_up_recent : (now : ℕ) (u : Uploads) → AllRecent now u.sessions → clean_up now u ≡ u
unfolding clean_up
clean_up_recent now u r = clean_from_recent now u.sessions u.sessions u.files r

pub not_ltb : (m n : ℕ) → n ≤ m → ltb m n ≡ false
not_ltb m n h = ground arith

earlier-AllRecent :
    (end now : ℕ) (m : Dict Text Session) → now ≤ end → AllRecent end m → AllRecent now m
earlier-AllRecent end now [] h r = tt
earlier-AllRecent end now ((id, s) ∷ m) h (e, r) =
    (ground (arith, e, h), earlier-AllRecent end now m h r)

-- One session was last used at a time; the others do not expire before the end.
abbrev pub LastsFrom : ℕ → ℕ → Text → Dict Text Session → Type 0
LastsFrom end last id [] = Unit
LastsFrom end last id ((j, s) ∷ m) =
    ((id == j ≡ true) × (s.last_used ≡ last) × AllRecent end m)
    ⊎ ((id == j ≡ false) × (is_expired end s ≡ false) × LastsFrom end last id m)

pub LastsFrom-AllRecent :
    (end last now : ℕ) (id : Text) (m : Dict Text Session)
    → now ≤ end
    → now ≤ last + upload_session_ttl
    → LastsFrom end last id m
    → AllRecent now m
LastsFrom-AllRecent end last now id [] h k r = tt
LastsFrom-AllRecent end last now id ((j, s) ∷ m) h k (inl (e, l, r)) =
    (not_ltb _ _ (omega (arith, k, l)), earlier-AllRecent end now m h r)
LastsFrom-AllRecent end last now id ((j, s) ∷ m) h k (inr (e, f, r)) =
    (ground (arith, f, h), LastsFrom-AllRecent end last now id m h k r)

pub insert-LastsFrom :
    (end last now : ℕ) (id : Text) (s : Session) (m : Dict Text Session)
    → s.last_used ≡ now
    → LastsFrom end last id m
    → LastsFrom end now id (insert id s m)
unfolding insert
insert-LastsFrom end last now id s [] l r = inl (eq_refl id, l, tt)
insert-LastsFrom end last now id s ((j, t) ∷ m) l (inl (e, k, r)) = rw e (inl (eq_refl id, l, r))
insert-LastsFrom end last now id s ((j, t) ∷ m) l (inr (e, f, r)) =
    rw e (inr (e, f, insert-LastsFrom end last now id s m l r))

pub new-LastsFrom :
    (end last : ℕ) (id : Text) (m : Dict Text Session)
    → lookup id m ≡ none
    → AllRecent end m
    → LastsFrom end last id m
unfolding lookup
new-LastsFrom end last id [] n r = tt
new-LastsFrom end last id ((j, s) ∷ m) n (e, r) = elim (Bool-cases (id == j)) [
  | inl own ↦ absurd (ground (arith, n, own))
  | inr other ↦ inr (other, e, new-LastsFrom end last id m (ground (arith, n, other)) r)
]
