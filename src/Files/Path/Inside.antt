-- ===== src/Files/Path/Inside.antt =====
-- Where a path that `securePath` gives lies.
use prism_panel.Common.{
  ◌≡◌, ◌≢◌, refl, sym, ap, ◌∙◌, ◌⊎◌, inl, inr, Bool, true, false, not, List, [], ◌∷◌, ◌==◌, nat_eq,
  text_eq, contains, arith, Bool-cases, eq→≡, subst, if_true, if_false,
}
use prism_panel.Common.Text.{Text, has_prefix, split}
use prism_panel.Common.Error.{Result, ok, err, ◌>>=◌, ◌>>◌, guard, Result-cases, path_escape}
use prism_panel.Ticket.Path.{slash, dot, dotdot, path_clean, slashed}
use prism_panel.Ticket.Path.Safety.{Confined, path_clean-Confined}
use prism_panel.Files.Path.{
  Stat, missing, directory, link, file, failing, System, is_recycle_path, normalize_relative,
  check_root, check_last, check_parent, walk, check_inside, from_root, secure_path,
}

module _ (os : System) where
  normalize_relative-Confined : (raw p : Text) → normalize_relative os raw ≡ ok p → Confined p
  unfolding normalize_relative
  normalize_relative-Confined raw p h =
      let value = slashed raw in
      let a : has_prefix value (slash ∷ []) ≡ false = ground (arith, h) in
      let b : contains (split slash value) dotdot ≡ false = ground (arith, h) in
      let c : p ≡ path_clean value = ground (arith, h) in
      subst Confined (sym c) (path_clean-Confined value a b)

  -- The way from a directory over the elements of a path: directories, and at its end no link, and
  -- something that is there unless it may be missing.
  abbrev pub IsWay : Bool → Text → List Text → Text → Type 0
  IsWay allow_missing current [] path = path ≡ current
  IsWay allow_missing current (part ∷ []) path =
      (path ≡ os.join current part)
      × (os.lstat path ≢ link)
      × (os.lstat path ≡ missing → allow_missing ≡ true)
  IsWay allow_missing current (part ∷ next ∷ more) path =
      (os.lstat (os.join current part) ≡ directory)
      × IsWay allow_missing (os.join current part) (next ∷ more) path

  check_last_lem :
      (allow_missing : Bool) (current path : Text) (s : Stat)
      → os.lstat current ≡ s
      → check_last allow_missing current s ≡ ok path
      → (path ≡ current) × (os.lstat path ≢ link) × (os.lstat path ≡ missing → allow_missing ≡ true)
  check_last_lem allow_missing current path missing e h = elim (Bool-cases allow_missing) [
    | inl y ↦
        let p : path ≡ current = ground (arith, y, h) in
        let l : os.lstat path ≡ missing = ap (λ (t : Text). os.lstat t) p ∙ e in
        (p, λ k. ground (arith, l, k), λ k. y)
    | inr n ↦ absurd (ground (arith, n, h))
  ]
  check_last_lem allow_missing current path (failing x) e h = absurd (ground (arith, h))
  check_last_lem allow_missing current path link e h = absurd (ground (arith, h))
  check_last_lem allow_missing current path directory e h =
      let p : path ≡ current = ground (arith, h) in
      let l : os.lstat path ≡ directory = ap (λ (t : Text). os.lstat t) p ∙ e in
      (p, λ k. ground (arith, l, k), λ k. absurd (ground (arith, l, k)))
  check_last_lem allow_missing current path file e h =
      let p : path ≡ current = ground (arith, h) in
      let l : os.lstat path ≡ file = ap (λ (t : Text). os.lstat t) p ∙ e in
      (p, λ k. ground (arith, l, k), λ k. absurd (ground (arith, l, k)))

  check_parent_lem : (s : Stat) → check_parent s ≡ ok tt → s ≡ directory
  check_parent_lem missing h = absurd (ground (arith, h))
  check_parent_lem (failing e) h = absurd (ground (arith, h))
  check_parent_lem link h = absurd (ground (arith, h))
  check_parent_lem file h = absurd (ground (arith, h))
  check_parent_lem directory h = refl

  check_root_lem : (s : Stat) → check_root s ≡ ok tt → s ≡ directory
  check_root_lem missing h = absurd (ground (arith, h))
  check_root_lem (failing e) h = absurd (ground (arith, h))
  check_root_lem link h = absurd (ground (arith, h))
  check_root_lem file h = absurd (ground (arith, h))
  check_root_lem directory h = refl

  passed : (b : Bool) → guard (not b) path_escape ≡ ok tt → b ≡ false
  passed true h = absurd (ground (arith, h))
  passed false h = refl

  then_ok :
      (r : Result (Unit {0})) (s : Result Text) (path : Text)
      → r >> s ≡ ok path
      → (r ≡ ok tt) × (s ≡ ok path)
  then_ok (err e) s path h = absurd (ground (arith, h))
  then_ok (ok x) s path h = (refl, h)

  walk-IsWay :
      (allow_missing : Bool) (current : Text) (parts : List Text) (path : Text)
      → walk os allow_missing current parts ≡ ok path
      → IsWay allow_missing current parts path
  unfolding walk
  walk-IsWay allow_missing current [] path h = ground (arith, h)
  walk-IsWay allow_missing current (part ∷ []) path h =
      check_last_lem allow_missing (os.join current part) path (os.lstat (os.join current part))
        refl h
  walk-IsWay allow_missing current (part ∷ next ∷ more) path h =
      let at = os.join current part in
      let (a, b) =
        then_ok (check_parent (os.lstat at)) (walk os allow_missing at (next ∷ more)) path h in
      (check_parent_lem (os.lstat at) a, walk-IsWay allow_missing at (next ∷ more) path b)

  -- What `securePath` promises of a path that it gives.
  abbrev pub IsSecure : Text → Text → Bool → Text → Type 0
  IsSecure root relative allow_missing path =
      (clean : Text) × (absolute : Text) × (normalize_relative os relative ≡ ok clean)
      × Confined clean
      × (is_recycle_path clean ≡ false)
      × (os.abs root ≡ ok absolute)
      × (os.lstat absolute ≡ directory)
      × ((clean ≡ dot) × (path ≡ absolute)
          ⊎ (IsWay allow_missing absolute (split slash clean) path
              × (os.leaves absolute path ≡ false)))

  from_root-IsWay :
      (absolute clean : Text) (allow_missing : Bool) (path : Text)
      → from_root os absolute clean allow_missing ≡ ok path
      → ((clean ≡ dot) × (path ≡ absolute))
        ⊎ (IsWay allow_missing absolute (split slash clean) path
            × (os.leaves absolute path ≡ false))
  from_root-IsWay absolute clean allow_missing path h =
      let w = walk os allow_missing absolute (split slash clean) in
      elim (Bool-cases (clean == dot)) [
        | inl y ↦
            let e : ok absolute ≡ ok path =
              sym (if_true (clean == dot) (ok absolute) (w >>= check_inside os absolute) y) ∙ h in
            inl (eq→≡ clean dot y, ground (arith, e))
        | inr n ↦
            let e : w >>= check_inside os absolute ≡ ok path =
              sym (if_false (clean == dot) (ok absolute) (w >>= check_inside os absolute) n) ∙ h in
            elim (Result-cases w) [
              | inr (c, f) ↦ absurd (ground (arith, f, e))
              | inl (q, f) ↦
                  let g : check_inside os absolute q ≡ ok path =
                    ap (λ (r : Result Text). r >>= check_inside os absolute) (sym f) ∙ e in
                  let l : os.leaves absolute q ≡ false = ground (arith, g) in
                  let k : q ≡ path = ground (arith, g) in
                  inr (
                    walk-IsWay allow_missing absolute (split slash clean) path
                        (f ∙ ap (λ (t : Text). ok t) k),
                    ap (λ (t : Text). os.leaves absolute t) (sym k) ∙ l,
                  )
            ]
      ]

  -- What `securePath` does with a normalized path.
  abbrev checked_root : Text → Bool → Text → Result Text
  checked_root clean allow_missing absolute =
      check_root (os.lstat absolute) >> from_root os absolute clean allow_missing

  abbrev checked_path : Text → Bool → Text → Result Text
  checked_path root allow_missing clean =
      guard (not (is_recycle_path clean)) path_escape
      >> (os.abs root >>= checked_root clean allow_missing)

  bind_ok :
      (r : Result Text) (f : Text → Result Text) (path : Text)
      → r >>= f ≡ ok path
      → (x : Text) × (r ≡ ok x) × (f x ≡ ok path)
  bind_ok (err e) f path h = absurd (ground (arith, h))
  bind_ok (ok x) f path h = (x, refl, h)

  -- A path that `securePath` gives comes from a relative path that was normalized to "." or to proper
  -- names, and that does not lie in the recycle bin: it is the root, if that is a directory and no
  -- link, or it is reached from there name by name over directories that are no links, is no link
  -- itself, is there unless it may be missing, and does not leave the root.
  pub secure_path-IsSecure :
      (root relative : Text) (allow_missing : Bool) (path : Text)
      → secure_path os root relative allow_missing ≡ ok path
      → IsSecure root relative allow_missing path
  unfolding secure_path
  secure_path-IsSecure root relative allow_missing path h =
      let (clean, n, h1) =
        bind_ok (normalize_relative os relative) (checked_path root allow_missing) path h in
      let (g, h2) =
        then_ok (guard (not (is_recycle_path clean)) path_escape)
          (os.abs root >>= checked_root clean allow_missing) path h1 in
      let (absolute, a, h3) = bind_ok (os.abs root) (checked_root clean allow_missing) path h2 in
      let (c, f) =
        then_ok (check_root (os.lstat absolute)) (from_root os absolute clean allow_missing) path
          h3 in
      (
        clean,
        absolute,
        n,
        normalize_relative-Confined relative clean n,
        passed (is_recycle_path clean) g,
        a,
        check_root_lem (os.lstat absolute) c,
        from_root-IsWay absolute clean allow_missing path f,
      )
