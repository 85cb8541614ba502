-- ===== src/Deployment/Swap/Safety.antt =====
-- What the exchange of directories leaves of the old one.
use prism_panel.Common.{
  ◌≡◌, refl, sym, ap, ◌⊎◌, inl, inr, true, false, ◌||◌, not, Option, none, some, if◌then◌else◌,
  Bool-cases, Option-cases, if_both, if_true, if_false, arith, subst, ◌∙◌,
}
use prism_panel.Common.Text.{Text}
use prism_panel.Common.Error.{ErrorCode, Result, ok, err, internal, path_escape, rollback_failed}
use prism_panel.Deployment.Swap.{
  Bin, absent, invalid, holding, Tree, Disk, Answers, path_exists, has_bin, move_bin, preserve_bin,
  put_back, enable, enabled, rolled_back, when_built, exchange, swap, clean_up, prepare,
  deploy_files, sync_back,
}

-- The new directory, with the recycle bin that was there.
abbrev pub with_bin : Bin → Tree → Tree
with_bin absent new = new
with_bin b new = record new { bin = b }

-- The old directory is at a path, as it was unless enabling the new one failed, and then with its
-- files.
abbrev pub Holds : Answers → Tree → Option Tree → Type 0
Holds a old place =
    (t : Tree) × (place ≡ some t) × (t.files ≡ old.files) × (a.enables ≡ true → t ≡ old)

abbrev pub IsKept : Answers → Tree → Disk → Result (Unit {0}) → Type 0
IsKept a old d (ok x) =
    d ≡ record { target = some (with_bin old.bin a.built); temp = none; backup = none }
IsKept a old d (err e) =
    Holds a old d.target
    ⊎ ((d.target ≡ none) × Holds a old d.backup)
    ⊎ ((e ≡ rollback_failed) × (d.target ≡ some (with_bin old.bin a.built)))

put_back-IsKept :
    (a : Answers) (e : ErrorCode) (old t new : Tree)
    → t.files ≡ old.files
    → (a.enables ≡ true → t ≡ old)
    → IsKept a old (put_back a.restores t new) (err e)
put_back-IsKept a e old t new h k = elim (Bool-cases a.restores) [
  | inl r ↦ inl (t, rw r refl, h, k)
  | inr r ↦ inr (inl (rw r refl, (t, rw r refl, h, k)))
]

-- What moving the recycle bin does to the two directories.
move_bin-files :
    (b : Bin) (a : Answers) (old new old' new' : Tree)
    → old.bin ≡ b
    → move_bin a b old new ≡ ok (old', new')
    → (old'.files ≡ old.files) × (new' ≡ with_bin b new)
move_bin-files absent a old new old' new' e h = ground (arith, h)
move_bin-files invalid a old new old' new' e h = absurd (ground (arith, h))
move_bin-files (holding b) a old new old' new' e h = grind arith

preserve_bin-files :
    (a : Answers) (old new old' new' : Tree)
    → preserve_bin a old new ≡ ok (old', new')
    → (old'.files ≡ old.files) × (new' ≡ with_bin old.bin new)
unfolding preserve_bin
preserve_bin-files a old new old' new' h =
    elim (Bool-cases (a.reads_bin || not (has_bin old.bin))) [
      | inl r ↦ move_bin-files old.bin a old new old' new' refl (ground (arith, r, h))
      | inr r ↦ absurd (ground (arith, r, h))
    ]

-- The code of a pair, kept.
abbrev pub PairKept : Answers → Tree → Disk × Result (Unit {0}) → Type 0
PairKept a old p = IsKept a old p.0 p.1

enabled-PairKept :
    (a : Answers) (old : Tree) → PairKept a old (enabled a (with_bin old.bin a.built))
enabled-PairKept a old = elim (Option-cases a.backup_left) [
  | inl l ↦ rw l refl
  | inr (t, l) ↦ rw l (inr (inr (refl, refl)))
]

enable-PairKept :
    (a : Answers) (old old' : Tree)
    → old'.files ≡ old.files
    → PairKept a old (enable a old' (with_bin old.bin a.built))
enable-PairKept a old old' h =
    let new = with_bin old.bin a.built in
    let e = if a.restores then internal else rollback_failed in
    elim (Bool-cases a.enables) [
      | inl y ↦
          subst (PairKept a old)
            (sym (if_true a.enables (enabled a new) (rolled_back a old' new) y))
            (enabled-PairKept a old)
      | inr n ↦
          subst (PairKept a old)
            (sym (if_false a.enables (enabled a new) (rolled_back a old' new) n))
            (put_back-IsKept a e old old' new h (λ f. absurd (ground (arith, n, f))))
    ]

exchange-PairKept :
    (a : Answers) (old : Tree) (r : Result (Tree × Tree))
    → preserve_bin a old a.built ≡ r
    → PairKept a old (exchange a old a.built r)
exchange-PairKept a old (err e) h = put_back-IsKept a e old old a.built refl (λ f. refl)
exchange-PairKept a old (ok (old', new')) h =
    let (f, g) = preserve_bin-files a old a.built old' new' h in
    subst (λ (n : Tree). PairKept a old (enable a old' n)) (sym g) (enable-PairKept a old old' f)

swap-PairKept : (a : Answers) (old : Tree) → PairKept a old (swap a old a.built)
unfolding swap
swap-PairKept a old =
    if_both (PairKept a old) a.backs_up (exchange a old a.built (preserve_bin a old a.built))
      (record { target = some old; temp = some a.built; backup = none }, err internal)
      (exchange-PairKept a old (preserve_bin a old a.built) refl) (inl (old, refl, refl, λ f. refl))

clean_up-PairKept :
    (a : Answers) (old : Tree) (d : Disk) (r : Result (Unit {0}))
    → IsKept a old d r
    → PairKept a old (clean_up a (d, r))
unfolding clean_up
clean_up-PairKept a old d (ok x) h = rw (ap (λ (c : Disk). path_exists c.temp) h, clean_up) h
clean_up-PairKept a old d (err e) h = elim (Bool-cases (path_exists d.temp)) [
  | inl t ↦ elim (Option-cases a.temp_left) [
    | inl l ↦ rw (t, l, clean_up) h
    | inr (u, l) ↦ rw (t, l, clean_up) h
  ]
  | inr t ↦ rw (t, clean_up) h
]

abbrev pub at_start : Tree → Disk
at_start old = record { target = some old; temp = none; backup = none }

still_there : (a : Answers) (old : Tree) (e : ErrorCode) → PairKept a old (at_start old, err e)
still_there a old e = inl (old, refl, refl, λ f. refl)

when_built-PairKept :
    (a : Answers) (old : Tree) (failure : Option ErrorCode)
    → PairKept a old (when_built a failure (at_start old) (swap a old a.built))
when_built-PairKept a old none = swap-PairKept a old
when_built-PairKept a old (some e) = inl (old, refl, refl, λ f. refl)

prepare-PairKept :
    (a : Answers) (old : Tree) → PairKept a old (prepare a (at_start old) (swap a old a.built))
prepare-PairKept a old =
    let p = when_built a a.build_error (at_start old) (swap a old a.built) in
    if_both (PairKept a old) (not a.in_root) (at_start old, err path_escape)
      (if a.makes_temp then clean_up a p else (at_start old, err internal))
      (still_there a old path_escape)
      (if_both (PairKept a old) a.makes_temp (clean_up a p) (at_start old, err internal)
        (clean_up-PairKept a old p.0 p.1 (when_built-PairKept a old a.build_error))
        (still_there a old internal))

-- A deployment to an instance that is there, and a sync back to an image that is there, whatever the
-- system answers: if the call succeeds, the new content with the old recycle bin is at the target and
-- nothing is left beside it; if it fails, the old directory is at the target, or at the backup with
-- nothing at the target, with all its files, and unchanged unless the rename of the new directory
-- failed; or the error is `rollback_failed` and the new content is at the target.
pub exchange_keeps :
    (a : Answers) (old : Tree)
    → IsKept a old (deploy_files a (at_start old)).0 (deploy_files a (at_start old)).1
      × IsKept a old (sync_back a (at_start old)).0 (sync_back a (at_start old)).1
unfolding deploy_files sync_back
exchange_keeps a old = (prepare-PairKept a old, prepare-PairKept a old)

-- Everything works but the last rename, and what was moved comes back.
abbrev pub failing_enable : Text → Answers
failing_enable new = record {
  in_root = true;
  makes_temp = true;
  built = record { files = new; bin = absent };
  build_error = none;
  backs_up = true;
  reads_bin = true;
  moves_bin = true;
  enables = false;
  restores = true;
  backup_left = none;
  temp_left = none;
}

abbrev pub with_files : Text → Bin → Tree
with_files files bin = record { files = files; bin = bin }

-- The answers of a call that gets as far as the rename of the new directory: this fails, and the old
-- directory comes back.
pub record FailsToEnable (a : Answers) : Type 0 where
  pub in_root : a.in_root ≡ true
  pub makes_temp : a.makes_temp ≡ true
  pub builds : a.build_error ≡ none
  pub no_bin : a.built.bin ≡ absent
  pub backs_up : a.backs_up ≡ true
  pub reads_bin : a.reads_bin ≡ true
  pub moves_bin : a.moves_bin ≡ true
  pub not_enabled : a.enables ≡ false
  pub restores : a.restores ≡ true

-- What is there afterwards: the old files without the recycle bin, and what could not be removed of
-- the temporary directory.
abbrev pub without_bin : Answers → Text → Disk
without_bin a files = record {
  target = some (with_files files absent);
  temp = a.temp_left;
  backup = none;
}

swap_loses_bin :
    (a : Answers) (files bin : Text)
    → FailsToEnable a
    → swap a (with_files files (holding bin)) a.built ≡ (
      record {
        target = some (with_files files absent);
        temp = some (record a.built { bin = holding bin });
        backup = none;
      },
      err internal,
    )
unfolding swap preserve_bin
swap_loses_bin a files bin f =
    ground (arith, f.no_bin, f.backs_up, f.reads_bin, f.moves_bin, f.not_enabled, f.restores)

clean_up_stops :
    (a : Answers) (place : Option Tree) (t : Tree)
    → clean_up a (record { target = place; temp = some t; backup = none }, err internal)
      ≡ (record { target = place; temp = a.temp_left; backup = none }, err internal)
unfolding clean_up
clean_up_stops a place t = elim (Option-cases a.temp_left) [
  | inl l ↦ rw l refl
  | inr (u, l) ↦ rw l refl
]

prepare_loses_bin :
    (a : Answers) (files bin : Text)
    → FailsToEnable a
    → let old = with_files files (holding bin) in
      prepare a (at_start old) (swap a old a.built) ≡ (without_bin a files, err internal)
prepare_loses_bin a files bin f =
    let old = with_files files (holding bin) in
    let done = when_built a a.build_error (at_start old) (swap a old a.built) in
    let e : done ≡ swap a old a.built =
      ap (λ (x : Option ErrorCode). when_built a x (at_start old) (swap a old a.built)) f.builds in
    if_false (not a.in_root) (at_start old, err path_escape) _ (ap not f.in_root)
    ∙ if_true a.makes_temp (clean_up a done) (at_start old, err internal) f.makes_temp
    ∙ ap (λ (p : Disk × Result (Unit {0})). clean_up a p) (e ∙ swap_loses_bin a files bin f)
    ∙ clean_up_stops a (some (with_files files absent)) (record a.built { bin = holding bin })

-- Where the new content, which has no recycle bin of its own, is built, the old directory is moved
-- away and its recycle bin into the new one, but the new directory cannot take its place and the old
-- one comes back: the call fails with `internal` and the old files are at the target, without their
-- recycle bin, whatever then happens to the temporary directory, of an instance as of an image.
pub failed_enable_loses_bin :
    (a : Answers) (files bin : Text)
    → FailsToEnable a
    → (deploy_files a (at_start (with_files files (holding bin)))
        ≡ (without_bin a files, err internal))
      × (sync_back a (at_start (with_files files (holding bin)))
          ≡ (without_bin a files, err internal))
unfolding deploy_files sync_back
failed_enable_loses_bin a files bin f =
    (prepare_loses_bin a files bin f, prepare_loses_bin a files bin f)
