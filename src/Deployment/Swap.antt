-- ===== src/Deployment/Swap.antt =====
-- daemon/internal/deployment/files.go: how the new content of a directory takes the place of the old
-- one, for an instance and for an image. Building the new content (scanning, copying, restoring what
-- is excluded, the port) is an argument: what it leaves under the temporary path, and its error.
-- What the system answers is an argument too; an error without a code is `internal`.
pub mod Safety
use prism_panel.Common.{Bool, true, false, ◌||◌, not, Option, none, some, if◌then◌else◌}
use prism_panel.Common.Text.{Text}
use prism_panel.Common.Error.{
  ErrorCode, Result, ok, err, ◌>>=◌, ◌>>◌, guard, internal, path_escape, rollback_failed,
}

-- What is at `.prism-recycle-bin`: nothing, a link or a file, or a directory.
pub data Bin : Type 0 where
  absent invalid : Bin
  holding : Text → Bin

-- A directory: what is in it beside its recycle bin, and its recycle bin.
pub record Tree : Type 0 where
  pub files : Text
  pub bin : Bin

-- The three paths of a deployment.
pub record Disk : Type 0 where
  pub target : Option Tree
  pub temp : Option Tree
  pub backup : Option Tree

-- How the calls of package `os` come out, in the order of the code. A removal that fails leaves
-- something of the directory.
pub record Answers : Type 0 where
  pub in_root : Bool
  pub makes_temp : Bool
  pub built : Tree
  pub build_error : Option ErrorCode
  pub backs_up : Bool
  pub reads_bin : Bool
  pub moves_bin : Bool
  pub enables : Bool
  pub restores : Bool
  pub backup_left : Option Tree
  pub temp_left : Option Tree

abbrev pub path_exists : Option Tree → Bool
path_exists none = false
path_exists (some t) = true

abbrev pub has_bin : Bin → Bool
has_bin absent = false
has_bin _ = true

-- `preserveRecycleBin`, from the old directory to the new one
abbrev pub move_bin : Answers → Bin → Tree → Tree → Result (Tree × Tree)
move_bin a absent old new = ok (old, new)
move_bin a invalid old new = err path_escape
move_bin a (holding b) old new = do
  guard (not (has_bin new.bin)) rollback_failed
  guard a.moves_bin internal
  ok (record old { bin = absent }, record new { bin = holding b })

unfoldable pub preserve_bin : Answers → Tree → Tree → Result (Tree × Tree)
preserve_bin a old new =
    guard (a.reads_bin || not (has_bin old.bin)) internal >> move_bin a old.bin old new

-- Back from the backup to the target.
abbrev pub put_back : Bool → Tree → Tree → Disk
put_back restores old new = record {
  target = if restores then some old else none;
  temp = some new;
  backup = if restores then none else some old;
}

-- The old directory is the backup, and the new one becomes the target, or the old one comes back.
abbrev pub enabled : Answers → Tree → Disk × Result (Unit {0})
enabled a new = (
  record { target = some new; temp = none; backup = a.backup_left },
  elim a.backup_left [ none ↦ ok tt | some rest ↦ err rollback_failed ],
)

abbrev pub rolled_back : Answers → Tree → Tree → Disk × Result (Unit {0})
rolled_back a old new =
    (put_back a.restores old new, err (if a.restores then internal else rollback_failed))

abbrev pub enable : Answers → Tree → Tree → Disk × Result (Unit {0})
enable a old new = if a.enables then enabled a new else rolled_back a old new

abbrev pub exchange : Answers → Tree → Tree → Result (Tree × Tree) → Disk × Result (Unit {0})
exchange a old new (err e) = (put_back a.restores old new, err e)
exchange a old new (ok (old', new')) = enable a old' new'

unfoldable pub swap : Answers → Tree → Tree → Disk × Result (Unit {0})
swap a old new =
    if a.backs_up
    then exchange a old new (preserve_bin a old new)
    else (record { target = some old; temp = some new; backup = none }, err internal)

-- The deferred removal of the temporary directory.
abbrev pub or_internal : Result (Unit {0}) → Result (Unit {0})
or_internal (err e) = err e
or_internal (ok x) = err internal

unfoldable pub clean_up : Answers → Disk × Result (Unit {0}) → Disk × Result (Unit {0})
clean_up a (d, r) =
    if path_exists d.temp
    then (
      record d { temp = a.temp_left },
      elim a.temp_left [ none ↦ r | some rest ↦ or_internal r ],
    )
    else (d, r)

-- What the two ways have in common, up to the exchange of the directories.
abbrev pub when_built :
    Answers → Option ErrorCode → Disk → Disk × Result (Unit {0}) → Disk × Result (Unit {0})
when_built a none d exchanged = exchanged
when_built a (some e) d exchanged = (record d { temp = some a.built }, err e)

abbrev pub prepare : Answers → Disk → Disk × Result (Unit {0}) → Disk × Result (Unit {0})
prepare a d exchanged =
    if not a.in_root
    then (d, err path_escape)
    else (if path_exists d.temp || path_exists d.backup
        then (d, err rollback_failed)
        else (if a.makes_temp
            then clean_up a (when_built a a.build_error d exchanged)
            else (d, err internal)))

-- A target that is not there yet, for an instance and for an image.
abbrev pub swap_first : Answers → Tree → Disk × Result (Unit {0})
swap_first a new =
    if a.enables
    then (record { target = some new; temp = none; backup = none }, ok tt)
    else (record { target = none; temp = some new; backup = none }, err internal)

unfoldable pub deploy_files : Answers → Disk → Disk × Result (Unit {0})
deploy_files a d =
    prepare a d (elim d.target [ none ↦ swap_first a a.built | some old ↦ swap a old a.built ])

-- `syncInstanceBackToImage`, where the target is the image
unfoldable pub sync_back : Answers → Disk → Disk × Result (Unit {0})
sync_back a d = prepare a d (elim d.target [
  | none ↦ (record { target = none; temp = some a.built; backup = none }, err internal)
  | some old ↦ swap a old a.built
])
