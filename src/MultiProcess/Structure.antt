-- ===== src/MultiProcess/Structure.antt =====
-- `sync_directory_structure` makes directories and changes no file.
use apue_learning.Common.{
  ℕ, ◌<◌, ◌≡◌, refl, ◌∙◌, Bool, true, false, List, [], ◌∷◌, ◌++◌, Option, some, arith, ◌==◌, length,
  take, Bool-cases, inl, inr, if◌then◌else◌,
}
use apue_learning.Rsync.Traverse.{Entries, unreadable, no_more, file, directory, is_dots}
use apue_learning.MultiProcess.{SyncConfig, entry_path, get_relative_path}
use apue_learning.MultiProcess.Disk.{Disk, Os}
use apue_learning.MultiProcess.Directories.{Made, made, no_path, create_directory-Made}
use apue_learning.MultiProcess.Run.{
  drop_result, then_disk, make_target, is_readable, enter_directory, sync_entries,
  sync_directory_structure,
}

pub cons_ne : (c : ℕ) (l : List ℕ) → c ∷ l ≡ [] → ⊥
cons_ne c l e = absurd cc

-- A disk with the same files, from a call that is defined.
pub data SameFiles (disk : Disk) : Option Disk → Type 0 where
  same_files : (d : Disk) → d.files ≡ disk.files → SameFiles disk (some d)

pub SameFiles-trans :
    {d : Disk} (disk : Disk) {r : Option Disk}
    → d.files ≡ disk.files
    → SameFiles d r
    → SameFiles disk r
SameFiles-trans disk q (same_files e r) = same_files e (r ∙ q)

if-SameFiles :
    {disk : Disk} {r r' : Option Disk} (c : Bool)
    → SameFiles disk r
    → SameFiles disk r'
    → SameFiles disk (if c then r else r')
if-SameFiles true h k = h
if-SameFiles false h k = k

make_target-SameFiles :
    (os : Os) (config : SyncConfig) (relative : List ℕ) (disk : Disk)
    → 0 < length config.target_dir
    → SameFiles disk (make_target os config relative disk)
make_target-SameFiles os config relative disk h = elim (Bool-cases (length relative == 0)) [
  | inl e ↦ rw e (same_files disk refl)
  | inr e ↦
      rw e (dropped _ (nonempty config.target_dir relative h) (create_directory-Made os _ disk))
]
  where
    nonempty : (t r : List ℕ) → 0 < length t → take 1022 (t ++ b'/' ∷ r) ≡ [] → ⊥
    nonempty [] r lt e = omega arith
    nonempty (c ∷ t) r lt e = cons_ne c (take 1021 (t ++ b'/' ∷ r)) e

    dropped :
        {r : Option (Bool × Disk)} (path : List ℕ)
        → (path ≡ [] → ⊥)
        → Made os path disk r
        → SameFiles disk (drop_result disk r)
    dropped path n (made b d q k) = same_files d q
    dropped path n (no_path q) = absurd (n q)

enter_directory-SameFiles :
    (os : Os) (config : SyncConfig) (path : List ℕ) (tree : Entries) (disk : Disk)
    → 0 < length config.target_dir
    → SameFiles disk (enter_directory os config path tree disk)
unfolding enter_directory
enter_directory-SameFiles os config path tree disk h =
    if-SameFiles (is_readable tree)
      (make_target-SameFiles os config (get_relative_path config.source_dir path) disk h)
      (same_files disk refl)

and_then-SameFiles :
    {disk : Disk} (next : Disk → Option Disk) {r : Option Disk}
    → ((d : Disk) → d.files ≡ disk.files → SameFiles disk (next d))
    → SameFiles disk r
    → SameFiles disk (then_disk next r)
and_then-SameFiles next h (same_files d q) = h d q

-- `sync_directory_structure` makes directories only.
sync_entries-SameFiles :
    (os : Os) (config : SyncConfig) (path : List ℕ) (tree : Entries) (disk : Disk)
    → 0 < length config.target_dir
    → SameFiles disk (sync_entries os config path tree disk)
unfolding sync_entries
sync_entries-SameFiles os config path unreadable disk h = same_files disk refl
sync_entries-SameFiles os config path no_more disk h = same_files disk refl
sync_entries-SameFiles os config path (file name size rest) disk h =
    sync_entries-SameFiles os config path rest disk h
sync_entries-SameFiles os config path (directory name inner rest) disk h =
    if-SameFiles (is_dots name) (sync_entries-SameFiles os config path rest disk h) (
      and_then-SameFiles (sync_entries os config path rest)
        (λ d q. SameFiles-trans disk q (sync_entries-SameFiles os config path rest d h))
        (and_then-SameFiles (sync_entries os config (entry_path path name) inner)
          (λ d q.
            SameFiles-trans disk q
              (sync_entries-SameFiles os config (entry_path path name) inner d h))
          (enter_directory-SameFiles os config (entry_path path name) inner disk h)))

pub sync_directory_structure-SameFiles :
    (os : Os) (config : SyncConfig) (path : List ℕ) (tree : Entries) (disk : Disk)
    → 0 < length config.target_dir
    → SameFiles disk (sync_directory_structure os config path tree disk)
unfolding sync_directory_structure
sync_directory_structure-SameFiles os config path tree disk h =
    and_then-SameFiles (sync_entries os config path tree)
      (λ d q. SameFiles-trans disk q (sync_entries-SameFiles os config path tree d h))
      (enter_directory-SameFiles os config path tree disk h)
