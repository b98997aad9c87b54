-- ===== src/MultiProcess/Run.antt =====
-- `perform_sync` and its children. A child goes through its own files; the children's calls of
-- `sync_file` happen in any order, and each counts as one step.
use apue_learning.Common.{
  ℕ, Bool, true, false, List, [], ◌∷◌, ◌++◌, Option, none, some, ◌-◌, ◌==◌, if◌then◌else◌, take,
  set, get_elem?, length, map,
}
use apue_learning.Rsync.Traverse.{Entries, unreadable, no_more, file, directory, is_dots}
use apue_learning.MultiProcess.{
  FileInfo, FileList, SyncConfig, Child, max_path_len, init_file_list, entry_path,
  traverse_directory, get_relative_path, target_file, start_children,
}
use apue_learning.MultiProcess.Lists.{paths}
use apue_learning.MultiProcess.Disk.{Disk, Os, create_directory, sync_file, get_file_size}

-- The disk, what each child has still to do, and what the children have printed: the path of a file
-- and whether its `sync_file` returned 1.
pub record System : Type 0 where
  pub disk : Disk
  pub workers : List (List (List ℕ))
  pub reports : List (List ℕ × Bool)

abbrev pub synced : ℕ → List ℕ → List (List ℕ) → System → Option (Bool × Disk) → Option System
synced who path rest s none = none
synced who path rest s (some (ok, disk)) =
    some
      (record { disk = disk; workers = set s.workers who rest; reports = (path, ok) ∷ s.reports })

-- The next round of the loop of `worker_process` in the child `who`.
abbrev pub worker_next : Os → SyncConfig → ℕ → System → Option (List (List ℕ)) → Option System
worker_next os config who s none = some s
worker_next os config who s (some []) = some s
worker_next os config who s (some (path ∷ rest)) =
    synced who path rest s (sync_file os path (target_file config path) s.disk)

unfoldable pub worker_step : Os → SyncConfig → ℕ → System → Option System
unfolding sync_file target_file
worker_step os config who s = worker_next os config who s (get_elem? s.workers who)

-- The children's steps in the order in which they happen.
unfoldable pub run : Os → SyncConfig → List ℕ → System → Option System
unfolding worker_step
run os config [] s = some s
run os config (who ∷ more) s = elim (worker_step os config who s) [
  | none ↦ none
  | some t ↦ run os config more t
]

-- What the children start with.
abbrev pub started : Disk → List Child → System
started disk children = record {
  disk = disk;
  workers = map (λ c. paths c.worker_files) children;
  reports = [];
}

-- A directory of the target for one of the source that can be opened.
abbrev pub drop_result : Disk → Option (Bool × Disk) → Option Disk
drop_result disk none = none
drop_result disk (some (ok, d)) = some d

abbrev pub make_target : Os → SyncConfig → List ℕ → Disk → Option Disk
make_target os config relative disk =
    if length relative == 0
    then some disk
    else drop_result disk
        (create_directory os (take (max_path_len - 2) (config.target_dir ++ b'/' ∷ relative)) disk)

abbrev pub is_readable : Entries → Bool
is_readable unreadable = false
is_readable _ = true

unfoldable pub enter_directory : Os → SyncConfig → List ℕ → Entries → Disk → Option Disk
unfolding create_directory get_relative_path
enter_directory os config path entries disk =
    if is_readable entries
    then make_target os config (get_relative_path config.source_dir path) disk
    else some disk

abbrev pub then_disk : (Disk → Option Disk) → Option Disk → Option Disk
then_disk next none = none
then_disk next (some disk) = next disk

-- The loop of `sync_directory_structure` over the entries of a directory that it has entered.
unfoldable pub sync_entries : Os → SyncConfig → List ℕ → Entries → Disk → Option Disk
unfolding enter_directory entry_path
sync_entries os config path unreadable disk = some disk
sync_entries os config path no_more disk = some disk
sync_entries os config path (file name size rest) disk = sync_entries os config path rest disk
sync_entries os config path (directory name inner rest) disk =
    let entered = enter_directory os config (entry_path path name) inner disk in
    let below = then_disk (sync_entries os config (entry_path path name) inner) entered in
    let after = then_disk (sync_entries os config path rest) below in
    let skipped = sync_entries os config path rest disk in if is_dots name then skipped else after

unfoldable pub sync_directory_structure : Os → SyncConfig → List ℕ → Entries → Disk → Option Disk
unfolding enter_directory sync_entries
sync_directory_structure os config path entries disk =
    then_disk (sync_entries os config path entries) (enter_directory os config path entries disk)

-- `WIFEXITED` and `WEXITSTATUS`, or the signal that ended a child.
pub data Status : Type 0 where
  exited : ℕ → Status
  signaled : ℕ → Status

-- `all_success` behind the loop of `waitpid`.
unfoldable pub all_success : List Status → Bool
all_success [] = true
all_success (exited code ∷ more) = let rest = all_success more in if code == 0 then rest else false
all_success (signaled n ∷ more) = all_success more

unfoldable pub all_finished : List (List (List ℕ)) → Bool
all_finished [] = true
all_finished ([] ∷ more) = all_finished more
all_finished ((p ∷ ps) ∷ more) = false

-- A child that has gone through its files calls `exit(0)`.
abbrev pub child_status : List (List ℕ) → Status
child_status _ = exited 0

-- How `perform_sync` ends: at a failed check, with no file to copy, at a failed `fork` with the
-- children before it running, in `waitpid` while the order of steps has not brought all children to
-- their end, or after all the children, with its return value.
pub data Performed : Type 0 where
  refused : Performed
  undefined : Performed
  no_files : Disk → Performed
  fork_failed : List Child → Disk → Performed
  waiting : System → Performed
  waited : Bool → System → Performed

abbrev pub awaited : Option System → Performed
awaited none = undefined
awaited (some s) =
    if all_finished s.workers
    then waited (all_success (map child_status s.workers)) s
    else waiting s

abbrev pub with_children : Os → SyncConfig → List ℕ → Disk → List Child × Bool → Performed
with_children os config order disk (children, false) = fork_failed children disk
with_children os config order disk (children, true) =
    awaited (run os config order (started disk children))

abbrev pub with_list :
    FileInfo → (ℕ → Bool) → Os → SyncConfig → List ℕ → Disk → FileList → Performed
with_list junk fork os config order disk files =
    if files.count == 0
    then no_files disk
    else with_children os config order disk (
        start_children junk (get_file_size os disk) fork files config.process_count
          config.process_count 0 0)

abbrev pub with_structure :
    FileInfo → (ℕ → Bool) → Os → SyncConfig → List ℕ → Entries → Option Disk → Performed
with_structure junk fork os config order tree none = undefined
with_structure junk fork os config order tree (some disk) =
    with_list junk fork os config order disk
      (traverse_directory junk (get_file_size os disk) config.source_dir tree (init_file_list junk))

abbrev pub with_target :
    FileInfo → (ℕ → Bool) → Os → SyncConfig → List ℕ → Entries → Option (Bool × Disk) → Performed
with_target junk fork os config order tree none = undefined
with_target junk fork os config order tree (some (false, disk)) = refused
with_target junk fork os config order tree (some (true, disk)) =
    with_structure junk fork os config order tree
      (sync_directory_structure os config config.source_dir tree disk)

-- `source_is_dir`: `stat` of the source succeeds and says that it is a directory.
unfoldable pub perform_sync :
    FileInfo → (ℕ → Bool) → Os → SyncConfig → List ℕ → Bool → Entries → Disk → Performed
unfolding run all_finished start_children traverse_directory sync_directory_structure
    create_directory all_success init_file_list get_file_size
perform_sync junk fork os config order source_is_dir tree disk =
    if source_is_dir
    then with_target junk fork os config order tree (create_directory os config.target_dir disk)
    else refused
