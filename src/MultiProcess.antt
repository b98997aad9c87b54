-- ===== src/MultiProcess.antt =====
-- The copier of several processes, Multi_process_rsync_task/sync_util.c: the list of files, the paths,
-- the walk over the source tree, and how `perform_sync` deals the files out to its children.
pub mod Lists
pub mod Paths
pub mod Walk
pub mod Shares
pub mod Disk
pub mod Directories
pub mod CopyLoop
pub mod Sync
pub mod Run
pub mod Members
pub mod Copied
pub mod Structure
pub mod Turns
pub mod Perform
pub mod Outcomes
mod Tests
use apue_learning.Common.{
  ℕ, zero, suc, ◌+◌, ◌-◌, ◌*◌, ◌/◌, ◌%◌, Bool, true, false, List, [], ◌∷◌, ◌++◌, Option, none, some,
  ℤ, leb, ◌==◌, if◌then◌else◌, take, drop, set, get_elem?, replicate, length, map,
}
use apue_learning.Rsync.Traverse.{Entries, unreadable, no_more, file, directory, is_dots}

abbrev pub max_path_len : ℕ
max_path_len = 1024

pub record FileInfo : Type 0 where
  pub path : List ℕ
  pub size : ℤ

-- `files` is the allocated array; its slots from `count` on are not initialised.
pub record FileList : Type 0 where
  pub files : List FileInfo
  pub count : ℕ
  pub capacity : ℕ

pub record SyncConfig : Type 0 where
  pub source_dir : List ℕ
  pub target_dir : List ℕ
  pub process_count : ℕ

-- `junk` is what fresh memory holds.
unfoldable pub init_file_list : FileInfo → FileList
init_file_list junk = record { files = replicate 100 junk; count = 0; capacity = 100 }

abbrev pub grow : FileInfo → FileList → FileList
grow junk l = record l { files = l.files ++ replicate l.capacity junk; capacity = l.capacity * 2 }

-- `get_file_size` is an argument: what `stat` says.
unfoldable pub add_file_to_list : FileInfo → (List ℕ → ℤ) → FileList → List ℕ → FileList
add_file_to_list junk get_file_size list path =
    let l = if leb list.capacity list.count then grow junk list else list in
    record l {
      files =
          set l.files l.count
            (record { path = take (max_path_len - 1) path; size = get_file_size path });
      count = suc l.count;
    }

-- `snprintf(full_path, sizeof(full_path) - 1, "%s/%s", path, name)`.
unfoldable pub entry_path : List ℕ → List ℕ → List ℕ
entry_path path name = take (max_path_len - 2) (path ++ b'/' ∷ name)

unfoldable pub traverse_directory : FileInfo → (List ℕ → ℤ) → List ℕ → Entries → FileList → FileList
unfolding add_file_to_list entry_path
traverse_directory junk get_file_size path unreadable list = list
traverse_directory junk get_file_size path no_more list = list
traverse_directory junk get_file_size path (file name size rest) list =
    traverse_directory junk get_file_size path rest (
      if is_dots name
      then list
      else add_file_to_list junk get_file_size list (entry_path path name))
traverse_directory junk get_file_size path (directory name inner rest) list =
    let inside = traverse_directory junk get_file_size (entry_path path name) inner list in
    traverse_directory junk get_file_size path rest (if is_dots name then list else inside)

-- `strstr`: where the first occurrence of `needle` starts.
abbrev pub starts_with : List ℕ → List ℕ → Bool
starts_with [] s = true
starts_with (c ∷ p) [] = false
starts_with (c ∷ p) (d ∷ s) = let rest = starts_with p s in if c == d then rest else false

unfoldable pub strstr : List ℕ → List ℕ → Option ℕ
strstr [] needle = if starts_with needle [] then some 0 else none
strstr (c ∷ s) needle =
    let later = strstr s needle in
    if starts_with needle (c ∷ s)
    then some 0
    else elim later [ none ↦ none | some n ↦ some (suc n) ]

abbrev pub relative_at : List ℕ → List ℕ → Option ℕ → List ℕ
relative_at base full_path (some zero) = take (max_path_len - 1) (drop (length base) full_path)
relative_at base full_path _ = take (max_path_len - 1) full_path

unfoldable pub get_relative_path : List ℕ → List ℕ → List ℕ
unfolding strstr
get_relative_path base full_path = relative_at base full_path (strstr full_path base)

-- The target of a file in `worker_process`.
unfoldable pub target_file : SyncConfig → List ℕ → List ℕ
unfolding get_relative_path
target_file config source_file =
    take (max_path_len - 1) (config.target_dir ++ get_relative_path config.source_dir source_file)

-- A child of `perform_sync`, with its copy of the files of its share.
pub record Child : Type 0 where
  pub worker_id : ℕ
  pub worker_files : FileList

-- The paths of `files.files[j]` for `n` indices from `j` on; an index behind the array, which the code
-- does not reach, is left out.
unfoldable pub add_found : FileInfo → (List ℕ → ℤ) → FileList → Option FileInfo → FileList
unfolding add_file_to_list
add_found junk get_file_size list none = list
add_found junk get_file_size list (some f) = add_file_to_list junk get_file_size list f.path

unfoldable pub add_range : FileInfo → (List ℕ → ℤ) → FileList → ℕ → ℕ → FileList → FileList
unfolding add_found
add_range junk get_file_size files j zero list = list
add_range junk get_file_size files j (suc n) list =
    add_range junk get_file_size files (suc j) n
      (add_found junk get_file_size list (get_elem? files.files j))

-- What a child puts in its own list.
unfoldable pub worker_share : FileInfo → (List ℕ → ℤ) → FileList → ℕ → ℕ → FileList
unfolding init_file_list add_range
worker_share junk get_file_size files start_index end_index =
    add_range junk get_file_size files start_index (end_index - start_index) (init_file_list junk)

-- The loop of `perform_sync` over the processes from `i` on, `left` of them, with `fork` saying which
-- calls succeed: the children, and whether all of them could be started.
unfoldable pub start_children :
    FileInfo → (List ℕ → ℤ) → (ℕ → Bool) → FileList → ℕ → ℕ → ℕ → ℕ → List Child × Bool
unfolding worker_share
start_children junk get_file_size fork files process_count zero i start_index = ([], true)
start_children junk get_file_size fork files process_count (suc left) i start_index =
    let files_per_process = files.count / process_count in
    let remaining_files = files.count % process_count in
    let end_index =
      start_index + files_per_process + (if i == process_count - 1 then remaining_files else 0) in
    let child : Child = record {
      worker_id = i;
      worker_files = worker_share junk get_file_size files start_index end_index;
    } in
    let rest =
      start_children junk get_file_size fork files process_count left (suc i)
        (start_index + files_per_process) in
    if fork i then (child ∷ rest.0, rest.1) else ([], false)
