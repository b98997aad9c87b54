-- ===== src/Rsync/Tests.antt =====
-- Runs of the multi-threaded copier, and the theorems at concrete lists, trees and schedules.
use apue_learning.Common.{
  ℕ, ◌+◌, ◌*◌, ◌≤◌, ◌≡◌, refl, Bool, true, false, List, [], ◌∷◌, ◌++◌, Option, none, some, pos,
  arith, length, All, bytes_eq, ◌==◌, if◌then◌else◌,
}
use apue_learning.Rsync.{
  FileInfo, FileList, idle, stopped, add_file_to_list, new_file, schedule, start_workers,
  worker_step,
}
use apue_learning.Rsync.Files.{IsValid, contents, add_file_to_list-contents}
use apue_learning.Rsync.Progress.Counts.Total.{AllCounted, schedule-AllCounted}
use apue_learning.Rsync.Progress.Termination.{Working, schedule-length}
use apue_learning.Rsync.Paths.{join_path, get_relative_path, get_relative_path-join_path}
use apue_learning.Rsync.Compare.{File, compare_files, compare_files-bytes_eq}
use apue_learning.Rsync.Traverse.{
  Entries, file, directory, no_more, traverse_directory, files_below,
  traverse_directory-files_below,
}
use apue_learning.Rsync.Copy.{
  Os, got, read_failed, copy_loop, bytes_read, copy_loop-bytes_read, sync_file, Faithful,
  sync_file-Faithful,
}

abbrev junk : FileInfo
junk = record { source_path = []; target_path = []; size = pos 0; needs_sync = false }

abbrev a_file : FileInfo
a_file = record {
  source_path = b's' ∷ [];
  target_path = b't' ∷ [];
  size = pos 3;
  needs_sync = true;
}

-- two files in an array of three slots
abbrev two_files : FileList
two_files = record {
  files = a_file ∷ a_file ∷ junk ∷ [];
  count = 2;
  capacity = 3;
  current_index = 0;
}

two_files-IsValid : IsValid two_files
two_files-IsValid = record {
  allocated = refl;
  count_le = omega arith;
  index_le = omega arith;
  capacity_pos = omega arith;
}

-- two threads take turns; the second file cannot be copied
abbrev turns : List (ℕ × Bool)
turns =
    (0, true)
    ∷ (1, true)
    ∷ (0, true)
    ∷ (1, true)
    ∷ (0, true)
    ∷ (1, false)
    ∷ (0, true)
    ∷ (1, true)
    ∷ (0, true)
    ∷ (1, true)
    ∷ []

turns_errors : (schedule turns (start_workers two_files 2)).errors ≡ 1
unfolding schedule start_workers
turns_errors = refl

turns_stopped : All (λ st. st ≡ stopped) ((schedule turns (start_workers two_files 2)).workers)
unfolding schedule start_workers
turns_stopped = (refl, (refl, tt))

schedule-AllCounted_example :
    AllCounted (λ _. 1) two_files (schedule turns (start_workers two_files 2))
schedule-AllCounted_example =
    schedule-AllCounted (λ _. 1) two_files 1 turns two_files-IsValid refl (refl, (refl, tt))
      turns_stopped

working : Working ((0, true) ∷ (1, true) ∷ []) (start_workers two_files 2)
unfolding start_workers worker_step
working = ((idle, (refl, λ q. cc)), ((idle, (refl, λ q. cc)), tt))

schedule-length_example : 2 ≤ 4 * 2 + 2
schedule-length_example =
    schedule-length two_files 1 ((0, true) ∷ (1, true) ∷ []) two_files-IsValid refl
      (refl, (refl, tt)) working

abbrev full_list : FileList
full_list = record { files = a_file ∷ []; count = 1; capacity = 1; current_index = 0 }

full_list-IsValid : IsValid full_list
full_list-IsValid = record {
  allocated = refl;
  count_le = omega arith;
  index_le = omega arith;
  capacity_pos = omega arith;
}

add_file_to_list-contents_example :
    IsValid (add_file_to_list junk full_list (b'a' ∷ []) (b'b' ∷ []) (pos 7))
    × (contents (add_file_to_list junk full_list (b'a' ∷ []) (b'b' ∷ []) (pos 7))
        ≡ a_file ∷ new_file (b'a' ∷ []) (b'b' ∷ []) (pos 7) ∷ [])
add_file_to_list-contents_example =
    add_file_to_list-contents junk full_list (b'a' ∷ []) (b'b' ∷ []) (pos 7) full_list-IsValid

-- a directory with itself, a file, and a directory with one file
abbrev tree : Entries
tree =
    directory (b'.' ∷ []) (file (b'x' ∷ []) (pos 1) no_more)
      (file (b'f' ∷ []) (pos 5) (directory (b'd' ∷ []) (file (b'g' ∷ []) (pos 6) no_more) no_more))

traverse_directory-files_below_example :
    contents (traverse_directory junk (b'S' ∷ []) (b'T' ∷ []) tree full_list)
    ≡ contents full_list ++ files_below (b'S' ∷ []) (b'T' ∷ []) tree
traverse_directory-files_below_example =
    traverse_directory-files_below junk (b'S' ∷ []) (b'T' ∷ []) tree full_list full_list-IsValid

tree_files : length (files_below (b'S' ∷ []) (b'T' ∷ []) tree) ≡ 2
unfolding files_below
tree_files = refl

get_relative_path-join_path_example :
    get_relative_path (b'S' ∷ []) (join_path (b'S' ∷ []) (b'f' ∷ [])) ≡ b'f' ∷ []
get_relative_path-join_path_example =
    get_relative_path-join_path (b'S' ∷ []) (b'f' ∷ []) (omega arith)

abbrev old_file : File
old_file = record { content = 1 ∷ 2 ∷ []; mtime = 10; readable = true }

abbrev new_copy : File
new_copy = record { content = 1 ∷ 3 ∷ []; mtime = 20; readable = true }

-- two paths, of one byte each
abbrev disk : List ℕ → Option File
disk (c ∷ []) = if c == 1 then some old_file else some new_copy
disk _ = none

compare_files-bytes_eq_example :
    compare_files disk (1 ∷ []) (2 ∷ []) ≡ bytes_eq (1 ∷ 2 ∷ []) (1 ∷ 3 ∷ [])
compare_files-bytes_eq_example =
    compare_files-bytes_eq disk (1 ∷ []) (2 ∷ []) old_file new_copy refl refl refl (omega arith)
      (omega arith) refl refl

-- a system whose `read` fails behind the first piece
abbrev failing : Os
failing = record {
  disk = disk;
  exists = λ _. false;
  mkdir = λ _. true;
  open_source = true;
  open_target = true;
  reads = got (1 ∷ []) ∷ read_failed ∷ got (2 ∷ []) ∷ [];
  write = length;
}

sync_file-Faithful_example :
    Faithful (bytes_read failing.reads) (sync_file failing (1 ∷ []) (b'/' ∷ 2 ∷ []) false)
sync_file-Faithful_example = sync_file-Faithful failing (1 ∷ []) (b'/' ∷ 2 ∷ []) false

copy_loop-bytes_read_example :
    copy_loop length [] (got (1 ∷ 2 ∷ []) ∷ got (3 ∷ []) ∷ got [] ∷ [])
    ≡ (true, bytes_read (got (1 ∷ 2 ∷ []) ∷ got (3 ∷ []) ∷ got [] ∷ []))
copy_loop-bytes_read_example =
    copy_loop-bytes_read length [] (got (1 ∷ 2 ∷ []) ∷ got (3 ∷ []) ∷ got [] ∷ []) (λ s. refl)
