-- ===== src/MultiProcess/Disk.antt =====
-- `compare_files`, `create_directory` and `sync_file` of the copier of several processes, on a disk
-- that they change.
use apue_learning.Common.{
  ℕ, ℤ, pos, negsuc, zero, suc, Bool, true, false, ◌&&◌, ◌||◌, not, List, [], ◌∷◌, ◌++◌, Option,
  none, some, ◌==◌, if◌then◌else◌, take, drop, length, bytes_eq, ltb,
}
use apue_learning.Rsync.Compare.{compare_contents}
use apue_learning.Rsync.Copy.{strip_slash, parent}

abbrev pub buffer_size : ℕ
buffer_size = 4096

-- The regular files, a later write in front of an earlier one, and the directories.
pub record Disk : Type 0 where
  pub files : List (List ℕ × List ℕ)
  pub dirs : List (List ℕ)

-- What the system permits: `fopen` for reading and for writing, `mkdir`, how many bytes of a piece
-- `fwrite` takes, how many of a file's bytes `fread` gives before a read fails, how many of the bytes
-- written to a file are in it when `fclose` has returned, and what `stat` gives as the size of a
-- directory.
pub record Os : Type 0 where
  pub can_read : List ℕ → Bool
  pub can_write : List ℕ → Bool
  pub can_make : List ℕ → Bool
  pub accepts : List ℕ → List ℕ → ℕ
  pub gives : List ℕ → ℕ → ℕ
  pub flushes : List ℕ → ℕ → ℕ
  pub dir_size : List ℕ → ℕ

unfoldable pub content_of : List ℕ → List (List ℕ × List ℕ) → Option (List ℕ)
content_of path [] = none
content_of path ((p, c) ∷ files) =
    let earlier = content_of path files in if bytes_eq p path then some c else earlier

unfoldable pub is_listed : List ℕ → List (List ℕ) → Bool
is_listed path [] = false
is_listed path (d ∷ dirs) = let rest = is_listed path dirs in if bytes_eq d path then true else rest

abbrev pub is_some : Option (List ℕ) → Bool
is_some none = false
is_some (some c) = true

-- `access(path, F_OK) == 0`
unfoldable pub file_exists : Disk → List ℕ → Bool
unfolding content_of is_listed
file_exists disk path = is_some (content_of path disk.files) || is_listed path disk.dirs

abbrev pub size_or : Option (List ℕ) → ℤ → ℤ
size_or (some c) size = pos (length c)
size_or none size = size

-- `st_size`, or -1 when `stat` fails.
unfoldable pub get_file_size : Os → Disk → List ℕ → ℤ
unfolding content_of is_listed
get_file_size os disk path =
    size_or (content_of path disk.files)
      (if is_listed path disk.dirs then pos (os.dir_size path) else negsuc 0)

abbrev pub same_size : ℤ → ℤ → Bool
same_size (pos m) (pos n) = m == n
same_size (negsuc m) (negsuc n) = m == n
same_size _ _ = false

-- The bytes of a file: none for a directory.
abbrev pub bytes_of : Option (List ℕ) → List ℕ
bytes_of none = []
bytes_of (some c) = c

-- The bytes that the calls of `fread` give in all; an error is for them like the end of the file.
abbrev pub read_bytes : Os → Disk → List ℕ → List ℕ
read_bytes os disk path =
    let c = bytes_of (content_of path disk.files) in take (os.gives path (length c)) c

-- What is left of the bytes that were written; the result of `fclose` is not looked at.
abbrev pub flushed : Os → List ℕ → List ℕ → List ℕ
flushed os path out = take (os.flushes path (length out)) out

unfoldable pub compare_files : Os → Disk → List ℕ → List ℕ → Bool
unfolding file_exists get_file_size content_of
compare_files os disk file1 file2 =
    if not (file_exists disk file2)
    then false
    else if not (same_size (get_file_size os disk file1) (get_file_size os disk file2))
    then false
    else if not ((file_exists disk file1 && os.can_read file1) && os.can_read file2)
    then false
    else compare_contents buffer_size (suc (length (read_bytes os disk file1)))
        (read_bytes os disk file1) (read_bytes os disk file2)

-- `mkdir(path) != 0 && errno != EEXIST` is a failure.
unfoldable pub make_directory : Os → List ℕ → Disk → Bool × Disk
unfolding file_exists
make_directory os path disk =
    if file_exists disk path
    then (true, disk)
    else if os.can_make path
    then (true, record disk { dirs = path ∷ disk.dirs })
    else (false, disk)

-- The loop over the path: a directory for each '/', and at last for the whole path.
unfoldable pub make_parents : Os → List ℕ → List ℕ → Disk → Bool × Disk
unfolding make_directory
make_parents os front [] disk = make_directory os front disk
make_parents os front (c ∷ rest) disk =
    let made = make_directory os front disk in
    let after = make_parents os (front ++ c ∷ []) rest made.1 in
    let passed = make_parents os (front ++ c ∷ []) rest disk in
    if c == b'/' then (if made.0 then after else made) else passed

-- `p = tmp + 1`: the loop starts behind the first byte.
abbrev pub from_second : Os → List ℕ → Disk → Bool × Disk
from_second os [] disk = make_directory os [] disk
from_second os (c ∷ p) disk = make_parents os (c ∷ []) p disk

-- `none`: for an empty path the code reads and writes in front of its buffer.
unfoldable pub create_directory : Os → List ℕ → Disk → Option (Bool × Disk)
unfolding file_exists make_parents make_directory
create_directory os path disk = if file_exists disk path then some (true, disk) else elim path [
  | [] ↦ none
  | c ∷ p ↦ some (from_second os (strip_slash (take 1023 (c ∷ p))) disk)
]

-- The copy loop with a buffer of `size` bytes: `success`, and what is in the target.
unfoldable pub copy_loop : ℕ → ℕ → (List ℕ → ℕ) → List ℕ → List ℕ → Bool × List ℕ
copy_loop size zero accepts source out = (true, out)
copy_loop size (suc f) accepts source out =
    let piece = take size source in
    let rest = copy_loop size f accepts (drop size source) (out ++ piece) in
    if ltb 0 (length piece)
    then (if accepts piece == length piece
        then rest
        else (false, out ++ take (accepts piece) piece))
    else (true, out)

-- Behind the two calls of `fopen`.
unfoldable pub copy_file : Os → List ℕ → List ℕ → Disk → Bool × Disk
unfolding copy_loop file_exists content_of
copy_file os source_file target_file disk =
    let source = read_bytes os disk source_file in
    let copied = copy_loop buffer_size (suc (length source)) (os.accepts target_file) source [] in
    if not (file_exists disk source_file && os.can_read source_file)
    then (false, disk)
    else if not (os.can_write target_file)
    then (false, disk)
    else (
      copied.0,
      record disk { files = (target_file, flushed os target_file copied.1) ∷ disk.files },
    )

abbrev pub behind_parent : Os → List ℕ → List ℕ → Option (Bool × Disk) → Option (Bool × Disk)
behind_parent os source_file target_file none = none
behind_parent os source_file target_file (some (false, disk)) = some (false, disk)
behind_parent os source_file target_file (some (true, disk)) =
    some (copy_file os source_file target_file disk)

abbrev pub with_parent : Os → List ℕ → List ℕ → Disk → Option (List ℕ) → Option (Bool × Disk)
with_parent os source_file target_file disk none = some (copy_file os source_file target_file disk)
with_parent os source_file target_file disk (some dir) =
    behind_parent os source_file target_file (create_directory os dir disk)

unfoldable pub sync_file : Os → List ℕ → List ℕ → Disk → Option (Bool × Disk)
unfolding compare_files create_directory copy_file parent
sync_file os source_file target_file disk =
    if compare_files os disk source_file target_file
    then some (true, disk)
    else with_parent os source_file target_file disk (parent target_file)
