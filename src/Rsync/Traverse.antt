-- ===== src/Rsync/Traverse.antt =====
-- `traverse_directory` of sync_util.c: the walk over the source tree that fills the list of files.
use apue_learning.Common.{
  ℕ, ℤ, ◌≡◌, ap, ◌∙◌, sym, Bool, true, false, ◌||◌, List, [], ◌∷◌, ◌++◌, append_assoc, append-nil,
  bytes_eq, if◌then◌else◌,
}
use apue_learning.Rsync.{FileInfo, FileList, add_file_to_list, new_file}
use apue_learning.Rsync.Files.{IsValid, contents, add_file_to_list-contents}
use apue_learning.Rsync.Paths.{join_path}

-- What `readdir` gives for a directory, in its order; `unreadable` is a directory that `opendir`
-- refuses, and the size of a file is -1 when `stat` fails.
pub data Entries : Type 0 where
  unreadable : Entries
  no_more : Entries
  file : (name : List ℕ) (size : ℤ) → Entries → Entries
  directory : (name : List ℕ) → Entries → Entries → Entries

-- "." and "..".
abbrev pub is_dots : List ℕ → Bool
is_dots name = bytes_eq name (b'.' ∷ []) || bytes_eq name (b'.' ∷ b'.' ∷ [])

unfoldable pub traverse_directory :
    FileInfo → (source_path target_path : List ℕ) → Entries → FileList → FileList
unfolding add_file_to_list join_path
traverse_directory junk source target unreadable l = l
traverse_directory junk source target no_more l = l
traverse_directory junk source target (file name size rest) l =
    traverse_directory junk source target rest (
      if is_dots name
      then l
      else add_file_to_list junk l (join_path source name) (join_path target name) size)
traverse_directory junk source target (directory name inner rest) l =
    let inside = traverse_directory junk (join_path source name) (join_path target name) inner l in
    traverse_directory junk source target rest (if is_dots name then l else inside)

-- The files below a directory, in the order of the walk.
unfoldable pub files_below : (source_path target_path : List ℕ) → Entries → List FileInfo
unfolding join_path
files_below source target unreadable = []
files_below source target no_more = []
files_below source target (file name size rest) =
    (if is_dots name
      then []
      else new_file (join_path source name) (join_path target name) size ∷ [])
    ++ files_below source target rest
files_below source target (directory name inner rest) =
    let inside = files_below (join_path source name) (join_path target name) inner in
    (if is_dots name then [] else inside) ++ files_below source target rest

-- A list that is well formed and has `more` behind the files of `l`.
record Extends (l l' : FileList) (more : List FileInfo) : Type 0 where
  valid : IsValid l'
  contents_eq : contents l' ≡ contents l ++ more

Extends-refl : (l : FileList) → IsValid l → Extends l l []
Extends-refl l v = record { valid = v; contents_eq = sym (append-nil (contents l)) }

Extends-trans :
    (l l' l'' : FileList) (a b : List FileInfo)
    → Extends l l' a
    → Extends l' l'' b
    → Extends l l'' (a ++ b)
Extends-trans l l' l'' a b e f = record {
  valid = f.valid;
  contents_eq = f.contents_eq ∙ ap (λ c. c ++ b) e.contents_eq ∙ append_assoc (contents l) a b;
}

Extends-if :
    (c : Bool) (l l' : FileList) (more : List FileInfo)
    → IsValid l
    → Extends l l' more
    → Extends l (if c then l else l') (if c then [] else more)
Extends-if true l l' more v e = Extends-refl l v
Extends-if false l l' more v e = e

add_file-Extends :
    (junk : FileInfo) (l : FileList) (source target : List ℕ) (size : ℤ)
    → IsValid l
    → Extends l (add_file_to_list junk l source target size) (new_file source target size ∷ [])
add_file-Extends junk l source target size v =
    let (a, b) = add_file_to_list-contents junk l source target size v in
    record { valid = a; contents_eq = b }

traverse-Extends :
    (junk : FileInfo) (source target : List ℕ) (d : Entries) (l : FileList)
    → IsValid l
    → Extends l (traverse_directory junk source target d l) (files_below source target d)
unfolding traverse_directory files_below
traverse-Extends junk source target unreadable l v = Extends-refl l v
traverse-Extends junk source target no_more l v = Extends-refl l v
traverse-Extends junk source target (file name size rest) l v =
    let l' =
      if is_dots name
      then l
      else add_file_to_list junk l (join_path source name) (join_path target name) size in
    let e : Extends l l' (
        if is_dots name
        then []
        else new_file (join_path source name) (join_path target name) size ∷ []) =
      Extends-if (is_dots name) l
        (add_file_to_list junk l (join_path source name) (join_path target name) size)
        (new_file (join_path source name) (join_path target name) size ∷ []) v
        (add_file-Extends junk l (join_path source name) (join_path target name) size v) in
    Extends-trans l l' (traverse_directory junk source target rest l')
      (if is_dots name
        then []
        else new_file (join_path source name) (join_path target name) size ∷ [])
      (files_below source target rest) e (traverse-Extends junk source target rest l' e.valid)
traverse-Extends junk source target (directory name inner rest) l v =
    let inside = traverse_directory junk (join_path source name) (join_path target name) inner l in
    let more = files_below (join_path source name) (join_path target name) inner in
    let l' = if is_dots name then l else inside in
    let e : Extends l l' (if is_dots name then [] else more) =
      Extends-if (is_dots name) l inside more v
        (traverse-Extends junk (join_path source name) (join_path target name) inner l v) in
    Extends-trans l l' (traverse_directory junk source target rest l')
      (if is_dots name then [] else more) (files_below source target rest) e
      (traverse-Extends junk source target rest l' e.valid)

-- On a well-formed list, the walk puts the files below the directory behind those that are there, in
-- the order of the walk, each with its own two paths, and leaves out the entries "." and "..".
pub traverse_directory-files_below :
    (junk : FileInfo) (source target : List ℕ) (d : Entries) (l : FileList)
    → IsValid l
    → contents (traverse_directory junk source target d l)
      ≡ contents l ++ files_below source target d
traverse_directory-files_below junk source target d l v =
    (traverse-Extends junk source target d l v).contents_eq
