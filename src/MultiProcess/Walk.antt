-- ===== src/MultiProcess/Walk.antt =====
-- The files that `traverse_directory` of the copier of several processes finds.
use apue_learning.Common.{
  ℕ, ℤ, zero, suc, ◌≤◌, subst, Bool, true, false, List, [], ◌∷◌, ◌++◌, arith, length, take,
  if◌then◌else◌, All, All-append,
}
use apue_learning.Rsync.Traverse.{Entries, unreadable, no_more, file, directory, is_dots}
use apue_learning.Rsync.Paths.{take_le}
use apue_learning.MultiProcess.{
  FileInfo, FileList, add_file_to_list, entry_path, traverse_directory,
}
use apue_learning.MultiProcess.Lists.{
  IsValid, Extends, Extends-refl, Extends-trans, add_file-Extends,
}

-- The paths of the files below a directory, in the order of the walk.
unfoldable pub paths_below : List ℕ → Entries → List (List ℕ)
paths_below path unreadable = []
paths_below path no_more = []
paths_below path (file name size rest) =
    (if is_dots name then [] else entry_path path name ∷ []) ++ paths_below path rest
paths_below path (directory name inner rest) =
    let inside = paths_below (entry_path path name) inner in
    (if is_dots name then [] else inside) ++ paths_below path rest

pub entry_path-short : (path name : List ℕ) → length (entry_path path name) ≤ 1022
unfolding entry_path
entry_path-short path name = take_short 1022 _
  where
    take_short : (n : ℕ) (xs : List ℕ) → length (take n xs) ≤ n
    take_short zero xs = omega arith
    take_short (suc n) [] = omega arith
    take_short (suc n) (x ∷ xs) = omega (arith, take_short n xs)

Extends-if :
    (c : Bool) (l l' : FileList) (more : List (List ℕ))
    → IsValid l
    → Extends l l' more
    → Extends l (if c then l else l') (if c then [] else more)
Extends-if true l l' more v e = Extends-refl l v
Extends-if false l l' more v e = e

module _ (junk : FileInfo) (get_file_size : List ℕ → ℤ) where
  abbrev add : FileList → List ℕ → FileList
  add l p = add_file_to_list junk get_file_size l p

  abbrev walk : List ℕ → Entries → FileList → FileList
  walk path d l = traverse_directory junk get_file_size path d l

  entry-Extends :
      (l : FileList) (path name : List ℕ)
      → IsValid l
      → Extends l (add l (entry_path path name)) (entry_path path name ∷ [])
  entry-Extends l path name v =
      subst (λ p. Extends l (add l (entry_path path name)) (p ∷ []))
        (take_le 1023 (entry_path path name) (omega (arith, entry_path-short path name)))
        (add_file-Extends junk get_file_size l (entry_path path name) v)

  pub walk-Extends :
      (path : List ℕ) (d : Entries) (l : FileList)
      → IsValid l
      → Extends l (walk path d l) (paths_below path d)
  unfolding traverse_directory paths_below
  walk-Extends path unreadable l v = Extends-refl l v
  walk-Extends path no_more l v = Extends-refl l v
  walk-Extends path (file name size rest) l v =
      let here = entry_path path name ∷ [] in
      let l' = if is_dots name then l else add l (entry_path path name) in
      let e : Extends l l' (if is_dots name then [] else here) =
        Extends-if (is_dots name) l (add l (entry_path path name)) here v
          (entry-Extends l path name v) in
      Extends-trans l l' (walk path rest l') (if is_dots name then [] else here)
        (paths_below path rest) e (walk-Extends path rest l' e.valid)
  walk-Extends path (directory name inner rest) l v =
      let inside = walk (entry_path path name) inner l in
      let here = paths_below (entry_path path name) inner in
      let l' = if is_dots name then l else inside in
      let e : Extends l l' (if is_dots name then [] else here) =
        Extends-if (is_dots name) l inside here v (walk-Extends (entry_path path name) inner l v) in
      Extends-trans l l' (walk path rest l') (if is_dots name then [] else here)
        (paths_below path rest) e (walk-Extends path rest l' e.valid)

All-if :
    (P : List ℕ → Type 0) (c : Bool) (xs : List (List ℕ)) → All P xs → All P (if c then [] else xs)
All-if P true xs h = tt
All-if P false xs h = h

-- Every path of the walk fits in the path field of the list.
pub paths_below-short :
    (path : List ℕ) (d : Entries) → All (λ p. length p ≤ 1023) (paths_below path d)
unfolding paths_below
paths_below-short path unreadable = tt
paths_below-short path no_more = tt
paths_below-short path (file name size rest) =
    let P : List ℕ → Type 0 = λ p. length p ≤ 1023 in
    All-append P (if is_dots name then [] else entry_path path name ∷ []) (paths_below path rest)
      (All-if P (is_dots name) (entry_path path name ∷ [])
        (omega (arith, entry_path-short path name), tt))
      (paths_below-short path rest)
paths_below-short path (directory name inner rest) =
    let P : List ℕ → Type 0 = λ p. length p ≤ 1023 in
    All-append P (if is_dots name then [] else paths_below (entry_path path name) inner)
      (paths_below path rest)
      (All-if P (is_dots name) (paths_below (entry_path path name) inner)
        (paths_below-short (entry_path path name) inner))
      (paths_below-short path rest)
