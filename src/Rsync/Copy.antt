-- ===== src/Rsync/Copy.antt =====
-- `create_directory` and `sync_file` of sync_util.c. What the system calls answer is a record of
-- functions and of the results of `read` in their order.
use apue_learning.Common.{
  ℕ, ◌≡◌, refl, ap, ◌∙◌, sym, Bool, true, false, not, ◌||◌, List, [], ◌∷◌, ◌++◌, Option, none, some,
  ◌==◌, ==_refl, if◌then◌else◌, length, take, append_assoc, append-nil,
}
use apue_learning.Rsync.Compare.{File, compare_files}

-- A result of `read`: bytes (none at the end of the file), or -1.
pub data Read : Type 0 where
  got : List ℕ → Read
  read_failed : Read

pub record Os : Type 0 where
  pub disk : List ℕ → Option File
  pub exists : List ℕ → Bool
  -- `mkdir` succeeds or finds that the path is there
  pub mkdir : List ℕ → Bool
  pub open_source : Bool
  pub open_target : Bool
  pub reads : List Read
  -- how many of the bytes `write` takes
  pub write : List ℕ → ℕ

-- The loop over the path: `mkdir` at each '/', and at last of the whole path.
unfoldable pub make_parents : (List ℕ → Bool) → List ℕ → List ℕ → Bool
make_parents mkdir done [] = mkdir done
make_parents mkdir done (c ∷ rest) =
    let more = make_parents mkdir (done ++ c ∷ []) rest in
    if c == b'/' then (if mkdir done then more else false) else more

-- The path without a '/' at its end.
unfoldable pub strip_slash : List ℕ → List ℕ
strip_slash [] = []
strip_slash (c ∷ []) = if c == b'/' then [] else c ∷ []
strip_slash (c ∷ d ∷ p) = c ∷ strip_slash (d ∷ p)

-- `p = tmp + 1`: the loop starts behind the first byte.
abbrev pub from_second : (List ℕ → Bool) → List ℕ → Bool
from_second mkdir [] = mkdir []
from_second mkdir (c ∷ p) = make_parents mkdir (c ∷ []) p

-- `none`: for the empty path the code reads and writes in front of its buffer.
unfoldable pub create_directory : Os → List ℕ → Option Bool
unfolding make_parents strip_slash
create_directory os [] = if os.exists [] then some true else none
create_directory os (c ∷ p) =
    if os.exists (c ∷ p)
    then some true
    else some (from_second os.mkdir (strip_slash (take 1023 (c ∷ p))))

-- `strrchr(path, '/')`: what is in front of the last '/'.
unfoldable pub parent : List ℕ → Option (List ℕ)
parent [] = none
parent (c ∷ p) = elim (parent p) [
  | some d ↦ some (c ∷ d)
  | none ↦ if c == b'/' then some [] else none
]

-- The copy loop: `success`, and what is in the target.
unfoldable pub copy_loop : (List ℕ → ℕ) → List ℕ → List Read → Bool × List ℕ
copy_loop write out [] = (true, out)
copy_loop write out (read_failed ∷ rs) = (true, out)
copy_loop write out (got [] ∷ rs) = (true, out)
copy_loop write out (got (c ∷ cs) ∷ rs) =
    let more = copy_loop write (out ++ c ∷ cs) rs in
    if write (c ∷ cs) == length (c ∷ cs)
    then more
    else (false, out ++ take (write (c ∷ cs)) (c ∷ cs))

-- What a call of `sync_file` does: nothing, or a copy that ends with this content of the target.
pub data Outcome : Type 0 where
  skipped : Outcome
  refused : Outcome
  copied : (success : Bool) (target : List ℕ) → Outcome
  undefined : Outcome

abbrev pub copy_opened : Os → Outcome
copy_opened os =
    if not os.open_source
    then refused
    else if not os.open_target
    then refused
    else copied ((copy_loop os.write [] os.reads).0) ((copy_loop os.write [] os.reads).1)

abbrev pub with_parent : Os → Option Bool → Outcome
with_parent os none = undefined
with_parent os (some false) = refused
with_parent os (some true) = copy_opened os

abbrev pub in_parent : Os → Option (List ℕ) → Outcome
in_parent os none = copy_opened os
in_parent os (some dir) = with_parent os (create_directory os dir)

-- The return value is 1 for `skipped` and for `copied true`. What follows the copy sets the file times and
-- closes the files; it changes neither the contents nor the result, and is not modelled.
unfoldable pub sync_file : Os → (source_file target_file : List ℕ) → (dry_run : Bool) → Outcome
unfolding compare_files create_directory parent copy_loop
sync_file os source_file target_file dry_run =
    if compare_files os.disk source_file target_file
    then skipped
    else if dry_run
    then skipped
    else in_parent os (parent target_file)

-- The bytes that are read before the end of the file or an error.
unfoldable pub bytes_read : List Read → List ℕ
bytes_read [] = []
bytes_read (read_failed ∷ rs) = []
bytes_read (got [] ∷ rs) = []
bytes_read (got (c ∷ cs) ∷ rs) = (c ∷ cs) ++ bytes_read rs

if_true :
    (b : Bool) (more fail : Bool × List ℕ) (t : List ℕ)
    → fail.0 ≡ false
    → (more.0 ≡ true → more.1 ≡ t)
    → (if b then more else fail).0 ≡ true
    → (if b then more else fail).1 ≡ t
if_true true more fail t n k h = k h
if_true false more fail t n k h = cc

copy_loop-true :
    (write : List ℕ → ℕ) (out : List ℕ) (rs : List Read)
    → (copy_loop write out rs).0 ≡ true
    → (copy_loop write out rs).1 ≡ out ++ bytes_read rs
unfolding copy_loop bytes_read
copy_loop-true write out [] h = sym (append-nil out)
copy_loop-true write out (read_failed ∷ rs) h = sym (append-nil out)
copy_loop-true write out (got [] ∷ rs) h = sym (append-nil out)
copy_loop-true write out (got (c ∷ cs) ∷ rs) h =
    if_true (write (c ∷ cs) == length (c ∷ cs)) (copy_loop write (out ++ c ∷ cs) rs)
      (false, out ++ take (write (c ∷ cs)) (c ∷ cs)) (out ++ ((c ∷ cs) ++ bytes_read rs)) refl
      (λ k. copy_loop-true write (out ++ c ∷ cs) rs k ∙ append_assoc out (c ∷ cs) (bytes_read rs)) h

copy_loop-full :
    (write : List ℕ → ℕ) (out : List ℕ) (rs : List Read)
    → ((s : List ℕ) → write s ≡ length s)
    → (copy_loop write out rs).0 ≡ true
unfolding copy_loop
copy_loop-full write out [] f = refl
copy_loop-full write out (read_failed ∷ rs) f = refl
copy_loop-full write out (got [] ∷ rs) f = refl
copy_loop-full write out (got (c ∷ cs) ∷ rs) f =
    ap
      (λ n.
        (if n == length (c ∷ cs)
          then copy_loop write (out ++ c ∷ cs) rs
          else (false, out ++ take n (c ∷ cs))).0)
      (f (c ∷ cs))
    ∙ ap
        (λ b.
          (if b
            then copy_loop write (out ++ c ∷ cs) rs
            else (false, out ++ take (length (c ∷ cs)) (c ∷ cs))).0)
        (==_refl (length (c ∷ cs)))
    ∙ copy_loop-full write (out ++ c ∷ cs) rs f

-- An outcome of which a success means that the target holds these bytes.
abbrev pub Faithful : List ℕ → Outcome → Type 0
Faithful bytes (copied true target) = target ≡ bytes
Faithful bytes _ = Unit

copied-Faithful :
    (bytes : List ℕ) (r : Bool × List ℕ)
    → (r.0 ≡ true → r.1 ≡ bytes)
    → Faithful bytes (copied (r.0) (r.1))
copied-Faithful bytes (true, t) h = h refl
copied-Faithful bytes (false, t) h = tt

copy_opened-Faithful : (os : Os) → Faithful (bytes_read os.reads) (copy_opened os)
copy_opened-Faithful os = if_Faithful (not os.open_source) refused _ tt (
    if_Faithful (not os.open_target) refused _ tt (
      copied-Faithful (bytes_read os.reads) (copy_loop os.write [] os.reads)
        (copy_loop-true os.write [] os.reads)))
  where
    if_Faithful :
        (b : Bool) (x y : Outcome)
        → Faithful (bytes_read os.reads) x
        → Faithful (bytes_read os.reads) y
        → Faithful (bytes_read os.reads) (if b then x else y)
    if_Faithful true x y hx hy = hx
    if_Faithful false x y hx hy = hy

in_parent-Faithful :
    (os : Os) (d : Option (List ℕ)) → Faithful (bytes_read os.reads) (in_parent os d)
in_parent-Faithful os none = copy_opened-Faithful os
in_parent-Faithful os (some dir) = made (create_directory os dir)
  where
    made : (r : Option Bool) → Faithful (bytes_read os.reads) (with_parent os r)
    made none = tt
    made (some false) = tt
    made (some true) = copy_opened-Faithful os

-- Whatever the system calls answer, when `sync_file` opens both files and reports a successful copy,
-- the target holds the bytes that were read from the source up to the end of the file or up to a
-- read error.
pub sync_file-Faithful :
    (os : Os) (source_file target_file : List ℕ) (dry_run : Bool)
    → Faithful (bytes_read os.reads) (sync_file os source_file target_file dry_run)
unfolding sync_file
sync_file-Faithful os source_file target_file dry_run =
    decided (compare_files os.disk source_file target_file) dry_run
  where
    decided :
        (same dry : Bool)
        → Faithful
            (bytes_read os.reads)
            (if same then skipped else if dry then skipped else in_parent os (parent target_file))
    decided true dry = tt
    decided false true = tt
    decided false false = in_parent-Faithful os (parent target_file)

-- A dry run, and a run on a pair of files that `compare_files` takes for equal, writes nothing.
pub sync_file-skipped :
    (os : Os) (source_file target_file : List ℕ) (dry_run : Bool)
    → (compare_files os.disk source_file target_file || dry_run) ≡ true
    → sync_file os source_file target_file dry_run ≡ skipped
unfolding sync_file
sync_file-skipped os source_file target_file dry_run h =
    decided (compare_files os.disk source_file target_file) dry_run h
  where
    decided :
        (same dry : Bool)
        → (same || dry) ≡ true
        → (if same then skipped else if dry then skipped else in_parent os (parent target_file))
          ≡ skipped
    decided true dry k = refl
    decided false true k = refl
    decided false false k = cc

-- When each `write` takes all the bytes that it is given, the copy loop succeeds and appends exactly
-- the bytes read before the end of the file or an error.
pub copy_loop-bytes_read :
    (write : List ℕ → ℕ) (out : List ℕ) (rs : List Read)
    → ((s : List ℕ) → write s ≡ length s)
    → copy_loop write out rs ≡ (true, out ++ bytes_read rs)
copy_loop-bytes_read write out rs f =
    pair (copy_loop write out rs) (copy_loop-full write out rs f)
      (copy_loop-true write out rs (copy_loop-full write out rs f))
  where
    pair :
        (r : Bool × List ℕ)
        → r.0 ≡ true
        → r.1 ≡ out ++ bytes_read rs
        → r ≡ (true, out ++ bytes_read rs)
    pair r a b = ap (λ x. (x, r.1)) a ∙ ap (λ y. (true, y)) b
