-- ===== src/MultiProcess/Sync.antt =====
-- What `sync_file` of the copier of several processes does to the files of the disk.
use apue_learning.Common.{
  ℕ, ℤ, pos, negsuc, zero, suc, ◌<◌, ◌≡◌, refl, ap, ◌∙◌, sym, subst, Bool, true, false, ◌&&◌, not,
  List, [], ◌∷◌, Option, none, some, if◌then◌else◌, length, take, take_all, bytes_eq, bytes_eq→eq,
  bytes_eq_refl, arith, Bool-cases, inl, inr,
}
use apue_learning.Rsync.Compare.{compare_contents, compare_contents-bytes_eq}
use apue_learning.Rsync.Copy.{parent}
use apue_learning.MultiProcess.Disk.{
  Disk, Os, buffer_size, content_of, is_listed, file_exists, get_file_size, size_or, same_size,
  bytes_of, read_bytes, flushed, compare_files, create_directory, copy_loop, copy_file,
  behind_parent, with_parent, sync_file,
}
use apue_learning.MultiProcess.Directories.{
  Permits, Reliable, Made, made, no_path, create_directory-Made,
}
use apue_learning.MultiProcess.CopyLoop.{copy_loop-true, copy_loop-full}

-- The files but for one are as they were.
abbrev pub Others : List ℕ → Disk → Disk → Type 0
Others path d d' =
    (q : List ℕ) → bytes_eq path q ≡ false → content_of q d'.files ≡ content_of q d.files

-- How a call of `sync_file` ends, for a source with the content `c`.
pub data Synced (os : Os) (target c : List ℕ) (disk : Disk) : Option (Bool × Disk) → Type 0 where
  succeeded :
      (d : Disk)
      → (Reliable os → content_of target d.files ≡ some c)
      → Others target disk d
      → Synced os target c disk (some (true, d))
  failed :
      (d : Disk) → ¬ Permits os → Others target disk d → Synced os target c disk (some (false, d))
  empty_parent : parent target ≡ some [] → Synced os target c disk none

-- The files of the disk, by their paths.
content-put :
    (path c : List ℕ) (files : List (List ℕ × List ℕ))
    → content_of path ((path, c) ∷ files) ≡ some c
unfolding content_of
content-put path c files = rw (bytes_eq_refl path) refl

content-put_other :
    (path c q : List ℕ) (files : List (List ℕ × List ℕ))
    → bytes_eq path q ≡ false
    → content_of q ((path, c) ∷ files) ≡ content_of q files
unfolding content_of
content-put_other path c q files h = rw h refl

guards :
    (a b d e : Bool)
    → (if not a then false else if not b then false else if not d then false else e) ≡ true
    → (b ≡ true) × (e ≡ true)
guards true true true e h = (refl, h)
guards true true false e h = absurd cc
guards true false d e h = absurd cc
guards false b d e h = absurd cc

no_bytes :
    (c : List ℕ) (listed : Bool) (size : ℕ)
    → 0 < size
    → same_size (pos (length c)) (if listed then pos size else negsuc 0) ≡ true
    → bytes_eq c [] ≡ true
    → ⊥
no_bytes [] true zero lt h k = omega arith
no_bytes [] true (suc n) lt h k = absurd (ground (arith, h))
no_bytes [] false n lt h k = absurd cc
no_bytes (x ∷ c) listed n lt h k = absurd cc

-- What holds behind another disk with the same files holds of this one.
moved-Synced :
    {os : Os} {target c : List ℕ} {r : Option (Bool × Disk)} (disk d : Disk)
    → d.files ≡ disk.files
    → Synced os target c d r
    → Synced os target c disk r
moved-Synced disk d k (succeeded e q o) = succeeded e q (λ p b. o p b ∙ ap (content_of p) k)
moved-Synced disk d k (failed e n o) = failed e n (λ p b. o p b ∙ ap (content_of p) k)
moved-Synced disk d k (empty_parent q) = empty_parent q

module _ (os : Os) (source target c : List ℕ) where
  exists_lem :
      (disk : Disk) → content_of source disk.files ≡ some c → file_exists disk source ≡ true
  unfolding file_exists
  exists_lem disk q = rw q refl

  -- What is read of a file, on a reliable system, and what is left of what was written to it.
  all_read :
      (disk : Disk) (path : List ℕ) (o : Option (List ℕ))
      → Reliable os
      → content_of path disk.files ≡ o
      → read_bytes os disk path ≡ bytes_of o
  all_read disk path o l q =
      ap (λ x. take (os.gives path (length (bytes_of x))) (bytes_of x)) q
      ∙ ap (λ n. take n (bytes_of o)) (l.gives_all path (length (bytes_of o)))
      ∙ take_all (bytes_of o)

  all_flushed : (out : List ℕ) → Reliable os → flushed os target out ≡ out
  all_flushed out l = ap (λ n. take n out) (l.flushes_all target (length out)) ∙ take_all out

  -- `copy_file` behind the directories.
  copy-Synced :
      (disk : Disk)
      → content_of source disk.files ≡ some c
      → Synced os target c disk (some (copy_file os source target disk))
  unfolding copy_file
  copy-Synced disk q =
      let given = read_bytes os disk source in
      rw (exists_lem disk q) (elim (Bool-cases (os.can_read source)) [
        | inr r ↦ rw r (failed disk (λ h. let z = h.reads source in absurd cc) (λ p e. refl))
        | inl r ↦ rw r (elim (Bool-cases (os.can_write target)) [
          | inr w ↦ rw w (failed disk (λ h. let z = h.writes target in absurd cc) (λ p e. refl))
          | inl w ↦ rw w (
              written disk (copy_loop buffer_size (suc (length given)) (os.accepts target) given [])
                (λ l e.
                  copy_loop-true buffer_size (suc (length given)) (os.accepts target) given []
                    (omega arith) (omega arith) e
                  ∙ all_read disk source (some c) l q)
                (λ h.
                  copy_loop-full buffer_size (suc (length given)) (os.accepts target) given []
                    (λ p. h.takes target p)))
        ])
      ])
    where
      written :
          (disk : Disk) (r : Bool × List ℕ)
          → (Reliable os → r.0 ≡ true → r.1 ≡ c)
          → (Permits os → r.0 ≡ true)
          → Synced os target c disk
              (some (r.0, record disk { files = (target, flushed os target r.1) ∷ disk.files }))
      written disk (true, out) h k =
          let kept = flushed os target out in
          succeeded (record disk { files = (target, kept) ∷ disk.files })
            (λ l. content-put target kept disk.files ∙ ap some (all_flushed out l ∙ h l refl))
            (λ p e. content-put_other target kept p disk.files e)
      written disk (false, out) h k =
          let kept = flushed os target out in
          failed (record disk { files = (target, kept) ∷ disk.files })
            (λ p. let z = k p in absurd cc) (λ p e. content-put_other target kept p disk.files e)

  abbrev fallback : List ℕ → Disk → ℤ
  fallback p disk = if is_listed p disk.dirs then pos (os.dir_size p) else negsuc 0

  abbrev compared : Disk → Bool
  compared disk =
      compare_contents buffer_size (suc (length (read_bytes os disk source)))
        (read_bytes os disk source) (read_bytes os disk target)

  parts :
      (disk : Disk)
      → compare_files os disk source target ≡ true
      → (same_size (get_file_size os disk source) (get_file_size os disk target) ≡ true)
        × (compared disk ≡ true)
  unfolding compare_files
  parts disk h =
      guards (file_exists disk target)
        (same_size (get_file_size os disk source) (get_file_size os disk target))
        ((file_exists disk source && os.can_read source) && os.can_read target) (compared disk) h

  equal-bytes :
      (disk : Disk) (o : Option (List ℕ))
      → Reliable os
      → content_of source disk.files ≡ some c
      → content_of target disk.files ≡ o
      → compare_files os disk source target ≡ true
      → bytes_eq c (bytes_of o) ≡ true
  equal-bytes disk o l q qt h =
      sym (
        compare_contents-bytes_eq buffer_size (suc (length c)) c (bytes_of o) (omega arith)
          (omega arith))
      ∙ subst (λ x. compare_contents buffer_size (suc (length x)) x (bytes_of o) ≡ true)
          (all_read disk source (some c) l q)
          (subst
            (λ x.
              compare_contents buffer_size (suc (length (read_bytes os disk source)))
                (read_bytes os disk source) x
              ≡ true)
            (all_read disk target o l qt) (parts disk h).1)

  -- Two files that `compare_files` takes for equal.
  same-content :
      (disk : Disk) (o : Option (List ℕ))
      → Reliable os
      → ((p : List ℕ) → 0 < os.dir_size p)
      → content_of source disk.files ≡ some c
      → content_of target disk.files ≡ o
      → compare_files os disk source target ≡ true
      → o ≡ some c
  unfolding get_file_size
  same-content disk (some e) l nz q qt h =
      ap some (sym (bytes_eq→eq c e (equal-bytes disk (some e) l q qt h)))
  same-content disk none l nz q qt h = absurd (
      no_bytes c (is_listed target disk.dirs) (os.dir_size target) (nz target)
        (subst (λ x. same_size (pos (length c)) (size_or x (fallback target disk)) ≡ true) qt
          (subst
            (λ x.
              same_size (size_or x (fallback source disk)) (get_file_size os disk target) ≡ true)
            q (parts disk h).0))
        (equal-bytes disk none l q qt h))

  -- `sync_file` as a whole.
  pub sync-Synced :
      (disk : Disk)
      → ((p : List ℕ) → 0 < os.dir_size p)
      → content_of source disk.files ≡ some c
      → Synced os target c disk (sync_file os source target disk)
  unfolding sync_file
  sync-Synced disk nz q = elim (Bool-cases (compare_files os disk source target)) [
    | inl e ↦ rw e (
        succeeded disk (λ l. same-content disk (content_of target disk.files) l nz q refl e)
          (λ p k. refl))
    | inr e ↦ rw e (in-parent (parent target) refl)
  ]
    where
      behind :
          (dir : List ℕ) (r : Option (Bool × Disk))
          → parent target ≡ some dir
          → Made os dir disk r
          → Synced os target c disk (behind_parent os source target r)
      behind dir r h (made true d k b) =
          moved-Synced disk d k (copy-Synced d (ap (content_of source) k ∙ q))
      behind dir r h (made false d k b) =
          failed d (λ p. let z = b p in absurd cc) (λ p e. ap (content_of p) k)
      behind dir r h (no_path k) = empty_parent (h ∙ ap some k)

      in-parent :
          (o : Option (List ℕ))
          → parent target ≡ o
          → Synced os target c disk (with_parent os source target disk o)
      in-parent none h = copy-Synced disk q
      in-parent (some dir) h =
          behind dir (create_directory os dir disk) h (create_directory-Made os dir disk)
