-- ===== src/MultiProcess/Outcomes.antt =====
-- What `perform_sync` promises: the files copied, true reports, and its end.
use apue_learning.Common.{
  In, ℕ, ltb, ◌≤◌, ◌<◌, ◌≡◌, refl, Bool, true, false, List, [], ◌∷◌, arith, length, All, Bool-cases,
  inl, inr,
}
use apue_learning.Rsync.Traverse.{Entries}
use apue_learning.MultiProcess.{target_file, FileInfo, SyncConfig}
use apue_learning.MultiProcess.Walk.{paths_below}
use apue_learning.MultiProcess.Disk.{Disk, Os, content_of}
use apue_learning.MultiProcess.Directories.{Permits, Reliable}
use apue_learning.MultiProcess.Run.{
  System, all_finished, Performed, refused, no_files, waiting, waited, perform_sync,
}
use apue_learning.MultiProcess.Copied.{Job, Truthful, Done}
use apue_learning.MultiProcess.Turns.{turns, left_of-finished}
use apue_learning.MultiProcess.Perform.{
  Performs, not_started, nothing_to_copy, in_progress, performed, Served, Performs-lem,
}

-- How `perform_sync` ends when it could copy every one of the files `ps`.
pub data Copies (config : SyncConfig) (disk : Disk) (ps : List (List ℕ)) : Performed → Type 0 where
  no_files_there : (d : Disk) → ps ≡ [] → d.files ≡ disk.files → Copies config disk ps (no_files d)
  still_copying : (s : System) → all_finished s.workers ≡ false → Copies config disk ps (waiting s)
  all_copied :
      (s : System) → All (Done config disk s.disk) ps → Copies config disk ps (waited true s)

Performs-Copies :
    {os : Os} {config : SyncConfig} {order : List ℕ} {disk : Disk} {ps : List (List ℕ)}
    {r : Performed}
    → Permits os
    → Performs os config order disk ps r
    → Copies config disk ps r
Performs-Copies p (not_started n) = absurd (n p)
Performs-Copies p (nothing_to_copy d z q) = no_files_there d z q
Performs-Copies p (in_progress s f t l) = still_copying s f
Performs-Copies {ps = ps} p (performed s f t h) = all_copied s (all_in ps (λ z i. i) (h p))
  where
    all_in :
        {P : List ℕ → Type 0} (qs : List (List ℕ))
        → ((z : List ℕ) → In z qs → In z ps)
        → ((z : List ℕ) → In z ps → P z)
        → All P qs
    all_in [] sub k = tt
    all_in (q ∷ qs) sub k = (k q (sub q (inl refl)), all_in qs (λ z i. sub z (inr i)) k)

-- A report that says that a file was synchronised is true of it.
abbrev pub IsTrue : SyncConfig → Disk → Disk → List ℕ × Bool → Type 0
IsTrue config before now (p, true) =
    content_of (target_file config p) now.files ≡ content_of p before.files
IsTrue config before now (p, false) = Unit

-- How `perform_sync` ends on a system that may refuse to open, to make and to write.
pub data Reports (config : SyncConfig) (disk : Disk) : Performed → Type 0 where
  no_target : Reports config disk refused
  no_files_found : (d : Disk) → Reports config disk (no_files d)
  still_running :
      (s : System) → All (IsTrue config disk s.disk) s.reports → Reports config disk (waiting s)
  all_through :
      (s : System) → All (IsTrue config disk s.disk) s.reports → Reports config disk (waited true s)

All-IsTrue :
    (os : Os) (config : SyncConfig) (before now : Disk) (rs : List (List ℕ × Bool))
    → Reliable os
    → All (Truthful os config before now) rs
    → All (IsTrue config before now) rs
All-IsTrue os config before now [] l t = tt
All-IsTrue os config before now ((p, true) ∷ rs) l t =
    (t.0.copied l refl, All-IsTrue os config before now rs l t.1)
All-IsTrue os config before now ((p, false) ∷ rs) l t =
    (tt, All-IsTrue os config before now rs l t.1)

Performs-Reports :
    {os : Os} {config : SyncConfig} {order : List ℕ} {disk : Disk} {ps : List (List ℕ)}
    {r : Performed}
    → Reliable os
    → Performs os config order disk ps r
    → Reports config disk r
Performs-Reports l (not_started n) = no_target
Performs-Reports l (nothing_to_copy d z q) = no_files_found d
Performs-Reports {os} {config} {disk} l (in_progress s f t h) =
    still_running s (All-IsTrue os config disk s.disk s.reports l t)
Performs-Reports {os} {config} {disk} l (performed s f t h) =
    all_through s (All-IsTrue os config disk s.disk s.reports l t)

-- When the source is a directory, every `fork` succeeds, there is at least one process, the target has a
-- name, the system permits everything, no read fails and no `fclose` loses bytes, `stat` gives no
-- directory the size 0, and the files that the walk finds are such that each is found once and has a
-- content, and the targets are told apart, are none of them and have no empty parent,
-- `perform_sync` does, for any order of the children's steps, nothing that C leaves undefined, and it returns 1
-- when all children are through: every file's target has then the content that the file had,
-- and the files are as they were.
pub perform_sync-Copies :
    (junk : FileInfo) (fork : ℕ → Bool) (os : Os) (config : SyncConfig) (order : List ℕ)
    (tree : Entries) (disk : Disk)
    → ((i : ℕ) → fork i ≡ true)
    → 0 < config.process_count
    → 0 < length config.target_dir
    → Permits os
    → Job os config disk (paths_below config.source_dir tree)
    → Copies config disk
        (paths_below config.source_dir tree)
        (perform_sync junk fork os config order true tree disk)
perform_sync-Copies junk fork os config order tree disk forks pc named p j =
    Performs-Copies p (Performs-lem junk fork os config order tree disk forks pc named j)

-- Under the conditions of `perform_sync-Copies`, but on a system that may refuse to open a file, to make a
-- directory and to take all bytes of a write, `perform_sync` returns 1 when all children are through,
-- whatever they have reported; and a report that a file was synchronised is true, while the children
-- run and afterwards: the target has the content that the file had. For this no read of an open
-- file may fail and no `fclose` may lose bytes that were written, since the code looks at neither.
pub perform_sync-Reports :
    (junk : FileInfo) (fork : ℕ → Bool) (os : Os) (config : SyncConfig) (order : List ℕ)
    (tree : Entries) (disk : Disk)
    → ((i : ℕ) → fork i ≡ true)
    → 0 < config.process_count
    → 0 < length config.target_dir
    → Reliable os
    → Job os config disk (paths_below config.source_dir tree)
    → Reports config disk (perform_sync junk fork os config order true tree disk)
perform_sync-Reports junk fork os config order tree disk forks pc named l j =
    Performs-Reports l (Performs-lem junk fork os config order tree disk forks pc named j)

-- How `perform_sync` ends when the children have all the steps that they need.
pub data Ends : Performed → Type 0 where
  ends_refused : Ends refused
  ends_empty : (d : Disk) → Ends (no_files d)
  ends_waited : (s : System) → all_finished s.workers ≡ true → Ends (waited true s)

Performs-Ends :
    {os : Os} {config : SyncConfig} {order : List ℕ} {disk : Disk} {ps : List (List ℕ)}
    {r : Performed}
    → ((z : ℕ) → z < config.process_count → length ps ≤ turns z order)
    → Performs os config order disk ps r
    → Ends r
Performs-Ends h (not_started n) = ends_refused
Performs-Ends h (nothing_to_copy d z q) = ends_empty d
Performs-Ends {config = config} {order} {ps = ps} h (in_progress s f t l) =
    let e = left_of-finished s.workers (λ z. l z (served z)) in absurd cc
  where
    served : (z : ℕ) → Served config order ps z
    served z = elim (Bool-cases (ltb z config.process_count)) [
      | inl e ↦ inr (h z (ground (arith, e)))
      | inr e ↦ inl (ground (arith, e))
    ]
Performs-Ends h (performed s f t l) = ends_waited s f

-- When the source is a directory, every `fork` succeeds, there is at least one process, the target has a
-- name, the files that the walk finds are a job as for `perform_sync-Copies`, and in the order of the
-- steps every child has at least as many as there are files, `perform_sync` ends on any system: it
-- refuses the target, or finds no file, or has waited for all children, which have then gone
-- through their files, and returns 1.
pub perform_sync-Ends :
    (junk : FileInfo) (fork : ℕ → Bool) (os : Os) (config : SyncConfig) (order : List ℕ)
    (tree : Entries) (disk : Disk)
    → ((i : ℕ) → fork i ≡ true)
    → 0 < config.process_count
    → 0 < length config.target_dir
    → Job os config disk (paths_below config.source_dir tree)
    → ((z : ℕ)
        → z < config.process_count
        → length (paths_below config.source_dir tree) ≤ turns z order)
    → Ends (perform_sync junk fork os config order true tree disk)
perform_sync-Ends junk fork os config order tree disk forks pc named j fair =
    Performs-Ends fair (Performs-lem junk fork os config order tree disk forks pc named j)
