-- ===== src/MultiProcess/Perform.antt =====
-- `perform_sync` of the copier of several processes as a whole.
use apue_learning.Common.{
  In, ℕ, suc, ◌⊎◌, some, ◌+◌, ◌/◌, ◌%◌, ◌≤◌, ◌<◌, ◌≡◌, refl, ap, ◌∙◌, sym, subst, Bool, true, false,
  List, [], ◌∷◌, ◌++◌, Option, arith, ◌==◌, length, map, All, Bool-cases, inl, inr,
}
use apue_learning.Rsync.Traverse.{Entries}
use apue_learning.MultiProcess.{
  FileInfo, FileList, SyncConfig, Child, init_file_list, traverse_directory, start_children,
}
use apue_learning.MultiProcess.Lists.{Extends, paths, init_file_list-IsValid}
use apue_learning.MultiProcess.Walk.{paths_below, walk-Extends, paths_below-short}
use apue_learning.MultiProcess.Shares.{all_paths, Dealt, no_paths, no_count, start_children-Dealt}
use apue_learning.MultiProcess.Disk.{Disk, Os, create_directory, get_file_size, content_of}
use apue_learning.MultiProcess.Directories.{Permits, Made, made, no_path, create_directory-Made}
use apue_learning.MultiProcess.Run.{
  System, started, sync_directory_structure, all_finished, child_status, all_success, Performed,
  refused, no_files, waiting, waited, awaited, with_children, with_list, with_structure,
  with_target, perform_sync, run,
}
use apue_learning.MultiProcess.Copied.{Job, Truthful, Done, Finishes, finishes, run-Finishes}
use apue_learning.MultiProcess.Members.{all_left}
use apue_learning.MultiProcess.Turns.{turns, left_of, left_of-behind, left_of-all_left, run-left}
use apue_learning.MultiProcess.Structure.{
  cons_ne, SameFiles, same_files, SameFiles-trans, sync_directory_structure-SameFiles,
}

all_success-exited : (ws : List (List (List ℕ))) → all_success (map child_status ws) ≡ true
unfolding all_success
all_success-exited [] = refl
all_success-exited (w ∷ ws) = all_success-exited ws

-- A number that is not a child's, or a child that gets a step for each file.
abbrev pub Served : SyncConfig → List ℕ → List (List ℕ) → ℕ → Type 0
Served config order ps z = (config.process_count ≤ z) ⊎ (length ps ≤ turns z order)

-- How `perform_sync` ends for the files `ps`.
pub data Performs (os : Os) (config : SyncConfig) (order : List ℕ) (disk : Disk)
    (ps : List (List ℕ)) : Performed → Type 0 where
  not_started : (Permits os → ⊥) → Performs os config order disk ps refused
  nothing_to_copy :
      (d : Disk) → ps ≡ [] → d.files ≡ disk.files → Performs os config order disk ps (no_files d)
  in_progress :
      (s : System)
      → all_finished s.workers ≡ false
      → All (Truthful os config disk s.disk) s.reports
      → ((z : ℕ) → Served config order ps z → left_of s.workers z ≡ 0)
      → Performs os config order disk ps (waiting s)
  performed :
      (s : System)
      → all_finished s.workers ≡ true
      → All (Truthful os config disk s.disk) s.reports
      → (Permits os → (p : List ℕ) → In p ps → Done config disk s.disk p)
      → Performs os config order disk ps (waited true s)

-- The job does not depend on the directories.
Job-moved :
    {os : Os} {config : SyncConfig} {ps : List (List ℕ)} (disk d : Disk)
    → d.files ≡ disk.files
    → Job os config disk ps
    → Job os config d ps
Job-moved disk d q j = record {
  once = j.once;
  readable = λ p i. let (c, e) = j.readable p i in (c, ap (content_of p) q ∙ e);
  apart = j.apart;
  told_apart = j.told_apart;
  has_parent = j.has_parent;
  sized = j.sized;
}

Truthful-moved :
    (os : Os) (config : SyncConfig) (now disk d : Disk) (rs : List (List ℕ × Bool))
    → d.files ≡ disk.files
    → All (Truthful os config d now) rs
    → All (Truthful os config disk now) rs
Truthful-moved os config now disk d [] q t = tt
Truthful-moved os config now disk d (r ∷ rs) q t = (
  record { copied = λ l e. t.0.copied l e ∙ ap (content_of r.0) q; permitted = t.0.permitted },
  Truthful-moved os config now disk d rs q t.1,
)

Performs-moved :
    {os : Os} {config : SyncConfig} {order : List ℕ} {ps : List (List ℕ)} {r : Performed}
    (disk d : Disk)
    → d.files ≡ disk.files
    → Performs os config order d ps r
    → Performs os config order disk ps r
Performs-moved disk d q (not_started n) = not_started n
Performs-moved disk d q (nothing_to_copy e z k) = nothing_to_copy e z (k ∙ q)
Performs-moved {os} {config} disk d q (in_progress s f t l) =
    in_progress s f (Truthful-moved os config s.disk disk d s.reports q t) l
Performs-moved {os} {config} disk d q (performed s f t h) =
    performed s f (Truthful-moved os config s.disk disk d s.reports q t) (λ p z i.
      let x = h p z i in
      record { target = x.target ∙ ap (content_of z) q; source = x.source ∙ ap (content_of z) q })

module _ (junk : FileInfo) (fork : ℕ → Bool) (os : Os) (config : SyncConfig) (order : List ℕ)
    (tree : Entries) (forks : (i : ℕ) → fork i ≡ true) (pc : 0 < config.process_count)
    (named : 0 < length config.target_dir) where
  abbrev files_found : List (List ℕ)
  files_found = paths_below config.source_dir tree

  length-begun : (cs : List Child) → length (map (λ c. paths c.worker_files) cs) ≡ length cs
  length-begun [] = refl
  length-begun (c ∷ cs) = ap suc (length-begun cs)

  all_left-children :
      (cs : List Child) → all_left (map (λ c. paths c.worker_files) cs) ≡ all_paths cs
  all_left-children [] = refl
  all_left-children (c ∷ cs) = ap (λ l. paths c.worker_files ++ l) (all_left-children cs)

  -- What is left for a child that got its steps.
  Served-left :
      (d : Disk) (cs : List Child) (s : System) (z : ℕ)
      → length cs ≡ config.process_count
      → all_paths cs ≡ files_found
      → run os config order (started d cs) ≡ some s
      → Served config order files_found z
      → left_of s.workers z ≡ 0
  Served-left d cs s z n q e v =
      let begun = map (λ c. paths c.worker_files) cs in
      let l = run-left os config order (started d cs) s z e in
      elim v [
        | inl h ↦ omega (arith, l, left_of-behind begun z (omega (arith, length-begun cs)))
        | inr h ↦
            omega
              (arith, l, left_of-all_left begun z, ap length (all_left-children cs), ap length q)
      ]

  awaited-Performs :
      (d : Disk) (r : Option System)
      → Finishes os config d files_found r
      → ((s : System) (z : ℕ)
          → r ≡ some s
          → Served config order files_found z
          → left_of s.workers z ≡ 0)
      → Performs os config order d files_found (awaited r)
  awaited-Performs d r (finishes s t h) l = elim (Bool-cases (all_finished s.workers)) [
    | inl e ↦ rw (e, all_success-exited s.workers) (performed s e t (h e))
    | inr e ↦ rw e (in_progress s e t (λ z v. l s z refl v))
  ]

  children-Performs :
      (d : Disk) (files : FileList) (low high : ℕ) (r : List Child × Bool)
      → Job os config d files_found
      → paths files ≡ files_found
      → Dealt config.process_count low high (paths files) r
      → Performs os config order d files_found (with_children os config order d r)
  children-Performs d files low high (cs, false) j q h = absurd (let z = h.started in cc)
  children-Performs d files low high (cs, true) j q h =
      awaited-Performs d (run os config order (started d cs))
        (run-Finishes os config d files_found (map (λ c. paths c.worker_files) cs) order j
          (all_left-children cs ∙ h.shares ∙ q))
        (λ s z e v. Served-left d cs s z h.number (h.shares ∙ q) e v)

  list-Performs :
      (d : Disk) (files : FileList)
      → Job os config d files_found
      → Extends (init_file_list junk) files files_found
      → Performs os config order d files_found (with_list junk fork os config order d files)
  list-Performs d files j e =
      let q : paths files ≡ files_found = e.paths_eq ∙ ap (λ l. l ++ files_found) (no_paths junk) in
      elim (Bool-cases (files.count == 0)) [
        | inl z ↦ rw z (
            nothing_to_copy d
              (none_found files_found (ground (arith, z, e.count_eq, no_count junk))) refl)
        | inr z ↦ rw z (
            children-Performs d files (files.count / config.process_count)
              (files.count / config.process_count + files.count % config.process_count)
              (start_children junk (get_file_size os d) fork files config.process_count
                config.process_count 0 0)
              j q
              (start_children-Dealt junk (get_file_size os d) fork files config.process_count
                e.valid
                (subst (All (λ p. length p ≤ 1023)) (sym q)
                  (paths_below-short config.source_dir tree))
                pc forks))
      ]
    where
      none_found : (ps : List (List ℕ)) → length ps ≡ 0 → ps ≡ []
      none_found [] h = refl
      none_found (p ∷ ps) h = absurd (omega arith)

  structure-Performs :
      (disk : Disk) (r : Option Disk)
      → Job os config disk files_found
      → SameFiles disk r
      → Performs os config order disk files_found (with_structure junk fork os config order tree r)
  structure-Performs disk r j (same_files d q) = Performs-moved disk d q (
      list-Performs d
        (traverse_directory junk (get_file_size os d) config.source_dir tree (init_file_list junk))
        (Job-moved disk d q j)
        (walk-Extends junk (get_file_size os d) config.source_dir tree (init_file_list junk)
          (init_file_list-IsValid junk)))

  target-Performs :
      (disk : Disk) (r : Option (Bool × Disk))
      → Job os config disk files_found
      → Made os config.target_dir disk r
      → Performs os config order disk files_found (with_target junk fork os config order tree r)
  target-Performs disk r j (made true d q k) =
      structure-Performs disk (sync_directory_structure os config config.source_dir tree d) j (
        SameFiles-trans disk q
          (sync_directory_structure-SameFiles os config config.source_dir tree d named))
  target-Performs disk r j (made false d q k) = not_started (λ p. let z = k p in absurd cc)
  target-Performs disk r j (no_path e) = absurd (no_name config.target_dir named e)
    where
      no_name : (t : List ℕ) → 0 < length t → t ≡ [] → ⊥
      no_name [] lt e = omega arith
      no_name (c ∷ t) lt e = cons_ne c t e

pub Performs-lem :
    (junk : FileInfo) (fork : ℕ → Bool) (os : Os) (config : SyncConfig) (order : List ℕ)
    (tree : Entries) (disk : Disk)
    → ((i : ℕ) → fork i ≡ true)
    → 0 < config.process_count
    → 0 < length config.target_dir
    → Job os config disk (paths_below config.source_dir tree)
    → Performs os config order disk
        (paths_below config.source_dir tree)
        (perform_sync junk fork os config order true tree disk)
unfolding perform_sync
Performs-lem junk fork os config order tree disk forks pc named j =
    target-Performs junk fork os config order tree forks pc named disk
      (create_directory os config.target_dir disk) j
      (create_directory-Made os config.target_dir disk)
