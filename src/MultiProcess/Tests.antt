-- ===== src/MultiProcess/Tests.antt =====
-- A run of the copier of several processes on a small source tree.
use Prim.Native.Char.{code}
use Prim.Native.String.{String}
use apue_learning.Common.{
  zero, suc, map, In, ℕ, pos, ◌<◌, ◌≤◌, ◌≡◌, ◌⊎◌, refl, sym, ap, subst, bytes_eq, Bool, true, false,
  List, [], ◌∷◌, Option, none, some, length, arith, inl, inr,
}
use apue_learning.Rsync.Traverse.{Entries, no_more, file, directory}
use apue_learning.Rsync.Copy.{parent, strip_slash}
use apue_learning.Rsync.Compare.{compare_contents}
use apue_learning.MultiProcess.{
  FileInfo, SyncConfig, add_file_to_list, init_file_list, add_found, add_range, worker_share,
  start_children, traverse_directory, entry_path, strstr, get_relative_path, target_file,
}
use apue_learning.MultiProcess.Walk.{paths_below}
use apue_learning.MultiProcess.Disk.{
  Disk, Os, content_of, is_listed, file_exists, get_file_size, compare_files, make_directory,
  make_parents, create_directory, copy_loop, copy_file, sync_file,
}
use apue_learning.MultiProcess.Run.{
  Performed, waited, worker_step, run, enter_directory, sync_entries, sync_directory_structure,
  all_finished, all_success, perform_sync,
}
use apue_learning.MultiProcess.Copied.{Job}
use apue_learning.MultiProcess.Directories.{Permits, Reliable}
use apue_learning.MultiProcess.Turns.{turns}
use apue_learning.MultiProcess.Outcomes.{
  Ends, perform_sync-Ends, Copies, perform_sync-Copies, Reports, perform_sync-Reports,
}

abbrev codes : String → List ℕ
codes String.[] = []
codes (String.◌∷◌ c s) = code c ∷ codes s

abbrev junk : FileInfo
junk = record { path = []; size = pos 0 }

abbrev the_config : SyncConfig
the_config = record { source_dir = codes "s"; target_dir = codes "t"; process_count = 2 }

abbrev the_tree : Entries
the_tree =
    file (codes ".") (pos 0)
      (file (codes "a") (pos 2) (directory (codes "d") (file (codes "b") (pos 1) no_more) no_more))

abbrev the_disk : Disk
the_disk = record {
  files = (codes "s/a", codes "hi") ∷ (codes "s/d/b", codes "x") ∷ [];
  dirs = codes "s" ∷ codes "s/d" ∷ [];
}

abbrev any_system : (List ℕ → Bool) → Os
any_system writable = record {
  can_read = λ p. true;
  can_write = writable;
  can_make = λ p. true;
  accepts = λ p piece. length piece;
  gives = λ p n. n;
  flushes = λ p n. n;
  dir_size = λ p. 4096;
}

-- The walk, the paths and the relative paths of this tree.
found : paths_below (codes "s") the_tree ≡ codes "s/a" ∷ codes "s/d/b" ∷ []
unfolding paths_below entry_path
found = refl

abbrev in_target : Performed → Option (Bool × Option (List ℕ) × Option (List ℕ))
in_target (waited b s) =
    some (b, content_of (codes "t/a") s.disk.files, content_of (codes "t/d/b") s.disk.files)
in_target _ = none

-- A run of two children, the second one first.
both_copied :
    in_target (
      perform_sync junk
        (λ i. true)
        (any_system (λ p. true))
        the_config
        (1 ∷ 0 ∷ [])
        true
        the_tree
        the_disk)
    ≡ some (true, some (codes "hi"), some (codes "x"))
unfolding perform_sync content_of is_listed file_exists get_file_size compare_files compare_contents
    make_directory make_parents create_directory copy_loop copy_file sync_file worker_step run
    enter_directory sync_entries sync_directory_structure all_finished all_success parent
    strip_slash add_file_to_list init_file_list add_found add_range worker_share start_children
    traverse_directory entry_path strstr get_relative_path target_file
both_copied = refl

-- Each file's second read fails, or `fclose` keeps one byte: `sync_file` says that it has succeeded.
abbrev only_one : ℕ → ℕ
only_one zero = 0
only_one (suc n) = 1

abbrev successes : Performed → Option (List Bool × Option (List ℕ))
successes (waited b s) = some (map (λ r. r.1) s.reports, content_of (codes "t/a") s.disk.files)
successes _ = none

read_cut_short :
    successes (
      perform_sync junk
        (λ i. true)
        (record (any_system (λ p. true)) { gives = λ p n. only_one n })
        the_config
        (1 ∷ 0 ∷ [])
        true
        the_tree
        the_disk)
    ≡ some (true ∷ true ∷ [], some (codes "h"))
unfolding perform_sync content_of is_listed file_exists get_file_size compare_files compare_contents
    make_directory make_parents create_directory copy_loop copy_file sync_file worker_step run
    enter_directory sync_entries sync_directory_structure all_finished all_success parent
    strip_slash add_file_to_list init_file_list add_found add_range worker_share start_children
    traverse_directory entry_path strstr get_relative_path target_file
read_cut_short = refl

close_cut_short :
    successes (
      perform_sync junk
        (λ i. true)
        (record (any_system (λ p. true)) { flushes = λ p n. only_one n })
        the_config
        (1 ∷ 0 ∷ [])
        true
        the_tree
        the_disk)
    ≡ some (true ∷ true ∷ [], some (codes "h"))
unfolding perform_sync content_of is_listed file_exists get_file_size compare_files compare_contents
    make_directory make_parents create_directory copy_loop copy_file sync_file worker_step run
    enter_directory sync_entries sync_directory_structure all_finished all_success parent
    strip_slash add_file_to_list init_file_list add_found add_range worker_share start_children
    traverse_directory entry_path strstr get_relative_path target_file
close_cut_short = refl

-- No target can be opened, and `perform_sync` still returns 1.
none_copied :
    in_target (
      perform_sync junk
        (λ i. true)
        (any_system (λ p. false))
        the_config
        (1 ∷ 0 ∷ [])
        true
        the_tree
        the_disk)
    ≡ some (true, none, none)
unfolding perform_sync content_of is_listed file_exists get_file_size compare_files compare_contents
    make_directory make_parents create_directory copy_loop copy_file sync_file worker_step run
    enter_directory sync_entries sync_directory_structure all_finished all_success parent
    strip_slash add_file_to_list init_file_list add_found add_range worker_share start_children
    traverse_directory entry_path strstr get_relative_path target_file
none_copied = refl

abbrev two_paths : List (List ℕ)
two_paths = codes "s/a" ∷ codes "s/d/b" ∷ []

-- What holds of both paths holds of each path in the list.
each :
    (P : List ℕ → Type 0)
    → P (codes "s/a")
    → P (codes "s/d/b")
    → (p : List ℕ) → In p two_paths
    → P p
each P a b p (inl e) = subst P (sym e) a
each P a b p (inr (inl e)) = subst P (sym e) b
each P a b p (inr (inr n)) = absurd n

not_empty : (c : ℕ) (l : List ℕ) → some (c ∷ l) ≡ some [] → ⊥
not_empty c l e = absurd cc

two-Job : (w : List ℕ → Bool) → Job (any_system w) the_config the_disk two_paths
unfolding content_of target_file get_relative_path strstr parent
two-Job w = record {
  once = (
    λ i. elim i [ inl e ↦ absurd (let z = ap length e in ground (arith, z)) | inr j ↦ j ],
    (λ i. i, tt),
  );
  readable =
      each (λ p. (c : List ℕ) × (content_of p the_disk.files ≡ some c)) (codes "hi", refl)
        (codes "x", refl);
  apart = λ p q i j.
      each (λ p. bytes_eq (target_file the_config p) q ≡ false)
        (each (λ q. bytes_eq (target_file the_config (codes "s/a")) q ≡ false) refl refl q j)
        (each (λ q. bytes_eq (target_file the_config (codes "s/d/b")) q ≡ false) refl refl q j) p i;
  told_apart = λ p q i j.
      each (λ p. (p ≡ q) ⊎ (bytes_eq (target_file the_config p) (target_file the_config q) ≡ false))
        (each
          (λ q.
            (codes "s/a" ≡ q)
            ⊎ (bytes_eq (target_file the_config (codes "s/a")) (target_file the_config q) ≡ false))
          (inl refl) (inr refl) q j)
        (each
          (λ q.
            (codes "s/d/b" ≡ q)
            ⊎ (bytes_eq (target_file the_config (codes "s/d/b")) (target_file the_config q)
                ≡ false))
          (inr refl) (inl refl) q j)
        p i;
  has_parent =
      each (λ p. parent (target_file the_config p) ≡ some [] → ⊥) (not_empty b't' [])
        (not_empty b't' (codes "/d"));
  sized = λ p. omega arith;
}

found-Job :
    (w : List ℕ → Bool) → Job (any_system w) the_config the_disk (paths_below (codes "s") the_tree)
found-Job w = subst (Job (any_system w) the_config the_disk) (sym found) (two-Job w)

any-Reliable : (w : List ℕ → Bool) → Reliable (any_system w)
any-Reliable w = record { gives_all = λ p n. refl; flushes_all = λ p n. refl }

perform_sync-Reports_example : Reports the_config the_disk (
    perform_sync junk
      (λ i. true)
      (any_system (λ p. false))
      the_config
      (1 ∷ 0 ∷ [])
      true
      the_tree
      the_disk)
perform_sync-Reports_example =
    perform_sync-Reports junk (λ i. true) (any_system (λ p. false)) the_config (1 ∷ 0 ∷ []) the_tree
      the_disk (λ i. refl) (omega arith) (omega arith) (any-Reliable (λ p. false))
      (found-Job (λ p. false))

any-Permits : Permits (any_system (λ p. true))
any-Permits = record {
  reads = λ p. refl;
  writes = λ p. refl;
  makes = λ p. refl;
  takes = λ p piece. refl;
  reliable = any-Reliable (λ p. true);
}

-- Each of the two children has two steps.
both_served :
    (z : ℕ) → z < 2 → length (paths_below (codes "s") the_tree) ≤ turns z (1 ∷ 0 ∷ 0 ∷ 1 ∷ [])
unfolding turns
both_served z h =
    subst (λ l. length l ≤ turns z (1 ∷ 0 ∷ 0 ∷ 1 ∷ [])) (sym found) (ground (arith, h))

perform_sync-Ends_example : Ends (
    perform_sync junk
      (λ i. true)
      (any_system (λ p. false))
      the_config
      (1 ∷ 0 ∷ 0 ∷ 1 ∷ [])
      true
      the_tree
      the_disk)
perform_sync-Ends_example =
    perform_sync-Ends junk (λ i. true) (any_system (λ p. false)) the_config (1 ∷ 0 ∷ 0 ∷ 1 ∷ [])
      the_tree the_disk (λ i. refl) (omega arith) (omega arith) (found-Job (λ p. false)) both_served

perform_sync-Copies_example : Copies the_config the_disk (paths_below (codes "s") the_tree) (
    perform_sync junk
      (λ i. true)
      (any_system (λ p. true))
      the_config
      (1 ∷ 0 ∷ [])
      true
      the_tree
      the_disk)
perform_sync-Copies_example =
    perform_sync-Copies junk (λ i. true) (any_system (λ p. true)) the_config (1 ∷ 0 ∷ []) the_tree
      the_disk (λ i. refl) (omega arith) (omega arith) any-Permits (found-Job (λ p. true))
