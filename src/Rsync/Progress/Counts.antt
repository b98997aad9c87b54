-- ===== src/Rsync/Progress/Counts.antt =====
-- However the threads of `perform_sync` are scheduled, each file is handed out once and counted once.
pub mod Steps
pub mod Total
use apue_learning.Common.{
  ℕ, zero, suc, ◌+◌, ◌<◌, ◌≡◌, ◌≢◌, refl, ◌∙◌, subst, Bool, true, false, List, [], ◌∷◌, Option,
  none, some, arith, length, take, get_elem?, All, leb,
}
use apue_learning.Rsync.{
  FileInfo, FileList, System, Stage, idle, taken, counted, tried, stopped, get_next_file,
}
use apue_learning.Rsync.Files.{IsValid, contents}
use apue_learning.Rsync.Progress.{sum, pending, uncounted, unprocessed}

abbrev pub Needed : FileInfo → Type 0
Needed f = f.needs_sync ≡ true

-- A file that a thread holds is one that needs to be copied.
abbrev pub StageNeeded : Stage → Type 0
StageNeeded (taken f) = Needed f
StageNeeded _ = Unit

abbrev pub Finished : Stage → Type 0
Finished st = st ≡ stopped

-- What holds between the steps, for any weight `w` of the files; `l` is the list at the start.
pub record Balanced (w : FileInfo → ℕ) (l : FileList) (s : System) : Type 0 where
  pub valid : IsValid s.file_list
  pub some_thread : 0 < length s.workers
  pub same_files : s.file_list.files ≡ l.files
  pub same_count : s.file_list.count ≡ l.count
  pub needed : All Needed (contents s.file_list)
  pub stages_needed : All StageNeeded s.workers
  pub once :
      sum w s.calls + sum (pending w) s.workers
      ≡ sum w (take s.file_list.current_index s.file_list.files)
  pub results : s.files_synced + s.errors + sum uncounted s.workers ≡ length s.calls
  pub processed : s.files_processed + sum unprocessed s.workers ≡ s.file_list.current_index
  pub tried_calls : length s.calls + sum (pending (λ _. 1)) s.workers ≡ s.file_list.current_index
  pub stopping : All (λ st. Finished st → s.file_list.current_index ≡ s.file_list.count) s.workers

pub get_next_file-none :
    (l : FileList) → leb l.count l.current_index ≡ true → get_next_file l ≡ (none, l)
unfolding get_next_file
get_next_file-none l e = rw e refl

pub get_next_file-some :
    (l : FileList) (f : FileInfo)
    → leb l.count l.current_index ≡ false
    → get_elem? l.files l.current_index ≡ some f
    → get_next_file l ≡ (some f, record l { current_index = suc l.current_index })
unfolding get_next_file
get_next_file-some l f e q = rw (e, q) refl

pub All-take_get :
    (P : FileInfo → Type 0) (n i : ℕ) (xs : List FileInfo) (a : FileInfo)
    → All P (take n xs)
    → i < n
    → get_elem? xs i ≡ some a
    → P a
All-take_get P n i [] a h k e = cc
All-take_get P zero i (x ∷ xs) a h k e = absurd (omega arith)
All-take_get P (suc n) zero (x ∷ xs) a h k e = let q : x ≡ a = cc in subst P q h.0
All-take_get P (suc n) (suc i) (x ∷ xs) a h k e = All-take_get P n i xs a h.1 (omega arith) e
