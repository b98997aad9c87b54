-- ===== src/Rsync/Progress/Counts/Steps.antt =====
-- Each step of a thread keeps the balance.
use apue_learning.Common.{
  ℕ, suc, ◌+◌, ◌<◌, ◌≡◌, refl, ap, sym, subst, Bool, true, false, List, none, some, arith, length,
  get_elem?, set, if◌then◌else◌, ◌≤◌, ◌≢◌,
}
use apue_learning.Rsync.{
  FileInfo, FileList, System, Stage, idle, taken, counted, tried, stopped, advance, after_get, goto,
}
use apue_learning.Rsync.Files.{length-set}
use apue_learning.Rsync.Progress.{
  sum, sum-set, pending, uncounted, unprocessed, All-set, All-get, All-map, sum-take-suc,
}
use apue_learning.Rsync.Progress.Counts.{Balanced, Needed, StageNeeded, Finished, All-take_get}

-- The counters and the calls after a step that does not touch the list.
abbrev pub moved : ℕ → Stage → ℕ → ℕ → ℕ → List FileInfo → System → System
moved who to processed synced errors calls s = record s {
  files_processed = processed;
  files_synced = synced;
  errors = errors;
  calls = calls;
  workers = set s.workers who to;
}

module _ (w : FileInfo → ℕ) (l : FileList) where
  pub moved-Balanced :
      (who : ℕ) (from to : Stage) (processed synced errors : ℕ) (calls : List FileInfo) (s : System)
      → get_elem? s.workers who ≡ some from
      → Balanced w l s
      → StageNeeded to
      → to ≢ stopped
      → sum w calls + pending w to ≡ sum w s.calls + pending w from
      → synced + errors + uncounted to + length s.calls
        ≡ s.files_synced + s.errors + uncounted from + length calls
      → processed + unprocessed to ≡ s.files_processed + unprocessed from
      → length calls + pending (λ _. 1) to ≡ length s.calls + pending (λ _. 1) from
      → Balanced w l (moved who to processed synced errors calls s)
  moved-Balanced who from to processed synced errors calls s e b n k h1 h2 h3 h4 = record {
    valid = b.valid;
    some_thread = omega (arith, length-set s.workers who to, b.some_thread);
    same_files = b.same_files;
    same_count = b.same_count;
    needed = b.needed;
    stages_needed = All-set StageNeeded s.workers who to n b.stages_needed;
    once = omega (arith, sum-set (pending w) s.workers who from to e, b.once);
    results = omega (arith, sum-set uncounted s.workers who from to e, b.results);
    processed = omega (arith, sum-set unprocessed s.workers who from to e, b.processed);
    tried_calls = omega (arith, sum-set (pending (λ _. 1)) s.workers who from to e, b.tried_calls);
    stopping =
        All-set (λ st. Finished st → s.file_list.current_index ≡ s.file_list.count) s.workers who to
          (λ q. absurd (k q)) b.stopping;
  }

  advance-taken :
      (who : ℕ) (result : Bool) (f : FileInfo) (s : System)
      → Needed f
      → advance who result (taken f) s
        ≡ moved who (counted f) (suc s.files_processed) s.files_synced s.errors s.calls s
  unfolding advance
  advance-taken who result f s n =
      ap
        (λ b.
          goto who (if b then counted f else idle)
            (record s { files_processed = suc s.files_processed }))
        n

  pub taken-Balanced :
      (who : ℕ) (result : Bool) (f : FileInfo) (s : System)
      → get_elem? s.workers who ≡ some (taken f)
      → Balanced w l s
      → Balanced w l (advance who result (taken f) s)
  taken-Balanced who result f s e b =
      subst (Balanced w l)
        (sym (
          advance-taken who result f s
            (All-get StageNeeded s.workers who (taken f) b.stages_needed e)))
        (moved-Balanced who (taken f) (counted f) (suc s.files_processed) s.files_synced s.errors
          s.calls s e b tt (λ q. cc) refl (omega arith) (omega arith) refl)

  pub tried-Balanced :
      (who : ℕ) (result r : Bool) (s : System)
      → get_elem? s.workers who ≡ some (tried r)
      → Balanced w l s
      → Balanced w l (advance who result (tried r) s)
  unfolding advance
  tried-Balanced who result true s e b =
      moved-Balanced who (tried true) idle s.files_processed (suc s.files_synced) s.errors s.calls s
        e b tt (λ q. cc) refl (omega arith) refl refl
  tried-Balanced who result false s e b =
      moved-Balanced who (tried false) idle s.files_processed s.files_synced (suc s.errors) s.calls
        s e b tt (λ q. cc) refl (omega arith) refl refl

  -- The position of the list moves on and the thread holds the file that was there.
  pub got-Balanced :
      (who : ℕ) (f : FileInfo) (s : System)
      → get_elem? s.workers who ≡ some idle
      → Balanced w l s
      → s.file_list.current_index < s.file_list.count
      → get_elem? s.file_list.files s.file_list.current_index ≡ some f
      → Balanced w l (
          after_get who s
            (some f, record (s.file_list) { current_index = suc s.file_list.current_index }))
  got-Balanced who f s e b k q = record {
    valid = record {
      allocated = b.valid.allocated;
      count_le = b.valid.count_le;
      index_le = omega arith;
      capacity_pos = b.valid.capacity_pos;
    };
    some_thread = omega (arith, length-set s.workers who (taken f), b.some_thread);
    same_files = b.same_files;
    same_count = b.same_count;
    needed = b.needed;
    stages_needed =
        All-set StageNeeded s.workers who (taken f)
          (All-take_get Needed s.file_list.count s.file_list.current_index s.file_list.files f
            b.needed k q)
          b.stages_needed;
    once = omega (
      arith,
      sum-set (pending w) s.workers who idle (taken f) e,
      b.once,
      sum-take-suc w s.file_list.current_index s.file_list.files f q,
    );
    results = omega (arith, sum-set uncounted s.workers who idle (taken f) e, b.results);
    processed = omega (arith, sum-set unprocessed s.workers who idle (taken f) e, b.processed);
    tried_calls =
        omega (arith, sum-set (pending (λ _. 1)) s.workers who idle (taken f) e, b.tried_calls);
    stopping =
        All-set (λ st. Finished st → suc s.file_list.current_index ≡ s.file_list.count) s.workers
          who (taken f) (λ r. cc)
          (All-map (λ st. Finished st → s.file_list.current_index ≡ s.file_list.count)
            (λ st. Finished st → suc s.file_list.current_index ≡ s.file_list.count) s.workers
            (λ st h r. absurd (omega (arith, h r))) b.stopping);
  }

  -- A thread stops when the list has been handed out.
  pub stop-Balanced :
      (who : ℕ) (s : System)
      → get_elem? s.workers who ≡ some idle
      → Balanced w l s
      → s.file_list.count ≤ s.file_list.current_index
      → Balanced w l (after_get who s (none, s.file_list))
  stop-Balanced who s e b k = record {
    valid = b.valid;
    some_thread = omega (arith, length-set s.workers who stopped, b.some_thread);
    same_files = b.same_files;
    same_count = b.same_count;
    needed = b.needed;
    stages_needed = All-set StageNeeded s.workers who stopped tt b.stages_needed;
    once = omega (arith, sum-set (pending w) s.workers who idle stopped e, b.once);
    results = omega (arith, sum-set uncounted s.workers who idle stopped e, b.results);
    processed = omega (arith, sum-set unprocessed s.workers who idle stopped e, b.processed);
    tried_calls =
        omega (arith, sum-set (pending (λ _. 1)) s.workers who idle stopped e, b.tried_calls);
    stopping =
        All-set (λ st. Finished st → s.file_list.current_index ≡ s.file_list.count) s.workers who
          stopped (λ _. omega (arith, b.valid.index_le)) b.stopping;
  }
