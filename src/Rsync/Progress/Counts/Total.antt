-- ===== src/Rsync/Progress/Counts/Total.antt =====
-- The balance holds in every schedule, and what it says when all threads have stopped.
use apue_learning.Common.{
  ℕ, suc, ◌+◌, ◌<◌, ◌≡◌, refl, ap, sym, subst, Bool, List, [], ◌∷◌, some, arith, length, take,
  get_elem?, All, leb, leb→le, Bool-cases, inl, inr, Option-cases, replicate, All-replicate, ◌∙◌,
}
use apue_learning.Rsync.{
  FileInfo, FileList, System, Stage, idle, taken, counted, tried, stopped, advance, advance?,
  worker_step, schedule, start_workers, after_get,
}
use apue_learning.Rsync.Files.{IsValid, contents, get_elem?-some}
use apue_learning.Rsync.Progress.{sum, pending, uncounted, unprocessed, sum_zero, All-map}
use apue_learning.Rsync.Progress.Counts.{
  Balanced, Needed, StageNeeded, Finished, get_next_file-none, get_next_file-some,
}
use apue_learning.Rsync.Progress.Counts.Steps.{
  moved-Balanced, taken-Balanced, tried-Balanced, got-Balanced, stop-Balanced,
}

module _ (w : FileInfo → ℕ) (l : FileList) where
  counted-Balanced :
      (who : ℕ) (result : Bool) (f : FileInfo) (s : System)
      → get_elem? s.workers who ≡ some (counted f)
      → Balanced w l s
      → Balanced w l (advance who result (counted f) s)
  unfolding advance
  counted-Balanced who result f s e b =
      moved-Balanced w l who (counted f) (tried result) s.files_processed s.files_synced s.errors
        (f ∷ s.calls) s e b tt (λ q. cc) (omega arith) (omega arith) refl (omega arith)

  idle-Balanced :
      (who : ℕ) (result : Bool) (s : System)
      → get_elem? s.workers who ≡ some idle
      → Balanced w l s
      → Balanced w l (advance who result idle s)
  unfolding advance
  idle-Balanced who result s e b =
      elim (Bool-cases (leb s.file_list.count s.file_list.current_index)) [
        | inl q ↦
            subst (λ r. Balanced w l (after_get who s r)) (sym (get_next_file-none s.file_list q))
              (stop-Balanced w l who s e b (leb→le s.file_list.count s.file_list.current_index q))
        | inr q ↦
            let k : s.file_list.current_index < s.file_list.count = ground (arith, q) in
            let (f, g) =
              get_elem?-some s.file_list.files s.file_list.current_index
                (omega (arith, b.valid.allocated, b.valid.count_le)) in
            subst (λ r. Balanced w l (after_get who s r))
              (sym (get_next_file-some s.file_list f q g)) (got-Balanced w l who f s e b k g)
      ]

  advance-Balanced :
      (who : ℕ) (result : Bool) (st : Stage) (s : System)
      → get_elem? s.workers who ≡ some st
      → Balanced w l s
      → Balanced w l (advance who result st s)
  unfolding advance
  advance-Balanced who result idle s e b = idle-Balanced who result s e b
  advance-Balanced who result (taken f) s e b = taken-Balanced w l who result f s e b
  advance-Balanced who result (counted f) s e b = counted-Balanced who result f s e b
  advance-Balanced who result (tried r) s e b = tried-Balanced w l who result r s e b
  advance-Balanced who result stopped s e b = b

  pub worker_step-Balanced :
      (c : ℕ × Bool) (s : System) → Balanced w l s → Balanced w l (worker_step c s)
  unfolding worker_step
  worker_step-Balanced (who, result) s b = elim (Option-cases (get_elem? s.workers who)) [
    | inl e ↦ subst (λ o. Balanced w l (advance? who result s o)) (sym e) b
    | inr (st, e) ↦
        subst (λ o. Balanced w l (advance? who result s o)) (sym e)
          (advance-Balanced who result st s e b)
  ]

  schedule-Balanced :
      (es : List (ℕ × Bool)) (s : System) → Balanced w l s → Balanced w l (schedule es s)
  unfolding schedule
  schedule-Balanced [] s b = b
  schedule-Balanced (c ∷ es) s b =
      schedule-Balanced es (worker_step c s) (worker_step-Balanced c s b)

  pub start-Balanced :
      (n : ℕ)
      → IsValid l
      → l.current_index ≡ 0
      → All Needed (contents l)
      → Balanced w l (start_workers l (suc n))
  unfolding start_workers
  start-Balanced n v z h = record {
    valid = v;
    some_thread = omega arith;
    same_files = refl;
    same_count = refl;
    needed = h;
    stages_needed = All-replicate StageNeeded (suc n) idle tt;
    once = omega (
      arith,
      sum_zero (pending w) (replicate (suc n) idle)
          (All-replicate (λ x. pending w x ≡ 0) (suc n) idle refl),
      ap (λ k. sum w (take k l.files)) z,
    );
    results = omega (
      arith,
      sum_zero uncounted (replicate (suc n) idle)
          (All-replicate (λ x. uncounted x ≡ 0) (suc n) idle refl),
    );
    processed = omega (
      arith,
      z,
      sum_zero unprocessed (replicate (suc n) idle)
          (All-replicate (λ x. unprocessed x ≡ 0) (suc n) idle refl),
    );
    tried_calls = omega (
      arith,
      z,
      sum_zero (pending (λ _. 1)) (replicate (suc n) idle)
          (All-replicate (λ x. pending (λ _. 1) x ≡ 0) (suc n) idle refl),
    );
    stopping = All-replicate (λ st. Finished st → l.current_index ≡ l.count) (suc n) idle (λ q. cc);
  }

weightless : (g : Stage → ℕ) (ws : List Stage) → g stopped ≡ 0 → All Finished ws → sum g ws ≡ 0
weightless g ws z h = sum_zero g ws (All-map Finished (λ x. g x ≡ 0) ws (λ x e. ap g e ∙ z) h)

handed_out :
    (c : ℕ) (ws : List Stage) (i : ℕ)
    → 0 < length ws
    → All Finished ws
    → All (λ st. Finished st → i ≡ c) ws
    → i ≡ c
handed_out c [] i k h g = absurd (omega arith)
handed_out c (x ∷ ws) i k h g = g.0 h.0

abbrev pub AllCounted : (FileInfo → ℕ) → FileList → System → Type 0
AllCounted w l s =
    (sum w s.calls ≡ sum w (contents l))
    × ((s.files_processed ≡ l.count) × (s.files_synced + s.errors ≡ l.count))

module _ (w : FileInfo → ℕ) (l : FileList) (s : System) (b : Balanced w l s)
    (h : All Finished s.workers) where
  at_end : s.file_list.current_index ≡ s.file_list.count
  at_end =
      handed_out s.file_list.count s.workers s.file_list.current_index b.some_thread h b.stopping

  same_contents : contents s.file_list ≡ contents l
  same_contents = ap (λ k. take k s.file_list.files) b.same_count ∙ ap (take l.count) b.same_files

  Balanced-AllCounted : AllCounted w l s
  Balanced-AllCounted = (
    omega (
      arith,
      weightless (pending w) s.workers refl h,
      b.once,
      ap (λ k. sum w (take k s.file_list.files)) at_end,
      ap (sum w) same_contents,
    ),
    (
      omega (arith, weightless unprocessed s.workers refl h, b.processed, at_end, b.same_count),
      omega (
        arith,
        weightless uncounted s.workers refl h,
        weightless (pending (λ _. 1)) s.workers refl h,
        b.results,
        b.tried_calls,
        at_end,
        b.same_count,
      ),
    ),
  )

-- When at least one thread is started on a well-formed list whose files all need to be copied, and
-- the threads take their steps in any order, with any results of `sync_file`, until all of them have
-- stopped, then `sync_file` was called once for each occurrence of a file in the list (any weighting
-- of files has the same total over the calls as over the list), and the counters agree:
-- `files_processed` is the number of files, and so is `files_synced` plus `errors`.
pub schedule-AllCounted :
    (w : FileInfo → ℕ) (l : FileList) (n : ℕ) (es : List (ℕ × Bool))
    → IsValid l
    → l.current_index ≡ 0
    → All Needed (contents l)
    → All Finished ((schedule es (start_workers l (suc n))).workers)
    → AllCounted w l (schedule es (start_workers l (suc n)))
schedule-AllCounted w l n es v z h f =
    Balanced-AllCounted w l (schedule es (start_workers l (suc n)))
      (schedule-Balanced w l es (start_workers l (suc n)) (start-Balanced w l n v z h)) f
