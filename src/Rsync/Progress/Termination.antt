-- ===== src/Rsync/Progress/Termination.antt =====
-- The threads of `perform_sync` come to an end: each step of a thread that has not stopped uses up
-- one unit of a measure of the remaining work.
use apue_learning.Common.{
  ℕ, zero, suc, ◌+◌, ◌-◌, ◌*◌, ◌<◌, ◌≤◌, ◌≡◌, ◌≢◌, refl, sym, subst, Bool, true, false, List, [],
  ◌∷◌, some, arith, length, get_elem?, All, leb, Bool-cases, inl, inr, replicate, if◌then◌else◌,
}
use apue_learning.Rsync.{
  FileList, System, Stage, idle, taken, counted, tried, stopped, advance, advance?, worker_step,
  start_workers, after_get, goto,
}
use apue_learning.Rsync.Files.{IsValid, contents, get_elem?-some}
use apue_learning.Rsync.Progress.{sum, sum-set, rank}
use apue_learning.Rsync.Progress.Counts.{Balanced, Needed, get_next_file-none, get_next_file-some}
use apue_learning.Rsync.Progress.Counts.Total.{worker_step-Balanced, start-Balanced}

abbrev remaining : System → ℕ
remaining s = 4 * (s.file_list.count - s.file_list.current_index) + sum rank s.workers

idle_step :
    (who : ℕ) (result : Bool) (s : System)
    → get_elem? s.workers who ≡ some idle
    → IsValid s.file_list
    → remaining (advance who result idle s) < remaining s
unfolding advance
idle_step who result s e v = elim (Bool-cases (leb s.file_list.count s.file_list.current_index)) [
  | inl q ↦
      subst (λ r. remaining (after_get who s r) < remaining s)
        (sym (get_next_file-none s.file_list q))
        (omega (arith, sum-set rank s.workers who idle stopped e))
  | inr q ↦
      let k : s.file_list.current_index < s.file_list.count = ground (arith, q) in
      let (f, g) =
        get_elem?-some s.file_list.files s.file_list.current_index
          (omega (arith, v.allocated, v.count_le)) in
      subst (λ r. remaining (after_get who s r) < remaining s)
        (sym (get_next_file-some s.file_list f q g))
        (omega (arith, k, sum-set rank s.workers who idle (taken f) e))
]

advance_step :
    (who : ℕ) (result : Bool) (st : Stage) (s : System)
    → get_elem? s.workers who ≡ some st
    → st ≢ stopped
    → IsValid s.file_list
    → remaining (advance who result st s) < remaining s
unfolding advance
advance_step who result idle s e k v = idle_step who result s e v
advance_step who result (taken f) s e k v = elim (Bool-cases f.needs_sync) [
  | inl q ↦
      subst
        (λ b.
          remaining (
            goto who (if b then counted f else idle)
              (record s { files_processed = suc s.files_processed }))
          < remaining s)
        (sym q) (omega (arith, sum-set rank s.workers who (taken f) (counted f) e))
  | inr q ↦
      subst
        (λ b.
          remaining (
            goto who (if b then counted f else idle)
              (record s { files_processed = suc s.files_processed }))
          < remaining s)
        (sym q) (omega (arith, sum-set rank s.workers who (taken f) idle e))
]
advance_step who result (counted f) s e k v =
    omega (arith, sum-set rank s.workers who (counted f) (tried result) e)
advance_step who result (tried true) s e k v =
    omega (arith, sum-set rank s.workers who (tried true) idle e)
advance_step who result (tried false) s e k v =
    omega (arith, sum-set rank s.workers who (tried false) idle e)
advance_step who result stopped s e k v = absurd (k refl)

-- Each step is one of a thread that has not stopped.
abbrev pub Working : List (ℕ × Bool) → System → Type 0
Working [] s = Unit
Working (c ∷ es) s =
    ((st : Stage) × ((get_elem? s.workers c.0 ≡ some st) × (st ≢ stopped)))
    × Working es (worker_step c s)

one_step :
    (c : ℕ × Bool) (s : System) (st : Stage)
    → get_elem? s.workers c.0 ≡ some st
    → st ≢ stopped
    → IsValid s.file_list
    → remaining (worker_step c s) < remaining s
unfolding worker_step
one_step (who, result) s st e k v =
    subst (λ o. remaining (advance? who result s o) < remaining s) (sym e)
      (advance_step who result st s e k v)

steps_le :
    (l : FileList) (es : List (ℕ × Bool)) (s : System)
    → Balanced (λ _. 0) l s
    → Working es s
    → length es ≤ remaining s
steps_le l [] s b h = omega arith
steps_le l (c ∷ es) s b (k, h) = omega (
  arith,
  one_step c s k.0 k.1.0 k.1.1 b.valid,
  steps_le l es (worker_step c s) (worker_step-Balanced (λ _. 0) l c s b) h,
)

sum-rank : (n : ℕ) → sum rank (replicate n idle) ≡ n
sum-rank zero = refl
sum-rank (suc n) = omega (arith, sum-rank n)

remaining_start :
    (l : FileList) (n : ℕ) → l.current_index ≡ 0 → remaining (start_workers l n) ≡ 4 * l.count + n
unfolding start_workers
remaining_start l n z = omega (arith, z, sum-rank n)

-- With `n + 1` threads on a well-formed list whose files all need to be copied, a sequence of steps
-- each of which is taken by a thread that has not stopped is at most four steps for each file and
-- one for each thread long, whatever order the steps come in: the threads cannot run forever.
pub schedule-length :
    (l : FileList) (n : ℕ) (es : List (ℕ × Bool))
    → IsValid l
    → l.current_index ≡ 0
    → All Needed (contents l)
    → Working es (start_workers l (suc n))
    → length es ≤ 4 * l.count + suc n
schedule-length l n es v z h k = omega (
  arith,
  remaining_start l (suc n) z,
  steps_le l es (start_workers l (suc n)) (start-Balanced (λ _. 0) l n v z h) k,
)
