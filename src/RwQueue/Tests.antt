-- ===== src/RwQueue/Tests.antt =====
-- The theorems of the queue of threads/rwlock.c at a small queue.
use apue_learning.Common.{◌≡◌, refl, [], ◌∷◌, some, arith, ◌==◌, if◌then◌else◌}
use apue_learning.DoubleList.{Queue, IsQueue}
use apue_learning.RwQueue.{job_insert, job_append, job_remove, job_find}
use apue_learning.RwQueue.Refine.{job_insert-cons, job_append-snoc, job_find-search}
use apue_learning.RwQueue.Remove.{job_remove-append}

-- jobs at 1, 2 and 3, with the thread ids 10, 20 and 30
abbrev three : Queue
three = record {
  head = 1;
  tail = 3;
  heap = λ a.
      if a == 1
      then record { next = 2; prev = 0; tag = 10 }
      else if a == 2
      then record { next = 3; prev = 1; tag = 20 }
      else record { next = 0; prev = 2; tag = 30 };
}

three-IsQueue : IsQueue three (1 ∷ 2 ∷ 3 ∷ [])
three-IsQueue = ground arith

job_insert-cons_example :
    (q' : Queue) × (job_insert 4 three ≡ some q') × IsQueue q' (4 ∷ 1 ∷ 2 ∷ 3 ∷ [])
job_insert-cons_example =
    job_insert-cons 4 three (1 ∷ 2 ∷ 3 ∷ []) (omega arith) (refl, (refl, (refl, tt))) three-IsQueue

job_append-snoc_example :
    (q' : Queue) × (job_append 4 three ≡ some q') × IsQueue q' (1 ∷ 2 ∷ 3 ∷ 4 ∷ [])
job_append-snoc_example =
    job_append-snoc 4 three (1 ∷ 2 ∷ 3 ∷ []) (omega arith) (refl, (refl, (refl, tt))) three-IsQueue

job_remove-append_example : (q' : Queue) × (job_remove 2 three ≡ some q') × IsQueue q' (1 ∷ 3 ∷ [])
job_remove-append_example = job_remove-append 2 three (1 ∷ []) (3 ∷ []) three-IsQueue

job_find-search_example : job_find 4 0 20 three ≡ some 2
job_find-search_example = job_find-search 4 0 20 three (1 ∷ 2 ∷ 3 ∷ []) three-IsQueue (omega arith)
