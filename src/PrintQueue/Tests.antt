-- ===== src/PrintQueue/Tests.antt =====
-- The theorems of the pending jobs of printer/printd.c at a small list.
use apue_learning.Common.{◌-◌, ◌^◌, ◌≡◌, refl, [], ◌∷◌, some, arith, ◌==◌, if◌then◌else◌, All}
use apue_learning.DoubleList.{Queue, IsQueue}
use apue_learning.PrintQueue.{add_job, replace_job, remove_job, get_newjobno}
use apue_learning.PrintQueue.Refine.{add_job-snoc, replace_job-cons}
use apue_learning.PrintQueue.Remove.{remove_job-append}
use apue_learning.PrintQueue.Numbers.{
  IsJobno, Unrepeated, numbers, numbers-IsJobno, numbers-IsJobno-Unrepeated,
}

-- the jobs 10 and 20, at 1 and 2
abbrev two : Queue
two = record {
  head = 1;
  tail = 2;
  heap = λ a.
      if a == 1
      then record { next = 2; prev = 0; tag = 10 }
      else record { next = 0; prev = 1; tag = 20 };
}

two-IsQueue : IsQueue two (1 ∷ 2 ∷ [])
two-IsQueue = ground arith

add_job-snoc_example :
    (q' : Queue) × (add_job 3 30 two ≡ some q')
    × IsQueue q' (1 ∷ 2 ∷ 3 ∷ [])
    × ((q'.heap 3).tag ≡ 30)
add_job-snoc_example =
    add_job-snoc 3 30 two (1 ∷ 2 ∷ []) (omega arith) (refl, (refl, tt)) two-IsQueue

replace_job-cons_example :
    (q' : Queue) × (replace_job 3 two ≡ some q') × IsQueue q' (3 ∷ 1 ∷ 2 ∷ [])
replace_job-cons_example =
    replace_job-cons 3 two (1 ∷ 2 ∷ []) (omega arith) (refl, (refl, tt)) two-IsQueue

remove_job-append_example : (q' : Queue) × (remove_job 1 two ≡ some q') × IsQueue q' (2 ∷ [])
remove_job-append_example = remove_job-append 1 two [] (2 ∷ []) two-IsQueue

wraps : get_newjobno (2 ^ 31 - 1) ≡ (2 ^ 31 - 1, 1)
unfolding get_newjobno
wraps = refl

numbers-IsJobno-Unrepeated_example : All IsJobno (numbers 3 7) × Unrepeated (numbers 3 7)
numbers-IsJobno-Unrepeated_example =
    numbers-IsJobno-Unrepeated 3 7 (record { positive = omega arith; small = omega arith })
      (omega arith)

numbers-IsJobno_example : All IsJobno (numbers 3 2147483647)
numbers-IsJobno_example =
    numbers-IsJobno 3 2147483647 (record { positive = omega arith; small = omega arith })
