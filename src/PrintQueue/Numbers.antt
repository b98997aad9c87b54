-- ===== src/PrintQueue/Numbers.antt =====
-- Job numbers of printer/printd.c.
use apue_learning.Common.{
  ℕ, zero, suc, ◌+◌, ◌^◌, ◌≤◌, ◌<◌, ◌≡◌, ◌≢◌, subst, sym, List, [], ◌∷◌, arith, All,
}
use apue_learning.PrintQueue.{get_newjobno}

-- A positive `int32_t`.
pub record IsJobno (n : ℕ) : Type 0 where
  pub positive : 0 < n
  pub small : n < 2 ^ 31

-- The numbers that `count` requests get, one after the other.
unfoldable pub numbers : ℕ → ℕ → List ℕ
numbers zero next = []
numbers (suc count) next = let (jobid, next') = get_newjobno next in jobid ∷ numbers count next'

next-IsJobno : (n : ℕ) → IsJobno n → IsJobno (get_newjobno n).1
unfolding get_newjobno
next-IsJobno n h = ground arith

-- From a positive `int32_t` on, every number that is handed out is a positive `int32_t`, also
-- behind the wrap-around.
pub numbers-IsJobno : (count next : ℕ) → IsJobno next → All IsJobno (numbers count next)
unfolding numbers get_newjobno
numbers-IsJobno zero next h = tt
numbers-IsJobno (suc count) next h =
    (h, numbers-IsJobno count (get_newjobno next).1 (next-IsJobno next h))

-- `x` is none of the numbers.
abbrev pub Fresh : ℕ → List ℕ → Type 0
Fresh x ns = All (λ n. x ≢ n) ns

abbrev pub Unrepeated : List ℕ → Type 0
Unrepeated [] = Unit
Unrepeated (n ∷ ns) = Fresh n ns × Unrepeated ns

-- In front of the wrap-around the next number is the successor.
no_wrap : (n : ℕ) → n + 1 < 2 ^ 31 → (get_newjobno n).1 ≡ n + 1
unfolding get_newjobno
no_wrap n h = ground arith

-- Numbers taken from `next` on, in front of the wrap-around, are above `x`.
above : (count next x : ℕ) → x < next → next + count ≤ 2 ^ 31 → Fresh x (numbers count next)
unfolding numbers get_newjobno
above zero next x h k = tt
above (suc zero) next x h k = (omega arith, tt)
above (suc (suc count)) next x h k = (
  omega arith,
  subst (λ m. Fresh x (numbers (suc count) m)) (sym (no_wrap next (omega arith)))
      (above (suc count) (next + 1) x (omega arith) (omega arith)),
)

-- No two of the numbers handed out are equal, as long as they do not pass the largest `int32_t`.
pub numbers-Unrepeated : (count next : ℕ) → next + count ≤ 2 ^ 31 → Unrepeated (numbers count next)
unfolding numbers get_newjobno
numbers-Unrepeated zero next k = tt
numbers-Unrepeated (suc zero) next k = (tt, tt)
numbers-Unrepeated (suc (suc count)) next k =
    subst (λ m. Fresh next (numbers (suc count) m) × Unrepeated (numbers (suc count) m))
      (sym (no_wrap next (omega arith)))
      (
        above (suc count) (next + 1) next (omega arith) (omega arith),
        numbers-Unrepeated (suc count) (next + 1) (omega arith),
      )

-- From a positive `int32_t` on, as long as they do not pass the largest one, all numbers that are
-- handed out are positive `int32_t`s, and no two of them are equal.
pub numbers-IsJobno-Unrepeated :
    (count next : ℕ)
    → IsJobno next
    → next + count ≤ 2 ^ 31
    → All IsJobno (numbers count next) × Unrepeated (numbers count next)
numbers-IsJobno-Unrepeated count next h k =
    (numbers-IsJobno count next h, numbers-Unrepeated count next k)
