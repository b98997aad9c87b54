-- ===== src/DoubleList.antt =====
-- Doubly linked lists of jobs on an explicit heap, as threads/rwlock.c and printer/printd.c keep
-- them: the nodes, and the lists of addresses that they stand for.
pub mod Segment
pub mod Ends
use apue_learning.Common.{
  ℕ, ◌<◌, ◌≡◌, Bool, true, false, List, [], ◌∷◌, Option, none, some, ◌==◌, if◌then◌else◌,
}

-- Null is 0. `tag` is what the program tells jobs apart by: `j_id`, or `jobid`.
pub record Node : Type 0 where
  pub next : ℕ
  pub prev : ℕ
  pub tag : ℕ

abbrev pub Heap : Type 0
Heap = ℕ → Node

-- The two ends of a list, and the heap.
pub record Queue : Type 0 where
  pub head : ℕ
  pub tail : ℕ
  pub heap : Heap

unfoldable pub update : Heap → ℕ → Node → Heap
update h a n b = if a == b then n else h b

-- `p->next = v` and `p->prev = v`; `none` is a fault, a null pointer that is followed.
abbrev pub set_next : ℕ → ℕ → Queue → Option Queue
set_next p v q =
    if p == 0
    then none
    else some (record q { heap = update q.heap p (record (q.heap p) { next = v }) })

abbrev pub set_prev : ℕ → ℕ → Queue → Option Queue
set_prev p v q =
    if p == 0
    then none
    else some (record q { heap = update q.heap p (record (q.heap p) { prev = v }) })

infixl 5 ◌>>=◌
abbrev pub ◌>>=◌ {ℓ κ} : {A : Type ℓ} {B : Type κ} → Option A → (A → Option B) → Option B
none >>= k = none
some a >>= k = k a

abbrev pub first : List ℕ → ℕ → ℕ
first [] d = d
first (x ∷ xs) d = x

abbrev pub last : List ℕ → ℕ → ℕ
last [] d = d
last (x ∷ xs) d = last xs x

-- `x` is none of the addresses.
abbrev pub NotIn : ℕ → List ℕ → Type 0
NotIn x [] = Unit
NotIn x (y ∷ ys) = ((x == y) ≡ false) × NotIn x ys

abbrev pub Distinct : List ℕ → Type 0
Distinct [] = Unit
Distinct (x ∷ xs) = NotIn x xs × Distinct xs

-- The nodes `xs` are linked both ways, behind `p` and in front of `e`.
abbrev pub Seg : Heap → ℕ → List ℕ → ℕ → Type 0
Seg h p [] e = Unit
Seg h p (x ∷ xs) e = (0 < x) × ((h x).prev ≡ p) × ((h x).next ≡ first xs e) × Seg h x xs e

-- The queue holds the jobs `xs`, in this order.
pub record IsQueue (q : Queue) (xs : List ℕ) : Type 0 where
  pub front : q.head ≡ first xs 0
  pub back : q.tail ≡ last xs 0
  pub linked : Seg q.heap 0 xs 0
  pub distinct : Distinct xs
