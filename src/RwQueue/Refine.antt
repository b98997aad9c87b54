-- ===== src/RwQueue/Refine.antt =====
-- The queue of threads/rwlock.c implements a list of jobs.
use apue_learning.Common.{
  ℕ, zero, suc, ◌<◌, ◌≡◌, refl, sym, ap, ◌∙◌, false, List, [], ◌∷◌, ◌++◌, some, arith, ◌==◌,
  Bool-cases, inl, inr, length, if◌then◌else◌,
}
use apue_learning.DoubleList.{Heap, Queue, update, first, last, NotIn, Seg, IsQueue}
use apue_learning.DoubleList.Segment.{first-append, last-append, Seg-split, Distinct-snoc}
use apue_learning.DoubleList.Ends.{
  Linked-next_prev, Seg-cons, Seg-snoc, Snoc, empty, snoc, Snoc-view,
}
use apue_learning.RwQueue.{job_insert, job_append, job_find, find_loop}

pub ne_zero : (x : ℕ) → 0 < x → (x == 0) ≡ false
ne_zero x h = ground arith

-- The heap in which both links of a new job are set.
abbrev prepared : ℕ → ℕ → ℕ → Heap → Heap
prepared jp n p h =
    let h1 = update h jp (record (h jp) { next = n }) in update h1 jp (record (h1 jp) { prev = p })

-- A queue by its parts, so that equations about its ends rewrite.
abbrev pub queue : ℕ → ℕ → Heap → Queue
queue head tail heap = record { head = head; tail = tail; heap = heap }

insert_nil :
    (jp head tail : ℕ) (h : Heap)
    → 0 < jp
    → IsQueue (queue head tail h) []
    → (q' : Queue) × (job_insert jp (queue head tail h) ≡ some q') × IsQueue q' (jp ∷ [])
unfolding job_insert
insert_nil jp head tail h pos is =
    let l = Linked-next_prev h jp head 0 in
    (
      queue jp jp (prepared jp head 0 h),
      rw (ne_zero jp pos) (rw is.front),
      record {
        front = refl;
        back = refl;
        linked = (pos, l.prev_is, l.next_is ∙ is.front, tt);
        distinct = (tt, tt);
      },
    )

insert_cons :
    (jp head tail : ℕ) (h : Heap) (x : ℕ) (xs : List ℕ)
    → 0 < jp
    → NotIn jp (x ∷ xs)
    → IsQueue (queue head tail h) (x ∷ xs)
    → (q' : Queue) × (job_insert jp (queue head tail h) ≡ some q') × IsQueue q' (jp ∷ x ∷ xs)
unfolding job_insert
insert_cons jp head tail h x xs pos out is =
    let g : Heap = prepared jp x 0 h in
    (
      queue jp tail (update g x (record (g x) { prev = jp })),
      rw (ne_zero jp pos) (rw is.front (rw (ne_zero x is.linked.0))),
      record {
        front = refl;
        back = is.back;
        linked = Seg-cons jp x xs pos (Linked-next_prev h jp x 0) out is.distinct is.linked;
        distinct = (out, is.distinct);
      },
    )

-- `job_insert` of a job that is not null and not in the queue puts it in front of all others; no
-- null pointer is followed.
pub job_insert-cons :
    (jp : ℕ) (q : Queue) (xs : List ℕ)
    → 0 < jp
    → NotIn jp xs
    → IsQueue q xs
    → (q' : Queue) × (job_insert jp q ≡ some q') × IsQueue q' (jp ∷ xs)
job_insert-cons jp q [] pos out is = insert_nil jp q.head q.tail q.heap pos is
job_insert-cons jp q (x ∷ xs) pos out is = insert_cons jp q.head q.tail q.heap x xs pos out is

append_nil :
    (jp head tail : ℕ) (h : Heap)
    → 0 < jp
    → IsQueue (queue head tail h) []
    → (q' : Queue) × (job_append jp (queue head tail h) ≡ some q') × IsQueue q' (jp ∷ [])
unfolding job_append
append_nil jp head tail h pos is =
    let l = Linked-next_prev h jp 0 tail in
    (
      queue jp jp (prepared jp 0 tail h),
      rw (ne_zero jp pos) (rw is.back),
      record {
        front = refl;
        back = refl;
        linked = (pos, l.prev_is ∙ is.back, l.next_is, tt);
        distinct = (tt, tt);
      },
    )

last-snoc : (xs : List ℕ) (t d : ℕ) → last (xs ++ t ∷ []) d ≡ t
last-snoc xs t d = last-append xs (t ∷ []) d

pub first-snoc : (xs : List ℕ) (t d d' : ℕ) → first (xs ++ t ∷ []) d ≡ first (xs ++ t ∷ []) d'
first-snoc xs t d d' = first-append xs (t ∷ []) d ∙ sym (first-append xs (t ∷ []) d')

append_snoc :
    (jp head tail : ℕ) (h : Heap) (xs : List ℕ) (t : ℕ)
    → 0 < jp
    → NotIn jp (xs ++ t ∷ [])
    → IsQueue (queue head tail h) (xs ++ t ∷ [])
    → (q' : Queue) × (job_append jp (queue head tail h) ≡ some q')
      × IsQueue q' ((xs ++ t ∷ []) ++ jp ∷ [])
unfolding job_append
append_snoc jp head tail h xs t pos out is =
    let g : Heap = prepared jp 0 t h in
    let at_back : tail ≡ t = is.back ∙ last-snoc xs t 0 in
    let node = (Seg-split h 0 xs (t ∷ []) 0 is.linked).1 in
    (
      queue head jp (update g t (record (g t) { next = jp })),
      rw (ne_zero jp pos) (rw at_back (rw (ne_zero t node.0))),
      record {
        front = is.front ∙ first-snoc xs t 0 jp ∙ sym (first-append (xs ++ t ∷ []) (jp ∷ []) 0);
        back = sym (last-snoc (xs ++ t ∷ []) jp 0);
        linked = Seg-snoc jp t xs pos (Linked-next_prev h jp 0 t) out is.distinct is.linked;
        distinct = Distinct-snoc (xs ++ t ∷ []) jp is.distinct out;
      },
    )

-- `job_append` puts a job that is not in the queue behind all others.
append_view :
    (jp : ℕ) (q : Queue) (xs : List ℕ)
    → Snoc xs
    → 0 < jp
    → NotIn jp xs
    → IsQueue q xs
    → (q' : Queue) × (job_append jp q ≡ some q') × IsQueue q' (xs ++ jp ∷ [])
append_view jp q _ empty pos out is = append_nil jp q.head q.tail q.heap pos is
append_view jp q _ (snoc xs t) pos out is = append_snoc jp q.head q.tail q.heap xs t pos out is

-- `job_append` of a job that is not null and not in the queue puts it behind all others; no null
-- pointer is followed.
pub job_append-snoc :
    (jp : ℕ) (q : Queue) (xs : List ℕ)
    → 0 < jp
    → NotIn jp xs
    → IsQueue q xs
    → (q' : Queue) × (job_append jp q ≡ some q') × IsQueue q' (xs ++ jp ∷ [])
job_append-snoc jp q xs pos out is = append_view jp q xs (Snoc-view xs) pos out is

-- The first of the jobs with the thread's id, or null.
abbrev pub search : Heap → ℕ → List ℕ → ℕ
search h id [] = 0
search h id (x ∷ xs) = if (h x).tag == id then x else search h id xs

find_loop-search :
    (f id p : ℕ) (q : Queue) (xs : List ℕ)
    → Seg q.heap p xs 0
    → length xs < f
    → find_loop f id (first xs 0) q ≡ some (search q.heap id xs)
unfolding find_loop
find_loop-search zero id p q xs s h = absurd (omega arith)
find_loop-search (suc f) id p q [] s h = refl
find_loop-search (suc f) id p q (x ∷ xs) s h =
    rw (ne_zero x s.0) (rw s.2 (rw (find_loop-search f id x q xs s.3 (omega arith)) (ground arith)))

-- `job_find` returns the first job in the queue's order with the thread's id, null if there is
-- none, and it does return: more rounds than there are jobs are enough. If the lock is refused, it
-- returns null.
pub job_find-search :
    (rounds locked id : ℕ) (q : Queue) (xs : List ℕ)
    → IsQueue q xs
    → length xs < rounds
    → job_find rounds locked id q ≡ some (if locked == 0 then search q.heap id xs else 0)
unfolding job_find
job_find-search rounds locked id q xs is h = elim (Bool-cases (locked == 0)) [
  | inl granted ↦
      rw granted
        (ap (λ p. find_loop rounds id p q) is.front ∙ find_loop-search rounds id 0 q xs is.linked h)
  | inr refused ↦ rw refused
]
