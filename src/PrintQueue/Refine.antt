-- ===== src/PrintQueue/Refine.antt =====
-- The pending jobs of printer/printd.c are a list: `add_job` appends, `replace_job` puts a job back
-- in front, `remove_job` takes one out.
use apue_learning.Common.{
  ℕ, ◌<◌, ◌≡◌, refl, sym, ◌∙◌, false, List, [], ◌∷◌, ◌++◌, some, arith, ◌==◌, ==_refl,
}
use apue_learning.DoubleList.{Heap, Queue, update, first, NotIn, IsQueue}
use apue_learning.DoubleList.Segment.{
  first-append, last-append, Seg-split, Seg-update, NotIn-append, Distinct-snoc,
}
use apue_learning.DoubleList.Ends.{
  Linked-next_prev, Linked-prev_next, Seg-cons, Seg-snoc, Snoc, empty, snoc, Snoc-view,
}
use apue_learning.PrintQueue.{add_job, replace_job}

pub ne_zero : (x : ℕ) → 0 < x → (x == 0) ≡ false
ne_zero x h = ground arith

pub ne_sym : (a b : ℕ) → (a == b) ≡ false → (b == a) ≡ false
ne_sym a b h = ground arith

pub first-snoc : (xs : List ℕ) (t d d' : ℕ) → first (xs ++ t ∷ []) d ≡ first (xs ++ t ∷ []) d'
first-snoc xs t d d' = first-append xs (t ∷ []) d ∙ sym (first-append xs (t ∷ []) d')

abbrev pub queue : ℕ → ℕ → Heap → Queue
queue head tail heap = record { head = head; tail = tail; heap = heap }

-- The heap in which the links of a job are set, the back link first.
abbrev prepared : ℕ → ℕ → ℕ → Heap → Heap
prepared jp n p h =
    let h1 = update h jp (record (h jp) { prev = p }) in update h1 jp (record (h1 jp) { next = n })

replace_nil :
    (jp head tail : ℕ) (h : Heap)
    → 0 < jp
    → IsQueue (queue head tail h) []
    → (q' : Queue) × (replace_job jp (queue head tail h) ≡ some q') × IsQueue q' (jp ∷ [])
unfolding replace_job
replace_nil jp head tail h pos is =
    let l = Linked-prev_next h jp head 0 in
    (
      queue jp jp (prepared jp head 0 h),
      rw (ne_zero jp pos) (rw is.front),
      record {
        front = refl;
        back = refl;
        linked = (pos, l.prev_is, l.next_is ∙ is.front, tt);
        distinct = (tt, tt);
      },
    )

replace_cons :
    (jp head tail : ℕ) (h : Heap) (x : ℕ) (xs : List ℕ)
    → 0 < jp
    → NotIn jp (x ∷ xs)
    → IsQueue (queue head tail h) (x ∷ xs)
    → (q' : Queue) × (replace_job jp (queue head tail h) ≡ some q') × IsQueue q' (jp ∷ x ∷ xs)
unfolding replace_job
replace_cons jp head tail h x xs pos out is =
    let g : Heap = prepared jp x 0 h in
    (
      queue jp tail (update g x (record (g x) { prev = jp })),
      rw (ne_zero jp pos) (rw is.front (rw (ne_zero x is.linked.0))),
      record {
        front = refl;
        back = is.back;
        linked = Seg-cons jp x xs pos (Linked-prev_next h jp x 0) out is.distinct is.linked;
        distinct = (out, is.distinct);
      },
    )

-- `replace_job` of a job that is not null and not pending puts it in front of all others; no null
-- pointer is followed.
pub replace_job-cons :
    (jp : ℕ) (q : Queue) (xs : List ℕ)
    → 0 < jp
    → NotIn jp xs
    → IsQueue q xs
    → (q' : Queue) × (replace_job jp q ≡ some q') × IsQueue q' (jp ∷ xs)
replace_job-cons jp q [] pos out is = replace_nil jp q.head q.tail q.heap pos is
replace_job-cons jp q (x ∷ xs) pos out is = replace_cons jp q.head q.tail q.heap x xs pos out is

-- The number of a job is no link.
abbrev tagged : ℕ → ℕ → Heap → Heap
tagged jp n h = update h jp (record (h jp) { tag = n })

tagged-IsQueue :
    (jp n head tail : ℕ) (h : Heap) (xs : List ℕ)
    → NotIn jp xs
    → IsQueue (queue head tail h) xs
    → IsQueue (queue head tail (tagged jp n h)) xs
tagged-IsQueue jp n head tail h xs out is = record {
  front = is.front;
  back = is.back;
  linked = Seg-update h jp (record (h jp) { tag = n }) 0 xs 0 out is.linked;
  distinct = is.distinct;
}

abbrev forward : ℕ → ℕ → ℕ → Heap → Heap
forward jp n p h =
    let h1 = update h jp (record (h jp) { next = n }) in update h1 jp (record (h1 jp) { prev = p })

add_nil :
    (jp n head tail : ℕ) (h : Heap)
    → 0 < jp
    → IsQueue (queue head tail h) []
    → (q' : Queue) × (add_job jp n (queue head tail h) ≡ some q')
      × IsQueue q' (jp ∷ [])
      × ((q'.heap jp).tag ≡ n)
unfolding add_job update
add_nil jp n head tail h pos is =
    let l = Linked-next_prev (tagged jp n h) jp 0 tail in
    (
      queue jp jp (forward jp 0 tail (tagged jp n h)),
      rw (ne_zero jp pos) (rw is.back),
      record {
        front = refl;
        back = refl;
        linked = (pos, l.prev_is ∙ is.back, l.next_is, tt);
        distinct = (tt, tt);
      },
      rw (==_refl jp),
    )

add_snoc :
    (jp n head tail : ℕ) (h : Heap) (xs : List ℕ) (t : ℕ)
    → 0 < jp
    → NotIn jp (xs ++ t ∷ [])
    → IsQueue (queue head tail h) (xs ++ t ∷ [])
    → (q' : Queue) × (add_job jp n (queue head tail h) ≡ some q')
      × IsQueue q' ((xs ++ t ∷ []) ++ jp ∷ [])
      × ((q'.heap jp).tag ≡ n)
unfolding add_job update
add_snoc jp n head tail h xs t pos out old =
    let is = tagged-IsQueue jp n head tail h (xs ++ t ∷ []) out old in
    let g : Heap = forward jp 0 t (tagged jp n h) in
    let at_back : tail ≡ t = old.back ∙ last-append xs (t ∷ []) 0 in
    let node = (Seg-split h 0 xs (t ∷ []) 0 old.linked).1 in
    (
      queue head jp (update g t (record (g t) { next = jp })),
      rw (ne_zero jp pos) (rw at_back (rw (ne_zero t node.0))),
      record {
        front = is.front ∙ first-snoc xs t 0 jp ∙ sym (first-append (xs ++ t ∷ []) (jp ∷ []) 0);
        back = sym (last-append (xs ++ t ∷ []) (jp ∷ []) 0);
        linked =
            Seg-snoc jp t xs pos (Linked-next_prev (tagged jp n h) jp 0 t) out is.distinct
              is.linked;
        distinct = Distinct-snoc (xs ++ t ∷ []) jp is.distinct out;
      },
      rw (ne_sym jp t (NotIn-append jp xs (t ∷ []) out).1.0) (rw (==_refl jp)),
    )

add_view :
    (jp n : ℕ) (q : Queue) (xs : List ℕ)
    → Snoc xs
    → 0 < jp
    → NotIn jp xs
    → IsQueue q xs
    → (q' : Queue) × (add_job jp n q ≡ some q')
      × IsQueue q' (xs ++ jp ∷ [])
      × ((q'.heap jp).tag ≡ n)
add_view jp n q _ empty pos out is = add_nil jp n q.head q.tail q.heap pos is
add_view jp n q _ (snoc xs t) pos out is = add_snoc jp n q.head q.tail q.heap xs t pos out is

-- `add_job`, when `malloc` returns a job that is not null and not pending, puts it with the given
-- number behind all pending ones; no null pointer is followed.
pub add_job-snoc :
    (jp n : ℕ) (q : Queue) (xs : List ℕ)
    → 0 < jp
    → NotIn jp xs
    → IsQueue q xs
    → (q' : Queue) × (add_job jp n q ≡ some q')
      × IsQueue q' (xs ++ jp ∷ [])
      × ((q'.heap jp).tag ≡ n)
add_job-snoc jp n q xs pos out is = add_view jp n q xs (Snoc-view xs) pos out is
