-- ===== src/RwQueue/Remove.antt =====
-- `job_remove` of threads/rwlock.c takes one job out and leaves the order of the others.
use apue_learning.Common.{
  ℕ, ◌<◌, ◌≡◌, refl, sym, subst, ◌∙◌, false, List, [], ◌∷◌, ◌++◌, some, arith, ◌==◌, ==_refl,
  append-nil,
}
use apue_learning.DoubleList.{Heap, Queue, update, first, last, NotIn, Distinct, IsQueue}
use apue_learning.DoubleList.Segment.{
  first-append, last-append, Seg-split, NotIn-append, Distinct-middle, Seg-set_prev, Seg-set_next,
}
use apue_learning.DoubleList.Ends.{Seg-unlink, Snoc, empty, snoc, Snoc-view}
use apue_learning.RwQueue.{job_remove}
use apue_learning.RwQueue.Refine.{ne_zero, queue, first-snoc}

ne_sym : (a b : ℕ) → (a == b) ≡ false → (b == a) ≡ false
ne_sym a b h = ground arith

last-other : (a y : ℕ) (ys : List ℕ) → NotIn a (y ∷ ys) → (a == last ys y) ≡ false
last-other a y [] out = out.0
last-other a y (z ∷ ys) out = last-other a z ys out.1

first-other :
    (a : ℕ) (xs : List ℕ) (t d : ℕ) → NotIn a (xs ++ t ∷ []) → (a == first (xs ++ t ∷ []) d) ≡ false
first-other a [] t d out = out.0
first-other a (x ∷ xs) t d out = out.0

-- The only job, and the first of several.
remove_only :
    (jp head tail : ℕ) (h : Heap)
    → IsQueue (queue head tail h) (jp ∷ [])
    → (q' : Queue) × (job_remove jp (queue head tail h) ≡ some q') × IsQueue q' []
unfolding job_remove
remove_only jp head tail h is = (
  queue (h jp).next 0 h,
  rw (is.front, is.back) (rw (==_refl jp)),
  record { front = is.linked.2; back = refl; linked = tt; distinct = tt },
)

remove_first :
    (jp head tail : ℕ) (h : Heap) (x : ℕ) (xs : List ℕ)
    → IsQueue (queue head tail h) (jp ∷ x ∷ xs)
    → (q' : Queue) × (job_remove jp (queue head tail h) ≡ some q') × IsQueue q' (x ∷ xs)
unfolding job_remove
remove_first jp head tail h x xs is = (
  queue x tail (update h x (record (h x) { prev = 0 })),
  rw (is.front)
      (rw (==_refl jp) (rw (not_back, is.linked.2, is.linked.1) (rw (ne_zero x is.linked.3.0)))),
  record {
    front = refl;
    back = is.back;
    linked = Seg-set_prev h x jp 0 xs 0 is.distinct.1.0 is.linked.3;
    distinct = is.distinct.1;
  },
)
  where
    not_back : (tail == jp) ≡ false
    not_back = rw (is.back) (ne_sym jp (last xs x) (last-other jp x xs is.distinct.0))

-- The last of several.
remove_last :
    (jp head tail : ℕ) (h : Heap) (xs : List ℕ) (t : ℕ)
    → IsQueue (queue head tail h) ((xs ++ t ∷ []) ++ jp ∷ [])
    → (q' : Queue) × (job_remove jp (queue head tail h) ≡ some q') × IsQueue q' (xs ++ t ∷ [])
unfolding job_remove
remove_last jp head tail h xs t is =
    let (left, node) = Seg-split h 0 (xs ++ t ∷ []) (jp ∷ []) 0 is.linked in
    let apart = Distinct-middle (xs ++ t ∷ []) jp [] is.distinct in
    let front : head ≡ first (xs ++ t ∷ []) 0 =
      is.front ∙ first-append (xs ++ t ∷ []) (jp ∷ []) 0 ∙ first-snoc xs t jp 0 in
    let back : tail ≡ jp = is.back ∙ last-append (xs ++ t ∷ []) (jp ∷ []) 0 in
    let before : (h jp).prev ≡ t = node.1 ∙ last-append xs (t ∷ []) 0 in
    let end = (Seg-split h 0 xs (t ∷ []) jp left).1 in
    let pos : 0 < t = end.0 in
    let other : (jp == head) ≡ false = rw front (first-other jp xs t 0 apart.0) in
    (
      queue head t (update h t (record (h t) { next = 0 })),
      rw (other, back) (rw (==_refl jp) (rw (before, node.2) (rw (ne_zero t pos)))),
      record {
        front = front;
        back = sym (last-append xs (t ∷ []) 0);
        linked =
            Seg-set_next h t 0 jp 0 xs
              (NotIn-last xs t (subst Distinct (append-nil (xs ++ t ∷ [])) apart.2)) left;
        distinct = subst Distinct (append-nil (xs ++ t ∷ [])) apart.2;
      },
    )
  where
    NotIn-last : (ys : List ℕ) (u : ℕ) → Distinct (ys ++ u ∷ []) → NotIn u ys
    NotIn-last ys u d = (Distinct-middle ys u [] d).0

-- One in between.
remove_middle :
    (jp head tail : ℕ) (h : Heap) (xs : List ℕ) (t b : ℕ) (ys : List ℕ)
    → IsQueue (queue head tail h) ((xs ++ t ∷ []) ++ jp ∷ b ∷ ys)
    → (q' : Queue) × (job_remove jp (queue head tail h) ≡ some q')
      × IsQueue q' ((xs ++ t ∷ []) ++ b ∷ ys)
unfolding job_remove update
remove_middle jp head tail h xs t b ys is =
    let (left, node) = Seg-split h 0 (xs ++ t ∷ []) (jp ∷ b ∷ ys) 0 is.linked in
    let apart = Distinct-middle (xs ++ t ∷ []) jp (b ∷ ys) is.distinct in
    let front : head ≡ first (xs ++ t ∷ []) 0 =
      is.front ∙ first-append (xs ++ t ∷ []) (jp ∷ b ∷ ys) 0 ∙ first-snoc xs t jp 0 in
    let back : tail ≡ last ys b = is.back ∙ last-append (xs ++ t ∷ []) (jp ∷ b ∷ ys) 0 in
    let before : (h jp).prev ≡ t = node.1 ∙ last-append xs (t ∷ []) 0 in
    let pos : 0 < t = (Seg-split h 0 xs (t ∷ []) jp left).1.0 in
    let not_front : (jp == head) ≡ false = rw front (first-other jp xs t 0 apart.0) in
    let not_back : (jp == tail) ≡ false = rw back (last-other jp b ys apart.1) in
    let not_t : (t == jp) ≡ false = ne_sym jp t (NotIn-append jp xs (t ∷ []) apart.0).1.0 in
    let g : Heap = update h t (record (h t) { next = b }) in
    (
      queue head tail (update g b (record (g b) { prev = t })),
      rw (not_front, not_back)
          (rw (before, node.2)
            (rw (ne_zero t pos) (rw not_t (rw (before, node.2) (rw (ne_zero b node.3.0)))))),
      record {
        front = front ∙ first-snoc xs t 0 b ∙ sym (first-append (xs ++ t ∷ []) (b ∷ ys) 0);
        back = back ∙ sym (last-append (xs ++ t ∷ []) (b ∷ ys) 0);
        linked = Seg-unlink h xs t jp b ys is.distinct is.linked;
        distinct = apart.2;
      },
    )

remove_view :
    (jp : ℕ) (q : Queue) (xs ys : List ℕ)
    → Snoc xs
    → IsQueue q (xs ++ jp ∷ ys)
    → (q' : Queue) × (job_remove jp q ≡ some q') × IsQueue q' (xs ++ ys)
remove_view jp q _ [] empty is = remove_only jp q.head q.tail q.heap is
remove_view jp q _ (y ∷ ys) empty is = remove_first jp q.head q.tail q.heap y ys is
remove_view jp q _ [] (snoc xs t) is =
    rw (append-nil (xs ++ t ∷ [])) (remove_last jp q.head q.tail q.heap xs t is)
remove_view jp q _ (y ∷ ys) (snoc xs t) is = remove_middle jp q.head q.tail q.heap xs t y ys is

-- `job_remove` of a job of the queue takes just that job out and keeps the order of the others,
-- whether it is the only one, the first, the last or in between; no null pointer is followed.
pub job_remove-append :
    (jp : ℕ) (q : Queue) (xs ys : List ℕ)
    → IsQueue q (xs ++ jp ∷ ys)
    → (q' : Queue) × (job_remove jp q ≡ some q') × IsQueue q' (xs ++ ys)
job_remove-append jp q xs ys is = remove_view jp q xs ys (Snoc-view xs) is
