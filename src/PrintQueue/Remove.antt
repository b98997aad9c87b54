-- ===== src/PrintQueue/Remove.antt =====
-- `remove_job` of printer/printd.c takes one job out and leaves the order of the others.
use apue_learning.Common.{
  ℕ, ◌<◌, ◌≡◌, refl, sym, subst, ◌∙◌, false, List, [], ◌∷◌, ◌++◌, some, ◌==◌, append-nil,
}
use apue_learning.DoubleList.{Heap, Queue, update, Distinct, IsQueue}
use apue_learning.DoubleList.Segment.{
  first-append, last-append, Seg-split, Distinct-middle, Seg-set_prev, Seg-set_next,
}
use apue_learning.DoubleList.Ends.{Seg-unlink_back, Snoc, empty, snoc, Snoc-view}
use apue_learning.PrintQueue.{remove_job}
use apue_learning.PrintQueue.Refine.{ne_zero, ne_sym, first-snoc, queue}

remove_only :
    (jp head tail : ℕ) (h : Heap)
    → IsQueue (queue head tail h) (jp ∷ [])
    → (q' : Queue) × (remove_job jp (queue head tail h) ≡ some q') × IsQueue q' []
unfolding remove_job
remove_only jp head tail h is = (
  queue 0 0 h,
  rw is.linked.2 (rw is.linked.1 (rw is.linked.2)),
  record { front = refl; back = refl; linked = tt; distinct = tt },
)

remove_first :
    (jp head tail : ℕ) (h : Heap) (x : ℕ) (xs : List ℕ)
    → IsQueue (queue head tail h) (jp ∷ x ∷ xs)
    → (q' : Queue) × (remove_job jp (queue head tail h) ≡ some q') × IsQueue q' (x ∷ xs)
unfolding remove_job update
remove_first jp head tail h x xs is = (
  queue x tail (update h x (record (h x) { prev = 0 })),
  rw (is.linked.2, is.linked.1)
      (rw (ne_zero x is.linked.3.0)
        (rw (ne_sym jp x is.distinct.0.0) (rw (is.linked.1, is.linked.2)))),
  record {
    front = refl;
    back = is.back;
    linked = Seg-set_prev h x jp 0 xs 0 is.distinct.1.0 is.linked.3;
    distinct = is.distinct.1;
  },
)

remove_last :
    (jp head tail : ℕ) (h : Heap) (xs : List ℕ) (t : ℕ)
    → IsQueue (queue head tail h) ((xs ++ t ∷ []) ++ jp ∷ [])
    → (q' : Queue) × (remove_job jp (queue head tail h) ≡ some q') × IsQueue q' (xs ++ t ∷ [])
unfolding remove_job
remove_last jp head tail h xs t is =
    let (left, node) = Seg-split h 0 (xs ++ t ∷ []) (jp ∷ []) 0 is.linked in
    let apart = Distinct-middle (xs ++ t ∷ []) jp [] is.distinct in
    let d = subst Distinct (append-nil (xs ++ t ∷ [])) apart.2 in
    let before : (h jp).prev ≡ t = node.1 ∙ last-append xs (t ∷ []) 0 in
    let pos : 0 < t = (Seg-split h 0 xs (t ∷ []) jp left).1.0 in
    (
      queue head t (update h t (record (h t) { next = 0 })),
      rw (node.2, before) (rw (ne_zero t pos) (rw node.2)),
      record {
        front = is.front ∙ first-append (xs ++ t ∷ []) (jp ∷ []) 0 ∙ first-snoc xs t jp 0;
        back = sym (last-append xs (t ∷ []) 0);
        linked = Seg-set_next h t 0 jp 0 xs (Distinct-middle xs t [] d).0 left;
        distinct = d;
      },
    )

remove_middle :
    (jp head tail : ℕ) (h : Heap) (xs : List ℕ) (t b : ℕ) (ys : List ℕ)
    → IsQueue (queue head tail h) ((xs ++ t ∷ []) ++ jp ∷ b ∷ ys)
    → (q' : Queue) × (remove_job jp (queue head tail h) ≡ some q')
      × IsQueue q' ((xs ++ t ∷ []) ++ b ∷ ys)
unfolding remove_job update
remove_middle jp head tail h xs t b ys is =
    let (left, node) = Seg-split h 0 (xs ++ t ∷ []) (jp ∷ b ∷ ys) 0 is.linked in
    let apart = Distinct-middle (xs ++ t ∷ []) jp (b ∷ ys) is.distinct in
    let before : (h jp).prev ≡ t = node.1 ∙ last-append xs (t ∷ []) 0 in
    let pos : 0 < t = (Seg-split h 0 xs (t ∷ []) jp left).1.0 in
    let not_b : (b == jp) ≡ false = ne_sym jp b apart.1.0 in
    let g : Heap = update h b (record (h b) { prev = t }) in
    (
      queue head tail (update g t (record (g t) { next = b })),
      rw (node.2, before)
          (rw (ne_zero b node.3.0) (rw not_b (rw (before, node.2) (rw (ne_zero t pos))))),
      record {
        front =
            is.front
            ∙ first-append (xs ++ t ∷ []) (jp ∷ b ∷ ys) 0
            ∙ first-snoc xs t jp b
            ∙ sym (first-append (xs ++ t ∷ []) (b ∷ ys) 0);
        back =
            is.back
            ∙ last-append (xs ++ t ∷ []) (jp ∷ b ∷ ys) 0
            ∙ sym (last-append (xs ++ t ∷ []) (b ∷ ys) 0);
        linked = Seg-unlink_back h xs t jp b ys is.distinct is.linked;
        distinct = apart.2;
      },
    )

remove_view :
    (jp : ℕ) (q : Queue) (xs ys : List ℕ)
    → Snoc xs
    → IsQueue q (xs ++ jp ∷ ys)
    → (q' : Queue) × (remove_job jp q ≡ some q') × IsQueue q' (xs ++ ys)
remove_view jp q _ [] empty is = remove_only jp q.head q.tail q.heap is
remove_view jp q _ (y ∷ ys) empty is = remove_first jp q.head q.tail q.heap y ys is
remove_view jp q _ [] (snoc xs t) is =
    rw (append-nil (xs ++ t ∷ [])) (remove_last jp q.head q.tail q.heap xs t is)
remove_view jp q _ (y ∷ ys) (snoc xs t) is = remove_middle jp q.head q.tail q.heap xs t y ys is

-- `remove_job` of a pending job takes just that job out and keeps the order of the others, whether
-- it is the only one, the first, the last or in between; no null pointer is followed.
pub remove_job-append :
    (jp : ℕ) (q : Queue) (xs ys : List ℕ)
    → IsQueue q (xs ++ jp ∷ ys)
    → (q' : Queue) × (remove_job jp q ≡ some q') × IsQueue q' (xs ++ ys)
remove_job-append jp q xs ys is = remove_view jp q xs ys (Snoc-view xs) is
