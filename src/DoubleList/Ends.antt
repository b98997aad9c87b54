-- ===== src/DoubleList/Ends.antt =====
-- A new node at an end of a list, and a node taken out of it.
use apue_learning.Common.{
  ℕ, ◌<◌, ◌≡◌, sym, ap, ◌∙◌, false, List, [], ◌∷◌, ◌++◌, arith, ◌==◌, ==_refl, append_assoc, subst,
}
use apue_learning.DoubleList.{Node, Heap, update, NotIn, Distinct, Seg}
use apue_learning.DoubleList.Segment.{
  last-append, Seg-split, Seg-join, Seg-update, NotIn-append, Distinct-middle, Seg-set_prev,
  Seg-set_next,
}

-- `g` is `h` with the links of node `a` set to `n` and `p`.
pub record Linked (g h : Heap) (a n p : ℕ) : Type 0 where
  pub next_is : (g a).next ≡ n
  pub prev_is : (g a).prev ≡ p
  pub others : (b : ℕ) → (a == b) ≡ false → g b ≡ h b

pub Linked-next_prev :
    (h : Heap) (a n p : ℕ)
    → Linked
        (update
          (update h a (record (h a) { next = n }))
          a
          (record (update h a (record (h a) { next = n }) a) { prev = p }))
        h
        a
        n
        p
unfolding update
Linked-next_prev h a n p = record {
  next_is = rw (==_refl a);
  prev_is = rw (==_refl a);
  others = λ b ne. rw ne;
}

pub Linked-prev_next :
    (h : Heap) (a n p : ℕ)
    → Linked
        (update
          (update h a (record (h a) { prev = p }))
          a
          (record (update h a (record (h a) { prev = p }) a) { next = n }))
        h
        a
        n
        p
unfolding update
Linked-prev_next h a n p = record {
  next_is = rw (==_refl a);
  prev_is = rw (==_refl a);
  others = λ b ne. rw ne;
}

pub Seg-Linked :
    {g h : Heap} {a n p : ℕ} (q : ℕ) (xs : List ℕ) (e : ℕ)
    → Linked g h a n p
    → NotIn a xs
    → Seg h q xs e
    → Seg g q xs e
Seg-Linked q [] e l out s = tt
Seg-Linked q (x ∷ xs) e l out s = (
  s.0,
  ap (λ (m : Node). m.prev) (l.others x out.0) ∙ s.1,
  ap (λ (m : Node). m.next) (l.others x out.0) ∙ s.2,
  Seg-Linked x xs e l out.1 s.3,
)

==_sym : (a b : ℕ) → (a == b) ≡ false → (b == a) ≡ false
==_sym a b h = ground arith

-- A new node in front of a list that is not empty.
pub Seg-cons :
    {g h : Heap} (a x : ℕ) (xs : List ℕ)
    → 0 < a
    → Linked g h a x 0
    → NotIn a (x ∷ xs)
    → Distinct (x ∷ xs)
    → Seg h 0 (x ∷ xs) 0
    → Seg (update g x (record (g x) { prev = a })) 0 (a ∷ x ∷ xs) 0
unfolding update
Seg-cons {g} a x xs pos l out d s = (
  pos,
  rw (==_sym a x out.0) l.prev_is,
  rw (==_sym a x out.0) l.next_is,
  Seg-set_prev g x 0 a xs 0 d.0 (Seg-Linked 0 (x ∷ xs) 0 l out s),
)

-- A new node behind a list with the last node `t`.
pub Seg-snoc :
    {g h : Heap} (a t : ℕ) (xs : List ℕ)
    → 0 < a
    → Linked g h a 0 t
    → NotIn a (xs ++ t ∷ [])
    → Distinct (xs ++ t ∷ [])
    → Seg h 0 (xs ++ t ∷ []) 0
    → Seg (update g t (record (g t) { next = a })) 0 ((xs ++ t ∷ []) ++ a ∷ []) 0
unfolding update
Seg-snoc {g} a t xs pos l out d s =
    let apart = (NotIn-append a xs (t ∷ []) out).1.0 in
    let kept = Seg-Linked 0 (xs ++ t ∷ []) 0 l out s in
    let front = Seg-set_next g t 0 0 a xs (Distinct-middle xs t [] d).0 kept in
    Seg-join (update g t (record (g t) { next = a })) 0 (xs ++ t ∷ []) (a ∷ []) 0 front (
      pos,
      rw (==_sym a t apart) (l.prev_is ∙ sym (last-append xs (t ∷ []) 0)),
      rw (==_sym a t apart) l.next_is,
      tt,
    )

-- The two parts of a list around the nodes `t`, `a` and `b`.
module _ (h : Heap) (xs : List ℕ) (t a b : ℕ) (ys : List ℕ)
    (d : Distinct ((xs ++ t ∷ []) ++ a ∷ b ∷ ys))
    (s : Seg h 0 ((xs ++ t ∷ []) ++ a ∷ b ∷ ys) 0) where
  left : Seg h 0 (xs ++ t ∷ []) a
  left = (Seg-split h 0 (xs ++ t ∷ []) (a ∷ b ∷ ys) 0 s).0

  right : Seg h a (b ∷ ys) 0
  right = (Seg-split h 0 (xs ++ t ∷ []) (a ∷ b ∷ ys) 0 s).1.3

  rest : Distinct ((xs ++ t ∷ []) ++ b ∷ ys)
  rest = (Distinct-middle (xs ++ t ∷ []) a (b ∷ ys) d).2

  b_out : NotIn b (xs ++ t ∷ [])
  b_out = (Distinct-middle (xs ++ t ∷ []) b ys rest).0

  b_out_right : NotIn b ys
  b_out_right = (Distinct-middle (xs ++ t ∷ []) b ys rest).1

  t_out : NotIn t xs × NotIn t (b ∷ ys)
  t_out =
      let (l, r, _) =
        Distinct-middle xs t (b ∷ ys) (subst Distinct (append_assoc xs (t ∷ []) (b ∷ ys)) rest) in
      (l, r)

  -- `t->next = b` and then `b->prev = t` take `a` out.
  pub Seg-unlink :
      let g = update h t (record (h t) { next = b }) in
      Seg (update g b (record (g b) { prev = t })) 0 ((xs ++ t ∷ []) ++ b ∷ ys) 0
  Seg-unlink =
      let g : Heap = update h t (record (h t) { next = b }) in
      let g' : Heap = update g b (record (g b) { prev = t }) in
      Seg-join g' 0 (xs ++ t ∷ []) (b ∷ ys) 0
        (Seg-update g b (record (g b) { prev = t }) 0 (xs ++ t ∷ []) b b_out
          (Seg-set_next h t 0 a b xs t_out.0 left))
        (rw (last-append xs (t ∷ []) 0) (
          Seg-set_prev g b a t ys 0 b_out_right
            (Seg-update h t (record (h t) { next = b }) a (b ∷ ys) 0 t_out.1 right)))

  -- So do the two assignments in the other order.
  pub Seg-unlink_back :
      let g = update h b (record (h b) { prev = t }) in
      Seg (update g t (record (g t) { next = b })) 0 ((xs ++ t ∷ []) ++ b ∷ ys) 0
  Seg-unlink_back =
      let g : Heap = update h b (record (h b) { prev = t }) in
      let g' : Heap = update g t (record (g t) { next = b }) in
      Seg-join g' 0 (xs ++ t ∷ []) (b ∷ ys) 0
        (Seg-set_next g t 0 a b xs t_out.0
          (Seg-update h b (record (h b) { prev = t }) 0 (xs ++ t ∷ []) a b_out left))
        (rw (last-append xs (t ∷ []) 0) (
          Seg-update g t (record (g t) { next = b }) t (b ∷ ys) 0 t_out.1
            (Seg-set_prev h b a t ys 0 b_out_right right)))

-- A list is empty, or has a last node.
pub data Snoc : List ℕ → Type 0 where
  empty : Snoc []
  snoc : (xs : List ℕ) (t : ℕ) → Snoc (xs ++ t ∷ [])

cons-Snoc : (x : ℕ) {xs : List ℕ} → Snoc xs → Snoc (x ∷ xs)
cons-Snoc x empty = snoc [] x
cons-Snoc x (snoc ys t) = snoc (x ∷ ys) t

pub Snoc-view : (xs : List ℕ) → Snoc xs
Snoc-view [] = empty
Snoc-view (x ∷ xs) = cons-Snoc x (Snoc-view xs)
