-- ===== src/DoubleList/Segment.antt =====
-- List segments: splitting, joining, and changes of one node.
use apue_learning.Common.{ℕ, ◌≡◌, refl, sym, ◌∙◌, false, List, [], ◌∷◌, ◌++◌, arith, ◌==◌, ==_refl}
use apue_learning.DoubleList.{Node, Heap, update, first, last, NotIn, Distinct, Seg}

pub first-append : (xs ys : List ℕ) (d : ℕ) → first (xs ++ ys) d ≡ first xs (first ys d)
first-append [] ys d = refl
first-append (x ∷ xs) ys d = refl

pub last-append : (xs ys : List ℕ) (d : ℕ) → last (xs ++ ys) d ≡ last ys (last xs d)
last-append [] ys d = refl
last-append (x ∷ xs) ys d = last-append xs ys x

pub Seg-split :
    (h : Heap) (p : ℕ) (xs ys : List ℕ) (e : ℕ)
    → Seg h p (xs ++ ys) e
    → Seg h p xs (first ys e) × Seg h (last xs p) ys e
Seg-split h p [] ys e s = (tt, s)
Seg-split h p (x ∷ xs) ys e s =
    let (left, right) = Seg-split h x xs ys e s.3 in
    ((s.0, s.1, s.2 ∙ first-append xs ys e, left), right)

pub Seg-join :
    (h : Heap) (p : ℕ) (xs ys : List ℕ) (e : ℕ)
    → Seg h p xs (first ys e)
    → Seg h (last xs p) ys e
    → Seg h p (xs ++ ys) e
Seg-join h p [] ys e s t = t
Seg-join h p (x ∷ xs) ys e s t =
    (s.0, s.1, s.2 ∙ sym (first-append xs ys e), Seg-join h x xs ys e s.3 t)

-- A segment survives a change of a node that is not in it.
pub Seg-update :
    (h : Heap) (a : ℕ) (n : Node) (p : ℕ) (xs : List ℕ) (e : ℕ)
    → NotIn a xs
    → Seg h p xs e
    → Seg (update h a n) p xs e
unfolding update
Seg-update h a n p [] e out s = tt
Seg-update h a n p (x ∷ xs) e out s =
    (s.0, rw out.0 s.1, rw out.0 s.2, Seg-update h a n x xs e out.1 s.3)

pub NotIn-append : (a : ℕ) (xs ys : List ℕ) → NotIn a (xs ++ ys) → NotIn a xs × NotIn a ys
NotIn-append a [] ys h = (tt, h)
NotIn-append a (x ∷ xs) ys h = let (l, r) = NotIn-append a xs ys h.1 in ((h.0, l), r)

pub NotIn-join : (a : ℕ) (xs ys : List ℕ) → NotIn a xs → NotIn a ys → NotIn a (xs ++ ys)
NotIn-join a [] ys h k = k
NotIn-join a (x ∷ xs) ys h k = (h.0, NotIn-join a xs ys h.1 k)

==_sym : (a b : ℕ) → (a == b) ≡ false → (b == a) ≡ false
==_sym a b h = ground arith

-- The element in the middle of distinct ones differs from all others.
pub Distinct-middle :
    (xs : List ℕ) (a : ℕ) (ys : List ℕ)
    → Distinct (xs ++ a ∷ ys)
    → NotIn a xs × NotIn a ys × Distinct (xs ++ ys)
Distinct-middle [] a ys d = (tt, d.0, d.1)
Distinct-middle (x ∷ xs) a ys d =
    let (l, r, rest) = Distinct-middle xs a ys d.1 in
    let (out_l, out_r) = NotIn-append x xs (a ∷ ys) d.0 in
    ((==_sym x a out_r.0, l), r, (NotIn-join x xs ys out_l out_r.1, rest))

pub Distinct-snoc : (xs : List ℕ) (a : ℕ) → Distinct xs → NotIn a xs → Distinct (xs ++ a ∷ [])
Distinct-snoc [] a d out = (tt, tt)
Distinct-snoc (x ∷ xs) a d out =
    (NotIn-join x xs (a ∷ []) d.0 (==_sym a x out.0, tt), Distinct-snoc xs a d.1 out.1)

-- The first node's back link is set anew.
pub Seg-set_prev :
    (h : Heap) (x p p' : ℕ) (xs : List ℕ) (e : ℕ)
    → NotIn x xs
    → Seg h p (x ∷ xs) e
    → Seg (update h x (record (h x) { prev = p' })) p' (x ∷ xs) e
unfolding update
Seg-set_prev h x p p' xs e out s =
    (s.0, rw (==_refl x), rw (==_refl x) s.2, Seg-update h x _ x xs e out s.3)

-- The last node's forward link is set anew.
pub Seg-set_next :
    (h : Heap) (x p e e' : ℕ) (xs : List ℕ)
    → NotIn x xs
    → Seg h p (xs ++ x ∷ []) e
    → Seg (update h x (record (h x) { next = e' })) p (xs ++ x ∷ []) e'
unfolding update
Seg-set_next h x p e e' xs out s =
    let (front, node) = Seg-split h p xs (x ∷ []) e s in
    Seg-join (update h x (record (h x) { next = e' })) p xs (x ∷ []) e'
      (Seg-update h x (record (h x) { next = e' }) p xs x out front)
      (node.0, rw (==_refl x) node.1, rw (==_refl x), tt)
