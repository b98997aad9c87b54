-- ===== src/FooTable/Unlink.antt =====
-- The removal of an object from its chain.
use apue_learning.Common.{
  In, Once, ℕ, zero, suc, ◌≤◌, ◌<◌, ◌≡◌, refl, ap, ◌∙◌, sym, subst, Bool, true, false, List, [],
  ◌∷◌, Option, some, inl, inr, ◌==◌, ==_iff, if◌then◌else◌, arith, length, Bool-cases,
}
use apue_learning.FooTable.{Foo, Table, put, set_foo, unlink_loop}
use apue_learning.FooTable.Chains.{Chain, put_other, put_same, Chain-same}

unfoldable pub remove : ℕ → List ℕ → List ℕ
remove p [] = []
remove p (x ∷ xs) = let rest = remove p xs in if x == p then xs else x ∷ rest

pub length-remove : (p : ℕ) (xs : List ℕ) → length (remove p xs) ≤ length xs
unfolding remove
length-remove p [] = omega arith
length-remove p (x ∷ xs) = elim (Bool-cases (x == p)) [
  | inl e ↦ rw e (omega arith)
  | inr e ↦ rw e (omega (arith, length-remove p xs))
]

pub In-remove : (p q : ℕ) (xs : List ℕ) → In q (remove p xs) → In q xs
unfolding remove
In-remove p q [] h = h
In-remove p q (x ∷ xs) h = cons (x == p) h (λ k. In-remove p q xs k)
  where
    cons :
        (b : Bool)
        → In q (if b then xs else x ∷ remove p xs)
        → (In q (remove p xs) → In q xs)
        → In q (x ∷ xs)
    cons true h k = inr h
    cons false (inl h) k = inl h
    cons false (inr h) k = inr (k h)

differ : (x p : ℕ) → (x ≡ p → ⊥) → (x == p) ≡ false
differ x p n = elim (Bool-cases (x == p)) [ inl e ↦ absurd (n ((==_iff x p).0 e)) | inr e ↦ e ]

pub remove_pass : (p x : ℕ) (xs : List ℕ) → (x ≡ p → ⊥) → remove p (x ∷ xs) ≡ x ∷ remove p xs
unfolding remove
remove_pass p x xs n = rw (differ x p n) refl

pub remove_first : (p x : ℕ) (xs : List ℕ) → x ≡ p → remove p (x ∷ xs) ≡ xs
unfolding remove
remove_first p x xs e = rw ((==_iff x p).1 e) refl

pub remove-In : (p q : ℕ) (xs : List ℕ) → In q xs → (q ≡ p → ⊥) → In q (remove p xs)
unfolding remove
remove-In p q [] h n = h
remove-In p q (x ∷ xs) (inl h) n = rw (differ x p (λ e. n (h ∙ e))) (inl h)
remove-In p q (x ∷ xs) (inr h) n = elim (Bool-cases (x == p)) [
  | inl e ↦ rw e h
  | inr e ↦ rw e (inr (remove-In p q xs h n))
]

pub Once-remove : (p : ℕ) (xs : List ℕ) → Once xs → Once (remove p xs) × (In p (remove p xs) → ⊥)
unfolding remove
Once-remove p [] h = (tt, λ k. k)
Once-remove p (x ∷ xs) h = elim (Bool-cases (x == p)) [
  | inl e ↦ rw e (h.1, λ k. h.0 (subst (λ z. In z xs) (sym ((==_iff x p).0 e)) k))
  | inr e ↦
      let r = Once-remove p xs h.1 in
      rw e (
        (λ k. h.0 (In-remove p x xs k), r.0),
        λ k. elim k [
          | inl q ↦ absurd (let z : (x == p) ≡ true = (==_iff x p).1 (sym q) in cc)
          | inr k' ↦ r.1 k'
        ],
      )
]

-- The table after a removal behind the first object of a chain.
pub record Unlinked (fp a : ℕ) (xs : List ℕ) (t t' : Table) : Type 0 where
  pub same_fh : t'.fh ≡ t.fh
  pub chain : Chain t'.foos a (remove fp xs)
  pub counts : (y : ℕ) → (t'.foos y).f_count ≡ (t.foos y).f_count
  pub ids : (y : ℕ) → (t'.foos y).f_id ≡ (t.foos y).f_id
  pub others : (y : ℕ) → (In y xs → ⊥) → t'.foos y ≡ t.foos y

-- `none` does not happen.
pub data Unlinks (fp a : ℕ) (xs : List ℕ) (t : Table) : Option Table → Type 0 where
  unlinks : (t' : Table) → Unlinked fp a xs t t' → Unlinks fp a xs t (some t')

pub put-field :
    {A : Type 0} (g : Foo → A) (foos : ℕ → Foo) (a : ℕ) (v : Foo) (y : ℕ)
    → g v ≡ g (foos a)
    → g (put foos a v y) ≡ g (foos y)
put-field g foos a v y h = elim (Bool-cases (a == y)) [
  | inl e ↦ rw e (h ∙ ap (λ z. g (foos z)) ((==_iff a y).0 e))
  | inr e ↦ rw e refl
]

-- The object in front of the removed one is found.
found :
    (f fp x : ℕ) (xs : List ℕ) (t : Table)
    → Chain t.foos x (x ∷ xs)
    → Once (x ∷ xs)
    → In fp xs
    → (x ≡ fp → ⊥)
    → (t.foos x).f_next ≡ fp
    → Unlinked fp x (x ∷ xs) t (set_foo x (record (t.foos x) { f_next = (t.foos fp).f_next }) t)
found f fp x [] t c o i n q = absurd i
found f fp x (y ∷ ys) t c o i n q =
    let e : y ≡ fp = sym c.2.0 ∙ q in
    let v = record (t.foos x) { f_next = (t.foos fp).f_next } in
    record {
      same_fh = refl;
      chain =
          subst (Chain (put t.foos x v) x)
            (sym (remove_pass fp x (y ∷ ys) n ∙ ap (λ l. x ∷ l) (remove_first fp y ys e)))
            (
              refl,
              c.1,
              subst (λ z. Chain (put t.foos x v) z.f_next ys) (sym (put_same t.foos x v))
                  (Chain-same t.foos (put t.foos x v) (t.foos fp).f_next ys
                    (λ z k.
                      ap (λ w. w.f_next)
                        (put_other t.foos x z v (λ r. o.0 (inr (subst (λ w. In w ys) r k)))))
                    (subst (λ w. Chain t.foos (t.foos w).f_next ys) e c.2.2)),
            );
      counts = λ z. put-field (λ w. w.f_count) t.foos x v z refl;
      ids = λ z. put-field (λ w. w.f_id) t.foos x v z refl;
      others = λ z k. put_other t.foos x z v (λ r. k (inl r));
    }

-- The object in front is one that the loop passes.
passed :
    (fp x : ℕ) (xs : List ℕ) (t : Table) (r : Option Table)
    → 0 < x
    → Once (x ∷ xs)
    → (x ≡ fp → ⊥)
    → Unlinks fp (t.foos x).f_next xs t r
    → Unlinks fp x (x ∷ xs) t r
passed fp x xs t r lt o n (unlinks t' u) = unlinks t' (record {
  same_fh = u.same_fh;
  chain =
      subst (Chain t'.foos x) (sym (remove_pass fp x xs n)) (
        refl,
        lt,
        subst (λ z. Chain t'.foos z.f_next (remove fp xs)) (sym (u.others x o.0)) u.chain,
      );
  counts = u.counts;
  ids = u.ids;
  others = λ z k. u.others z (λ j. k (inr j));
})

pub unlink_loop-Unlinks :
    (f fp a : ℕ) (xs : List ℕ) (t : Table)
    → Chain t.foos a xs
    → Once xs
    → In fp xs
    → (a ≡ fp → ⊥)
    → length xs ≤ f
    → Unlinks fp a xs t (unlink_loop f fp a t)
unfolding unlink_loop
unlink_loop-Unlinks f fp a [] t c o i n h = absurd i
unlink_loop-Unlinks zero fp a (x ∷ xs) t c o i n h = absurd (omega arith)
unlink_loop-Unlinks (suc f) fp a (x ∷ xs) t c o (inl i) n h = absurd (n (c.0 ∙ sym i))
unlink_loop-Unlinks (suc f) fp a (x ∷ xs) t c o (inr i) n h =
    let nz : (x == 0) ≡ false = ground (arith, c.1) in
    let n' : x ≡ fp → ⊥ = λ e. n (c.0 ∙ e) in
    rw (c.0, nz)
      (elim (Bool-cases ((t.foos x).f_next == fp)) [
        | inl e ↦ rw e (
            unlinks _
              (found f fp x xs t (refl, c.1, c.2) o i n' ((==_iff (t.foos x).f_next fp).0 e)))
        | inr e ↦ rw e (
            passed fp x xs t (unlink_loop f fp (t.foos x).f_next t) c.1 o n' (
              unlink_loop-Unlinks f fp (t.foos x).f_next xs t c.2 o.1 i
                (λ q. let z = (==_iff (t.foos x).f_next fp).1 q in absurd cc) (omega arith)))
      ])
