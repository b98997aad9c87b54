-- ===== src/FooTable/Alloc.antt =====
-- `foo_alloc` puts an object with one reference in front of the chain of its id.
use apue_learning.Common.{
  In, Once, ℕ, ℤ, suc, ◌<◌, ◌≡◌, ap, ◌∙◌, sym, subst, List, ◌∷◌, ◌⊎◌, inl, inr, arith,
}
use apue_learning.FooTable.{Foo, Table, put, hash}
use apue_learning.FooTable.Chains.{Chain, put_other, put_same, Chain-same}
use apue_learning.FooTable.Counted.{
  references, Shared, IsCounted, references_none, references-cons, references-cons_other,
}
use apue_learning.FooTable.Hold.{same_or}

module _ (chains : ℕ → List ℕ) (s : Shared) (k : IsCounted chains s) (fp : ℕ) (id : ℤ) where
  abbrev t : Table
  t = s.table

  abbrev pub fresh_foo : Foo
  fresh_foo = record { f_count = 1; f_id = id; f_next = t.fh (hash id) }

  abbrev pub with_new : ℕ → List ℕ
  with_new = put chains (hash id) (fp ∷ chains (hash id))

  with_new-In : (c x : ℕ) → In x (with_new c) → ((x ≡ fp) × (c ≡ hash id)) ⊎ In x (chains c)
  with_new-In c x i = elim (same_or c (hash id)) [
    | inl e ↦
        elim (subst (In x) (ap with_new e ∙ put_same chains (hash id) (fp ∷ chains (hash id))) i) [
          | inl q ↦ inl (q, e)
          | inr j ↦ inr (subst (λ z. In x (chains z)) (sym e) j)
        ]
    | inr n ↦ inr (subst (In x) (put_other chains (hash id) c (fp ∷ chains (hash id)) n) i)
  ]

  In-with_new : (c x : ℕ) → In x (chains c) → In x (with_new c)
  In-with_new c x i = elim (same_or c (hash id)) [
    | inl e ↦
        subst (In x) (sym (ap with_new e ∙ put_same chains (hash id) (fp ∷ chains (hash id))))
          (inr (subst (λ z. In x (chains z)) e i))
    | inr n ↦ subst (In x) (sym (put_other chains (hash id) c (fp ∷ chains (hash id)) n)) i
  ]

  abbrev foos' : ℕ → Foo
  foos' = put t.foos fp fresh_foo

  -- An address that is in no chain of the table gets an object.
  pub alloc-IsCounted :
      0 < fp
      → ((c : ℕ) → In fp (chains c) → ⊥)
      → IsCounted with_new (record {
        table = record { fh = put t.fh (hash id) fp; foos = foos' };
        held = fp ∷ s.held;
      })
  alloc-IsCounted lt new =
      let b = hash id in
      let unheld : In fp s.held → ⊥ = λ j. new _ (k.live fp j) in
      let other : (c x : ℕ) → In x (chains c) → foos' x ≡ t.foos x =
        λ c x j. put_other t.foos fp x fresh_foo (λ e. new c (subst (λ z. In z (chains c)) e j)) in
      let own = put_same t.foos fp fresh_foo in
      record {
        chain = λ c. elim (same_or c b) [
          | inl e ↦
              subst (λ z. Chain foos' (put t.fh b fp z) (with_new z)) (sym e)
                (subst (Chain foos' (put t.fh b fp b)) (sym (put_same chains b (fp ∷ chains b))) (
                  put_same t.fh b fp,
                  lt,
                  subst (λ w. Chain foos' w.f_next (chains b)) (sym own)
                      (Chain-same t.foos foos' (t.fh b) (chains b)
                        (λ y j. ap (λ w. w.f_next) (other b y j)) (k.chain b)),
                ))
          | inr n ↦
              subst (Chain foos' (put t.fh b fp c)) (sym (put_other chains b c (fp ∷ chains b) n)) (
                subst (λ a. Chain foos' a (chains c)) (sym (put_other t.fh b c fp n))
                  (Chain-same t.foos foos' (t.fh c) (chains c)
                    (λ y j. ap (λ w. w.f_next) (other c y j)) (k.chain c)))
        ];
        home = λ c x i. elim (with_new-In c x i) [
          | inl q ↦ ap (λ z. hash (foos' z).f_id) q.0 ∙ ap (λ w. hash w.f_id) own ∙ sym q.1
          | inr j ↦ ap (λ w. hash w.f_id) (other c x j) ∙ k.home c x j
        ];
        once = λ c. elim (same_or c b) [
          | inl e ↦
              subst (λ z. Once (with_new z)) (sym e)
                (subst Once (sym (put_same chains b (fp ∷ chains b))) (new b, k.once b))
          | inr n ↦ subst Once (sym (put_other chains b c (fp ∷ chains b) n)) (k.once c)
        ];
        count = λ c x i. elim (with_new-In c x i) [
          | inl q ↦
              ap (λ z. (foos' z).f_count) q.0
              ∙ ap (λ w. w.f_count) own
              ∙ sym (references-cons fp s.held ∙ ap suc (references_none fp s.held unheld))
              ∙ ap (λ z. references z (fp ∷ s.held)) (sym q.0)
          | inr j ↦
              ap (λ w. w.f_count) (other c x j)
              ∙ k.count c x j
              ∙ sym (
                  references-cons_other fp x s.held (λ e. new c (subst (λ z. In z (chains c)) e j)))
        ];
        positive = λ c x i. elim (with_new-In c x i) [
          | inl q ↦ subst (λ w. 0 < w.f_count) (sym (ap foos' q.0 ∙ own)) (omega arith)
          | inr j ↦ subst (λ w. 0 < w.f_count) (sym (other c x j)) (k.positive c x j)
        ];
        live = λ x i. elim i [
          | inl e ↦
              subst (λ z. In x (with_new (hash z.f_id))) (sym (ap foos' e ∙ own))
                (subst (In x) (sym (put_same chains b (fp ∷ chains b))) (inl e))
          | inr j ↦
              subst (λ z. In x (with_new (hash z.f_id))) (sym (other _ x (k.live x j)))
                (In-with_new (hash (t.foos x).f_id) x (k.live x j))
        ];
      }
