-- ===== src/FooTable/Hold.antt =====
-- `foo_hold` keeps the counts right.
use apue_learning.Common.{
  ◌%◌, ◌≤◌, ◌<◌, length, In, ℕ, suc, ◌+◌, ◌<◌, ◌≡◌, refl, ap, ◌∙◌, sym, subst, List, ◌∷◌, ◌⊎◌, inl,
  inr, ◌==◌, ==_iff, arith, Bool-cases,
}
use apue_learning.FooTable.{Table, put, hash, count_up, foo_hold}
use apue_learning.FooTable.Chains.{put_other, put_same, Chain-same}
use apue_learning.FooTable.Unlink.{put-field}
use apue_learning.FooTable.Counted.{
  int_max, references-le, references, Shared, IsCounted, references-cons, references-cons_other,
}

pub same_or : (x y : ℕ) → (x ≡ y) ⊎ (x ≡ y → ⊥)
same_or x y = elim (Bool-cases (x == y)) [
  | inl e ↦ inl ((==_iff x y).0 e)
  | inr e ↦ inr (λ q. let z = (==_iff x y).1 q in absurd cc)
]

module _ (chains : ℕ → List ℕ) (s : Shared) (k : IsCounted chains s) where
  abbrev t : Table
  t = s.table

  -- One reference more to an object of the table.
  pub hold-IsCounted :
      (b fp : ℕ)
      → In fp (chains b)
      → length s.held < int_max
      → IsCounted chains (record { table = foo_hold fp t; held = fp ∷ s.held })
  unfolding foo_hold
  hold-IsCounted b fp i few =
      let v = count_up (t.foos fp) in
      let id : (x : ℕ) → (put t.foos fp v x).f_id ≡ (t.foos x).f_id =
        λ x. put-field (λ w. w.f_id) t.foos fp v x refl in
      record {
        chain = λ c.
            Chain-same t.foos (put t.foos fp v) (t.fh c) (chains c)
              (λ y j. put-field (λ w. w.f_next) t.foos fp v y refl) (k.chain c);
        home = λ c x j. ap hash (id x) ∙ k.home c x j;
        once = k.once;
        count = λ c x j. elim (same_or x fp) [
          | inl e ↦
              ap (λ z. (put t.foos fp v z).f_count) e
              ∙ ap (λ w. w.f_count) (put_same t.foos fp v)
              ∙ ap (λ n. (n + 1) % 4294967296) (k.count b fp i)
              ∙ one_more (references-le fp s.held)
              ∙ sym (references-cons fp s.held)
              ∙ ap (λ z. references z (fp ∷ s.held)) (sym e)
          | inr n ↦
              ap (λ w. w.f_count) (put_other t.foos fp x v n)
              ∙ k.count c x j
              ∙ sym (references-cons_other fp x s.held n)
        ];
        positive = λ c x j. elim (same_or x fp) [
          | inl e ↦
              subst (λ w. 0 < w.f_count) (sym (ap (put t.foos fp v) e ∙ put_same t.foos fp v))
                (some_more (k.count b fp i) (references-le fp s.held))
          | inr n ↦ subst (λ w. 0 < w.f_count) (sym (put_other t.foos fp x v n)) (k.positive c x j)
        ];
        live = λ x j.
            subst (λ h. In x (chains h)) (sym (ap hash (id x)))
              (elim j [
                | inl e ↦
                    subst (λ z. In z (chains (hash (t.foos z).f_id))) (sym e)
                      (subst (λ h. In fp (chains h)) (sym (k.home b fp i)) i)
                | inr j' ↦ k.live x j'
              ]);
      }
    where
      one_more : {n : ℕ} → n ≤ length s.held → (n + 1) % 4294967296 ≡ suc n
      one_more h = omega (arith, few, h)

      some_more : {m n : ℕ} → m ≡ n → n ≤ length s.held → 0 < (m + 1) % 4294967296
      some_more q h = omega (arith, few, q, h)
