-- ===== src/FooTable/Release.antt =====
-- `foo_rele` keeps the counts right, and takes the object of the last reference out of its chain.
use apue_learning.Common.{
  ◌%◌, ◌≤◌, ◌+◌, In, Once, ℕ, suc, ◌<◌, ◌≡◌, refl, ap, ◌∙◌, sym, subst, true, false, List, [], ◌∷◌,
  Option, some, inl, inr, ◌==◌, ==_iff, arith, length, Bool-cases,
}
use apue_learning.FooTable.{count_down, Table, put, set_foo, hash, foo_rele, unlink_loop}
use apue_learning.FooTable.Chains.{Chain, put_other, put_same, Chain-same}
use apue_learning.FooTable.Unlink.{
  remove, length-remove, In-remove, remove-In, Once-remove, remove_first, Unlinks, unlinks,
  unlink_loop-Unlinks, put-field,
}
use apue_learning.FooTable.Counted.{
  references, Shared, released, IsCounted, references-remove, references-remove_other,
}
use apue_learning.FooTable.Counted.{int_max, references-le}
use apue_learning.FooTable.Hold.{same_or}

-- The table after `fp` was taken out of chain `b`.
record Removed (chains : ℕ → List ℕ) (b fp : ℕ) (t t' : Table) : Type 0 where
  chain : Chain t'.foos (t'.fh b) (remove fp (chains b))
  fh_other : (c : ℕ) → (c ≡ b → ⊥) → t'.fh c ≡ t.fh c
  next_other : (y : ℕ) → (In y (chains b) → ⊥) → (t'.foos y).f_next ≡ (t.foos y).f_next
  counts : (y : ℕ) → (y ≡ fp → ⊥) → (t'.foos y).f_count ≡ (t.foos y).f_count
  ids : (y : ℕ) → (t'.foos y).f_id ≡ (t.foos y).f_id

-- The count from which one less is 0.
last_one :
    {c n l : ℕ}
    → c ≡ n
    → 0 < c
    → n ≤ l
    → l ≤ int_max
    → ((c + 4294967295) % 4294967296 == 0) ≡ true
    → n ≡ 1
last_one {c} q p h k e =
    let z : (c + 4294967295) % 4294967296 ≡ 0 = (==_iff ((c + 4294967295) % 4294967296) 0).0 e in
    omega (arith, q, p, h, k, z)

module _ (chains : ℕ → List ℕ) (s : Shared) (k : IsCounted chains s) where
  abbrev t : Table
  t = s.table

  abbrev pub without : ℕ → ℕ → ℕ → List ℕ
  without b fp = put chains b (remove fp (chains b))

  pub In-without : (b fp c x : ℕ) → In x (without b fp c) → In x (chains c)
  In-without b fp c x i = elim (same_or c b) [
    | inl e ↦
        subst (λ z. In x (chains z)) (sym e)
          (In-remove fp x (chains b)
            (subst (In x) (ap (without b fp) e ∙ put_same chains b (remove fp (chains b))) i))
    | inr n ↦ subst (In x) (put_other chains b c (remove fp (chains b)) n) i
  ]

  without-In : (b fp c x : ℕ) → In x (chains c) → (x ≡ fp → ⊥) → In x (without b fp c)
  without-In b fp c x i n = elim (same_or c b) [
    | inl e ↦
        subst (In x) (sym (ap (without b fp) e ∙ put_same chains b (remove fp (chains b))))
          (remove-In fp x (chains b) (subst (λ z. In x (chains z)) e i) n)
    | inr m ↦ subst (In x) (sym (put_other chains b c (remove fp (chains b)) m)) i
  ]

  without-gone : (b fp c x : ℕ) → In fp (chains b) → In x (without b fp c) → x ≡ fp → ⊥
  without-gone b fp c x i j e = elim (same_or c b) [
    | inl q ↦ (Once-remove fp (chains b) (k.once b)).1 (
        subst (λ z. In z (remove fp (chains b))) e
          (subst (In x) (ap (without b fp) q ∙ put_same chains b (remove fp (chains b))) j))
    | inr n ↦ n (
        sym (k.home c x (In-without b fp c x j)) ∙ ap (λ z. hash (t.foos z).f_id) e ∙ k.home b fp i)
  ]

  -- The last reference.
  Removed-IsCounted :
      (b fp : ℕ) (t' : Table)
      → In fp (chains b)
      → references fp s.held ≡ 1
      → In fp s.held
      → Removed chains b fp t t'
      → IsCounted (without b fp) (record { table = t'; held = remove fp s.held })
  Removed-IsCounted b fp t' i one h r =
      let last : In fp (remove fp s.held) → ⊥ = λ j.
        omega
          (arith, one, references-remove fp s.held h, references-remove fp (remove fp s.held) j) in
      record {
        chain = λ c. elim (same_or c b) [
          | inl e ↦
              subst (λ z. Chain t'.foos (t'.fh z) (without b fp z)) (sym e)
                (subst (Chain t'.foos (t'.fh b)) (sym (put_same chains b (remove fp (chains b))))
                  r.chain)
          | inr n ↦
              subst (Chain t'.foos (t'.fh c)) (sym (put_other chains b c (remove fp (chains b)) n))
                (subst (λ a. Chain t'.foos a (chains c)) (sym (r.fh_other c n))
                  (Chain-same t.foos t'.foos (t.fh c) (chains c)
                    (λ y j. r.next_other y (λ j'. n (sym (k.home c y j) ∙ k.home b y j')))
                    (k.chain c)))
        ];
        home = λ c x j. ap hash (r.ids x) ∙ k.home c x (In-without b fp c x j);
        once = λ c. elim (same_or c b) [
          | inl e ↦
              subst (λ z. Once (without b fp z)) (sym e)
                (subst Once (sym (put_same chains b (remove fp (chains b))))
                  (Once-remove fp (chains b) (k.once b)).0)
          | inr n ↦ subst Once (sym (put_other chains b c (remove fp (chains b)) n)) (k.once c)
        ];
        count = λ c x j.
            let n = without-gone b fp c x i j in
            r.counts x n
            ∙ k.count c x (In-without b fp c x j)
            ∙ sym (references-remove_other fp x s.held n);
        positive = λ c x j.
            let n = without-gone b fp c x i j in
            subst (λ w. 0 < w) (sym (r.counts x n)) (k.positive c x (In-without b fp c x j));
        live = λ x j.
            subst (λ z. In x (without b fp z)) (sym (ap hash (r.ids x)))
              (without-In b fp (hash (t.foos x).f_id) x (k.live x (In-remove fp x s.held j))
                (λ e. last (subst (λ z. In z (remove fp s.held)) e j)));
      }

  -- Not the last reference.
  fewer-IsCounted :
      (b fp : ℕ)
      → In fp (chains b)
      → In fp s.held
      → length s.held ≤ int_max
      → ((count_down (t.foos fp)).f_count == 0) ≡ false
      → IsCounted chains
          (record { table = set_foo fp (count_down (t.foos fp)) t; held = remove fp s.held })
  fewer-IsCounted b fp i h few ne =
      let v = count_down (t.foos fp) in
      let id : (x : ℕ) → (put t.foos fp v x).f_id ≡ (t.foos x).f_id =
        λ x. put-field (λ w. w.f_id) t.foos fp v x refl in
      record {
        chain = λ c.
            Chain-same t.foos (put t.foos fp v) (t.fh c) (chains c)
              (λ y j. put-field (λ w. w.f_next) t.foos fp v y refl) (k.chain c);
        home = λ c x j. ap hash (id x) ∙ k.home c x j;
        once = k.once;
        count = λ c x j. elim (same_or x fp) [
          | inl e ↦
              ap (λ z. (put t.foos fp v z).f_count) e
              ∙ ap (λ w. w.f_count) (put_same t.foos fp v)
              ∙ one_less (references-remove fp s.held h) (k.count b fp i) (references-le fp s.held)
              ∙ ap (λ z. references z (remove fp s.held)) (sym e)
          | inr n ↦
              ap (λ w. w.f_count) (put_other t.foos fp x v n)
              ∙ k.count c x j
              ∙ sym (references-remove_other fp x s.held n)
        ];
        positive = λ c x j. elim (same_or x fp) [
          | inl e ↦
              subst (λ w. 0 < w.f_count) (sym (ap (put t.foos fp v) e ∙ put_same t.foos fp v))
                (more_left ne)
          | inr n ↦ subst (λ w. 0 < w.f_count) (sym (put_other t.foos fp x v n)) (k.positive c x j)
        ];
        live = λ x j.
            subst (λ z. In x (chains z)) (sym (ap hash (id x)))
              (k.live x (In-remove fp x s.held j));
      }
    where
      one_less :
          {m n r : ℕ} → r ≡ suc n → m ≡ r → r ≤ length s.held → (m + 4294967295) % 4294967296 ≡ n
      one_less p q l = omega (arith, few, p, q, l)

      more_left : {n : ℕ} → (n == 0) ≡ false → 0 < n
      more_left p = ground arith

  abbrev counted : ℕ → Table
  counted fp = set_foo fp (count_down (t.foos fp)) t

  front-Chain :
      (fp a : ℕ) (xs : List ℕ)
      → Chain t.foos a xs
      → In fp xs
      → a ≡ fp
      → Chain (counted fp).foos (t.foos fp).f_next (remove fp xs)
  front-Chain fp a [] c i q = absurd i
  front-Chain fp a (x ∷ xs) c i q =
      let v = count_down (t.foos fp) in
      let e : x ≡ fp = sym c.0 ∙ q in
      subst (Chain (counted fp).foos (t.foos fp).f_next) (sym (remove_first fp x xs e)) (
        Chain-same t.foos (counted fp).foos (t.foos fp).f_next xs
          (λ y j. put-field (λ w. w.f_next) t.foos fp v y refl)
          (subst (λ z. Chain t.foos (t.foos z).f_next xs) e c.2))

  at_front :
      (b fp : ℕ)
      → In fp (chains b)
      → t.fh b ≡ fp
      → Removed chains b fp t (record (counted fp) { fh = put t.fh b (t.foos fp).f_next })
  at_front b fp i q =
      let v = count_down (t.foos fp) in
      record {
        chain =
            subst (λ a. Chain (counted fp).foos a (remove fp (chains b)))
              (sym (put_same t.fh b (t.foos fp).f_next))
              (front-Chain fp (t.fh b) (chains b) (k.chain b) i q);
        fh_other = λ c n. put_other t.fh b c (t.foos fp).f_next n;
        next_other = λ y n. put-field (λ w. w.f_next) t.foos fp v y refl;
        counts = λ y n. ap (λ w. w.f_count) (put_other t.foos fp y v n);
        ids = λ y. put-field (λ w. w.f_id) t.foos fp v y refl;
      }

  -- A released table that is well counted, with no more references, from a call that is defined.
  pub data Releases (fp b : ℕ) : Option Shared → Type 0 where
    kept :
        (s' : Shared)
        → IsCounted chains s'
        → length s'.held ≤ length s.held
        → Releases fp b (some s')
    gone :
        (s' : Shared)
        → IsCounted (without b fp) s'
        → length s'.held ≤ length s.held
        → Releases fp b (some s')

  behind :
      (b fp : ℕ) (r : Option Table)
      → In fp (chains b)
      → references fp s.held ≡ 1
      → In fp s.held
      → Unlinks fp (t.fh b) (chains b) (counted fp) r
      → Releases fp b (released fp s.held r)
  behind b fp r i one h (unlinks t' u) =
      let v = count_down (t.foos fp) in
      gone _
        (Removed-IsCounted b fp t' i one h (record {
          chain = subst (λ z. Chain t'.foos (z b) (remove fp (chains b))) (sym u.same_fh) u.chain;
          fh_other = λ c n. ap (λ z. z c) u.same_fh;
          next_other = λ y n.
              ap (λ w. w.f_next) (u.others y n) ∙ put-field (λ w. w.f_next) t.foos fp v y refl;
          counts = λ y n. u.counts y ∙ ap (λ w. w.f_count) (put_other t.foos fp y v n);
          ids = λ y. u.ids y ∙ put-field (λ w. w.f_id) t.foos fp v y refl;
        }))
        (length-remove fp s.held)

  pub rele-Releases :
      (rounds fp : ℕ)
      → In fp s.held
      → ((c : ℕ) → length (chains c) < rounds)
      → length s.held ≤ int_max
      → Releases fp (hash (t.foos fp).f_id) (released fp s.held (foo_rele rounds fp t))
  unfolding foo_rele
  rele-Releases rounds fp h short few =
      let b = hash (t.foos fp).f_id in
      let i = k.live fp h in
      let v = count_down (t.foos fp) in
      elim (Bool-cases ((count_down (t.foos fp)).f_count == 0)) [
        | inr e ↦ rw e (kept _ (fewer-IsCounted b fp i h few e) (length-remove fp s.held))
        | inl e ↦
            let one =
              last_one (k.count b fp i) (k.positive b fp i) (references-le fp s.held) few e in
            elim (Bool-cases (t.fh b == fp)) [
              | inl q ↦
                  rw (e, q)
                    (gone _
                      (Removed-IsCounted b fp _ i one h
                        (at_front b fp i ((==_iff (t.fh b) fp).0 q)))
                      (length-remove fp s.held))
              | inr q ↦
                  rw (e, q)
                    (behind b fp (unlink_loop rounds fp (t.fh b) (counted fp)) i one h (
                      unlink_loop-Unlinks rounds fp (t.fh b) (chains b) (counted fp)
                        (Chain-same t.foos (counted fp).foos (t.fh b) (chains b)
                          (λ y j. put-field (λ w. w.f_next) t.foos fp v y refl) (k.chain b))
                        (k.once b) i (λ z. let w = (==_iff (t.fh b) fp).1 z in absurd cc)
                        (omega (arith, short b))))
            ]
      ]
