-- ===== src/FooTable/Calls.antt =====
-- Runs of calls on the table of objects.
use apue_learning.Common.{
  In, ℕ, ℤ, suc, ◌≤◌, ◌<◌, ◌≡◌, refl, ap, ◌∙◌, sym, subst, List, [], ◌∷◌, Option, some, ◌⊎◌, inl,
  inr, ◌==◌, arith, length, Bool-cases,
}
use apue_learning.FooTable.{Foo, Table, hash, foo_alloc, foo_find}
use apue_learning.FooTable.Chains.{
  Chain, put_other, put_same, search, Hit, search-Hit, held_if, find_loop-search,
}
use apue_learning.FooTable.Unlink.{remove, length-remove}
use apue_learning.FooTable.Counted.{
  int_max, references, Shared, Call, alloc, hold, find, rele, found_held, perform, IsCounted,
  references_some,
}
use apue_learning.FooTable.Hold.{same_or, hold-IsCounted}
use apue_learning.FooTable.Release.{without, Releases, kept, gone, rele-Releases}
use apue_learning.FooTable.Alloc.{with_new, alloc-IsCounted}

-- An object of a chain of the table.
pub data Member (x : ℕ) (t : Table) : Type 0 where
  member : (b : ℕ) (xs : List ℕ) → Chain t.foos (t.fh b) xs → In x xs → Member x t

-- The calls that a correct program makes: `malloc` gives an address that no object of the table has, and a
-- reference that is copied or released is one that is held.
pub data Allowed (s : Shared) : Call → Type 0 where
  allowed_alloc : (fp err : ℕ) (id : ℤ) → (Member fp s.table → ⊥) → Allowed s (alloc fp err id)
  allowed_find : (id : ℤ) → Allowed s (find id)
  allowed_hold : (fp : ℕ) → In fp s.held → Allowed s (hold fp)
  allowed_rele : (fp : ℕ) → In fp s.held → Allowed s (rele fp)

abbrev pub empty_table : (ℕ → Foo) → Shared
empty_table foos = record { table = record { fh = λ b. 0; foos = foos }; held = [] }

-- The states after `n` calls.
pub data Reachable (rounds : ℕ) : ℕ → Shared → Type 0 where
  start : (foos : ℕ → Foo) → Reachable rounds 0 (empty_table foos)
  step :
      (n : ℕ) (call : Call) (s s' : Shared)
      → Reachable rounds n s
      → Allowed s call
      → perform rounds call s ≡ some s'
      → Reachable rounds (suc n) s'

-- A well-counted state with chains of at most `n` objects and at most `n` references.
data WellCounted (n : ℕ) : Option Shared → Type 0 where
  counts :
      (chains : ℕ → List ℕ) (s : Shared)
      → IsCounted chains s
      → ((c : ℕ) → length (chains c) ≤ n)
      → length s.held ≤ n
      → WellCounted n (some s)

module _ (n rounds : ℕ) (chains : ℕ → List ℕ) (s : Shared) (k : IsCounted chains s)
    (short : (c : ℕ) → length (chains c) ≤ n) (many : length s.held ≤ n) where
  unchanged : WellCounted (suc n) (some s)
  unchanged = counts chains s k (λ c. omega (arith, short c)) (omega (arith, many))

  alloc-WellCounted :
      (fp err : ℕ) (id : ℤ)
      → (Member fp s.table → ⊥)
      → WellCounted (suc n) (perform rounds (alloc fp err id) s)
  unfolding perform foo_alloc
  alloc-WellCounted fp err id new = elim (Bool-cases (fp == 0)) [
    | inl e ↦ rw e unchanged
    | inr e ↦ elim (Bool-cases (err == 0)) [
      | inr q ↦ rw (e, q) unchanged
      | inl q ↦
          rw (e, q, e)
            (counts (with_new chains s k fp id) _
              (alloc-IsCounted chains s k fp id (ground arith)
                (λ c i. new (member c (chains c) (k.chain c) i)))
              (λ c. elim (same_or c (hash id)) [
                | inl z ↦
                    subst (λ l. length l ≤ suc n)
                      (sym (
                        ap (with_new chains s k fp id) z
                        ∙ put_same chains (hash id) (fp ∷ chains (hash id))))
                      (omega (arith, short (hash id)))
                | inr z ↦
                    subst (λ l. length l ≤ suc n)
                      (sym (put_other chains (hash id) c (fp ∷ chains (hash id)) z))
                      (omega (arith, short c))
              ])
              (omega (arith, many)))
    ]
  ]

  hold-WellCounted :
      (b fp : ℕ) → In fp (chains b) → n < int_max → WellCounted (suc n) (perform rounds (hold fp) s)
  unfolding perform
  hold-WellCounted b fp i few =
      counts chains _ (hold-IsCounted chains s k b fp i (omega (arith, few, many)))
        (λ c. omega (arith, short c)) (omega (arith, many))

  found :
      (b fp : ℕ)
      → (fp ≡ 0) ⊎ In fp (chains b)
      → n < int_max
      → WellCounted (suc n) (found_held s.held (some (held_if fp s.table)))
  found b fp h few = elim (Bool-cases (fp == 0)) [
    | inl e ↦ rw e unchanged
    | inr e ↦ elim h [
      | inl z ↦ absurd (ground arith)
      | inr i ↦
          rw (e, e)
            (counts chains _ (hold-IsCounted chains s k b fp i (omega (arith, few, many)))
              (λ c. omega (arith, short c)) (omega (arith, many)))
    ]
  ]

  Hit-place :
      (b : ℕ) (id : ℤ) (z : ℕ) → Hit s.table.foos id (chains b) z → (z ≡ 0) ⊎ In z (chains b)
  Hit-place b id z (inl e) = inl e
  Hit-place b id z (inr h) = inr h.0

  find-WellCounted :
      (id : ℤ) → n < rounds → n < int_max → WellCounted (suc n) (perform rounds (find id) s)
  unfolding perform foo_find
  find-WellCounted id lt few =
      let b = hash id in
      rw
        (find_loop-search rounds id (s.table.fh b) (chains b) s.table (k.chain b)
          (omega (arith, short b)))
        (found b (search s.table.foos id (chains b))
          (Hit-place b id (search s.table.foos id (chains b))
            (search-Hit s.table.foos id (chains b)))
          few)

  rele_result : (fp b : ℕ) (r : Option Shared) → Releases chains s k fp b r → WellCounted (suc n) r
  rele_result fp b r (kept s' k' le) =
      counts chains s' k' (λ c. omega (arith, short c)) (omega (arith, le, many))
  rele_result fp b r (gone s' k' le) =
      counts (without chains s k b fp) s' k'
        (λ c. elim (same_or c b) [
          | inl z ↦
              subst (λ l. length l ≤ suc n)
                (sym (ap (without chains s k b fp) z ∙ put_same chains b (remove fp (chains b))))
                (omega (arith, short b, length-remove fp (chains b)))
          | inr z ↦
              subst (λ l. length l ≤ suc n) (sym (put_other chains b c (remove fp (chains b)) z))
                (omega (arith, short c))
        ])
        (omega (arith, le, many))

  rele-WellCounted :
      (fp : ℕ)
      → In fp s.held
      → n < rounds
      → n < int_max
      → WellCounted (suc n) (perform rounds (rele fp) s)
  unfolding perform
  rele-WellCounted fp h lt few = rele_result fp _ _ (
      rele-Releases chains s k rounds fp h (λ c. omega (arith, short c)) (omega (arith, few, many)))

perform-WellCounted :
    (n rounds : ℕ) (call : Call) (s : Shared)
    → n < rounds
    → n < int_max
    → Allowed s call
    → WellCounted n (some s)
    → WellCounted (suc n) (perform rounds call s)
perform-WellCounted n rounds _ s lt few (allowed_alloc fp err id new) (counts chains _ k l m) =
    alloc-WellCounted n rounds chains s k l m fp err id new
perform-WellCounted n rounds _ s lt few (allowed_find id) (counts chains _ k l m) =
    find-WellCounted n rounds chains s k l m id lt few
perform-WellCounted n rounds _ s lt few (allowed_hold fp h) (counts chains _ k l m) =
    hold-WellCounted n rounds chains s k l m _ fp (k.live fp h) few
perform-WellCounted n rounds _ s lt few (allowed_rele fp h) (counts chains _ k l m) =
    rele-WellCounted n rounds chains s k l m fp h lt few

empty-WellCounted : (foos : ℕ → Foo) → WellCounted 0 (some (empty_table foos))
empty-WellCounted foos =
    counts (λ c. []) _
      (record {
        chain = λ c. refl;
        home = λ c x i. absurd i;
        once = λ c. tt;
        count = λ c x i. absurd i;
        positive = λ c x i. absurd i;
        live = λ x i. absurd i;
      })
      (λ c. omega arith) (omega arith)

reachable-WellCounted :
    (rounds n : ℕ) (s : Shared)
    → Reachable rounds n s
    → n ≤ rounds
    → n ≤ int_max
    → WellCounted n (some s)
reachable-WellCounted rounds _ _ (start foos) h few = empty-WellCounted foos
reachable-WellCounted rounds _ _ (step n call s s' r ok e) h few = subst (WellCounted (suc n)) e (
    perform-WellCounted n rounds call s (omega arith) (omega (arith, few)) ok
      (reachable-WellCounted rounds n s r (omega arith) (omega (arith, few))))

-- Two chains from the same pointer have the same objects.
Chain-In :
    (foos : ℕ → Foo) (a p : ℕ) (xs ys : List ℕ)
    → Chain foos a xs
    → Chain foos a ys
    → In p xs
    → In p ys
Chain-In foos a p [] ys c d i = absurd i
Chain-In foos a p (x ∷ xs) [] c d i = absurd (omega (arith, c.0, d, c.1))
Chain-In foos a p (x ∷ xs) (y ∷ ys) c d (inl e) = inl (e ∙ sym c.0 ∙ d.0)
Chain-In foos a p (x ∷ xs) (y ∷ ys) c d (inr i) = inr (
    Chain-In foos (foos x).f_next p xs ys c.2
      (subst (λ z. Chain foos (foos z).f_next ys) (sym d.0 ∙ c.0) d.2) i)

-- A call that is defined.
pub data Returns : Option Shared → Type 0 where
  returns : (s : Shared) → Returns (some s)

counted_object :
    (n fp : ℕ) (s : Shared)
    → WellCounted n (some s)
    → In fp s.held ⊎ Member fp s.table
    → Member fp s.table × In fp s.held × ((s.table.foos fp).f_count ≡ references fp s.held)
counted_object n fp s (counts chains _ k l m) (inl h) =
    let i = k.live fp h in (member _ (chains _) (k.chain _) i, h, k.count _ fp i)
counted_object n fp s (counts chains _ k l m) (inr (member b xs c j)) =
    let i = Chain-In s.table.foos (s.table.fh b) fp xs (chains b) c (k.chain b) j in
    (
      member b xs c j,
      references_some fp s.held (subst (λ m. 0 < m) (k.count b fp i) (k.positive b fp i)),
      k.count b fp i,
    )

defined_call : (n : ℕ) (r : Option Shared) → WellCounted n r → Returns r
defined_call n _ (counts chains s k l m) = returns s

-- After `n` calls on the empty table, each allowed when it was made, with `n` less than INT_MAX and than the
-- rounds for the loops, an object is in the table if and only if a thread holds a reference to it, its count
-- is the number of the references, and a further allowed call does not follow a null pointer and ends.
pub reachable_object :
    (rounds n : ℕ) (s : Shared) (call : Call) (fp : ℕ)
    → Reachable rounds n s
    → n < rounds
    → n < int_max
    → Allowed s call
    → In fp s.held ⊎ Member fp s.table
    → (Member fp s.table × In fp s.held × ((s.table.foos fp).f_count ≡ references fp s.held))
      × Returns (perform rounds call s)
reachable_object rounds n s call fp r lt few ok i =
    let k = reachable-WellCounted rounds n s r (omega arith) (omega (arith, few)) in
    (
      counted_object n fp s k i,
      defined_call (suc n) (perform rounds call s)
          (perform-WellCounted n rounds call s lt few ok k),
    )
