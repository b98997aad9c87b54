-- ===== src/FooTable/Tests.antt =====
-- Runs of the table of objects of threads/mutex3.c.
use apue_learning.Common.{In, ℕ, pos, ◌≡◌, refl, List, [], ◌∷◌, Option, none, some, inl, arith}
use apue_learning.FooTable.{Foo, hash, put}
use apue_learning.FooTable.Counted.{references, Shared, Call, alloc, find, rele, perform}
use apue_learning.FooTable.Calls.{
  Member, member, allowed_alloc, allowed_rele, start, step, empty_table, Returns, reachable_object,
}

abbrev no_foo : ℕ → Foo
no_foo p = record { f_count = 0; f_id = pos 0; f_next = 0 }

abbrev run_calls : List Call → Option Shared → Option Shared
run_calls [] r = r
run_calls (c ∷ cs) none = none
run_calls (c ∷ cs) (some s) = run_calls cs (perform 9 c s)

abbrev held_of : Option Shared → Option (List ℕ)
held_of none = none
held_of (some s) = some s.held

abbrev counts_of : ℕ → Option Shared → Option (ℕ × ℕ)
counts_of p none = none
counts_of p (some s) = some ((s.table.foos p).f_count, s.table.fh 3)

-- Objects 32 and 3 share chain 3; the one behind is found by its id, and released twice.
released_behind :
    counts_of 5 (
      run_calls
        (alloc 5 0 (pos 3) ∷ alloc 6 0 (pos 32) ∷ find (pos 3) ∷ [])
        (some (empty_table no_foo)))
    ≡ some (2, 6)
unfolding perform
released_behind = refl

released_twice :
    held_of (
      run_calls
        (alloc 5 0 (pos 3)
          ∷ alloc 6 0 (pos 32)
          ∷ find (pos 3)
          ∷ rele 5
          ∷ rele 5
          ∷ find (pos 3)
          ∷ [])
        (some (empty_table no_foo)))
    ≡ some (6 ∷ [])
unfolding perform
released_twice = refl

-- The lock of the object is not made.
no_mutex : held_of (run_calls (alloc 5 12 (pos 3) ∷ []) (some (empty_table no_foo))) ≡ some []
unfolding perform
no_mutex = refl

abbrev not_there : Member 5 (empty_table no_foo).table → ⊥
not_there (member b [] c i) = absurd i
not_there (member b (x ∷ xs) c i) = absurd (omega (arith, c.0, c.1))

abbrev allocated : Shared
allocated = record {
  table = record {
    fh = put (λ b. 0) 3 5;
    foos = put no_foo 5 (record { f_count = 1; f_id = pos 3; f_next = 0 });
  };
  held = 5 ∷ [];
}

alloc_done : perform 9 (alloc 5 0 (pos 3)) (empty_table no_foo) ≡ some allocated
unfolding perform hash
alloc_done = refl

reachable_object_example :
    (Member 5 allocated.table
      × In 5 allocated.held
      × ((allocated.table.foos 5).f_count ≡ references 5 allocated.held))
    × Returns (perform 9 (rele 5) allocated)
reachable_object_example =
    reachable_object 9 1 allocated (rele 5) 5
      (step 0 (alloc 5 0 (pos 3)) (empty_table no_foo) allocated (start no_foo)
        (allowed_alloc 5 0 (pos 3) not_there) alloc_done)
      (omega arith) (omega arith) (allowed_rele 5 (inl refl)) (inl (inl refl))
