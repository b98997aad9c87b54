-- ===== src/FooTable.antt =====
-- The reference-counted objects of threads/mutex3.c, in a hash table under one lock. Each function
-- holds `hashlock` while it touches the table, so that a call is one step; an address 0 is NULL.
pub mod Chains
pub mod Unlink
pub mod Counted
pub mod Hold
pub mod Release
pub mod Alloc
pub mod Calls
mod Tests
use apue_learning.Common.{
  ℕ, zero, suc, ◌+◌, ◌-◌, ◌%◌, ◌^◌, Bool, true, false, Option, none, some, ℤ, pos, negsuc, ◌==◌,
  if◌then◌else◌,
}

abbrev pub nhash : ℕ
nhash = 29

-- `struct foo`, but for its own lock. `f_count` holds the 32 bits of the `int`: where C leaves an overflow
-- undefined, it wraps around.
pub record Foo : Type 0 where
  pub f_count : ℕ
  pub f_id : ℤ
  pub f_next : ℕ

pub record Table : Type 0 where
  pub fh : ℕ → ℕ
  pub foos : ℕ → Foo

-- `(unsigned long)id % NHASH`
unfoldable pub hash : ℤ → ℕ
hash (pos n) = n % nhash
hash (negsuc n) = (2 ^ 64 - 1 - n) % nhash

unfoldable pub same_id : ℤ → ℤ → Bool
same_id (pos m) (pos n) = m == n
same_id (negsuc m) (negsuc n) = m == n
same_id _ _ = false

abbrev pub put {ℓ} : {A : Type ℓ} → (ℕ → A) → ℕ → A → ℕ → A
put f a v b = if a == b then v else f b

abbrev pub set_foo : ℕ → Foo → Table → Table
set_foo fp foo t = record t { foos = put t.foos fp foo }

-- `foo_alloc`: `fp` is what `malloc` returns and `err` what `pthread_mutex_init` returns.
unfoldable pub foo_alloc : (fp err : ℕ) → ℤ → Table → ℕ × Table
unfolding hash
foo_alloc fp err id t =
    let idx = hash id in
    let linked = set_foo fp (record { f_count = 1; f_id = id; f_next = t.fh idx }) t in
    if fp == 0
    then (0, t)
    else if err == 0
    then (fp, record linked { fh = put t.fh idx fp })
    else (0, t)

abbrev pub count_up : Foo → Foo
count_up foo = record foo { f_count = (foo.f_count + 1) % 4294967296 }

abbrev pub count_down : Foo → Foo
count_down foo = record foo { f_count = (foo.f_count + 4294967295) % 4294967296 }

unfoldable pub foo_hold : ℕ → Table → Table
foo_hold fp t = set_foo fp (count_up (t.foos fp)) t

-- The loop of `foo_find`; `none` if the rounds are used up.
unfoldable pub find_loop : ℕ → ℤ → ℕ → Table → Option (ℕ × Table)
unfolding same_id foo_hold
find_loop zero id fp t = none
find_loop (suc f) id fp t =
    let rest = find_loop f id (t.foos fp).f_next t in
    if fp == 0
    then some (0, t)
    else if same_id (t.foos fp).f_id id
    then some (fp, foo_hold fp t)
    else rest

unfoldable pub foo_find : ℕ → ℤ → Table → Option (ℕ × Table)
unfolding find_loop hash
foo_find rounds id t = find_loop rounds id (t.fh (hash id)) t

-- `while (tfp->f_next != fp) tfp = tfp->f_next`, and the removal of `fp` behind it; `none` if a null
-- pointer would be followed or the rounds are used up.
unfoldable pub unlink_loop : ℕ → ℕ → ℕ → Table → Option Table
unlink_loop zero fp tfp t = none
unlink_loop (suc f) fp tfp t =
    let rest = unlink_loop f fp (t.foos tfp).f_next t in
    if tfp == 0
    then none
    else if (t.foos tfp).f_next == fp
    then some (set_foo tfp (record (t.foos tfp) { f_next = (t.foos fp).f_next }) t)
    else rest

-- `foo_rele`
unfoldable pub foo_rele : ℕ → ℕ → Table → Option Table
unfolding unlink_loop hash
foo_rele rounds fp t =
    let foo = t.foos fp in
    let counted = set_foo fp (count_down foo) t in
    let idx = hash foo.f_id in
    if (count_down foo).f_count == 0
    then (if t.fh idx == fp
        then some (record counted { fh = put t.fh idx foo.f_next })
        else unlink_loop rounds fp (t.fh idx) counted)
    else some counted
