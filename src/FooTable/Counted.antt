-- ===== src/FooTable/Counted.antt =====
-- The references that the threads hold, and the table's counts of them.
use apue_learning.Common.{
  In, Once, ℕ, ℤ, suc, ◌≤◌, length, ◌<◌, ◌≡◌, refl, ap, ◌∙◌, sym, List, [], ◌∷◌, Option, none, some,
  inl, inr, ◌==◌, ==_refl, ==_iff, if◌then◌else◌, arith, Bool-cases,
}
use apue_learning.FooTable.{Table, hash, foo_alloc, foo_hold, foo_find, foo_rele}
use apue_learning.FooTable.Chains.{Chain}
use apue_learning.FooTable.Unlink.{remove}

-- How many of the references are to an object.
unfoldable pub references : ℕ → List ℕ → ℕ
references p [] = 0
references p (r ∷ rs) = let rest = references p rs in if r == p then suc rest else rest

-- The table and the references that threads hold to its objects.
pub record Shared : Type 0 where
  pub table : Table
  pub held : List ℕ

-- What a thread does: `malloc` gives an address that no object has, or NULL; `foo_hold` and `foo_rele` are
-- called with a reference that a thread holds.
pub data Call : Type 0 where
  alloc : (fp err : ℕ) → ℤ → Call
  hold : ℕ → Call
  find : ℤ → Call
  rele : ℕ → Call

abbrev pub gained : ℕ → Table → List ℕ → Shared
gained fp t held = record { table = t; held = if fp == 0 then held else fp ∷ held }

abbrev pub found_held : List ℕ → Option (ℕ × Table) → Option Shared
found_held held none = none
found_held held (some (fp, t)) = some (gained fp t held)

abbrev pub released : ℕ → List ℕ → Option Table → Option Shared
released fp held none = none
released fp held (some t) = some (record { table = t; held = remove fp held })

-- A call, with `rounds` for its loop; `none` is a null pointer followed, or a loop that goes on.
unfoldable pub perform : ℕ → Call → Shared → Option Shared
unfolding foo_alloc foo_hold foo_find foo_rele remove
perform rounds (alloc fp err id) s =
    let r = foo_alloc fp err id s.table in some (gained r.0 r.1 s.held)
perform rounds (hold fp) s = some (record { table = foo_hold fp s.table; held = fp ∷ s.held })
perform rounds (find id) s = found_held s.held (foo_find rounds id s.table)
perform rounds (rele fp) s = released fp s.held (foo_rele rounds fp s.table)

-- The chains of the table: each object is in the chain of its id, once, and its count is the number of
-- references to it, at least one; and every reference is to an object of the table.
pub record IsCounted (chains : ℕ → List ℕ) (s : Shared) : Type 0 where
  pub chain : (b : ℕ) → Chain s.table.foos (s.table.fh b) (chains b)
  pub home : (b x : ℕ) → In x (chains b) → hash (s.table.foos x).f_id ≡ b
  pub once : (b : ℕ) → Once (chains b)
  pub count : (b x : ℕ) → In x (chains b) → (s.table.foos x).f_count ≡ references x s.held
  pub positive : (b x : ℕ) → In x (chains b) → 0 < (s.table.foos x).f_count
  pub live : (x : ℕ) → In x s.held → In x (chains (hash (s.table.foos x).f_id))

-- INT_MAX
abbrev pub int_max : ℕ
int_max = 2147483647

pub references-le : (p : ℕ) (rs : List ℕ) → references p rs ≤ length rs
unfolding references
references-le p [] = omega arith
references-le p (r ∷ rs) = elim (Bool-cases (r == p)) [
  | inl e ↦ rw e (omega (arith, references-le p rs))
  | inr e ↦ rw e (omega (arith, references-le p rs))
]

pub references_none : (p : ℕ) (rs : List ℕ) → (In p rs → ⊥) → references p rs ≡ 0
unfolding references
references_none p [] n = refl
references_none p (r ∷ rs) n = elim (Bool-cases (r == p)) [
  | inl e ↦ absurd (n (inl (sym ((==_iff r p).0 e))))
  | inr e ↦ rw e (references_none p rs (λ k. n (inr k)))
]

pub references_some : (p : ℕ) (rs : List ℕ) → 0 < references p rs → In p rs
unfolding references
references_some p [] h = absurd (omega arith)
references_some p (r ∷ rs) h = elim (Bool-cases (r == p)) [
  | inl e ↦ inl (sym ((==_iff r p).0 e))
  | inr e ↦ inr (references_some p rs (ground (arith, e, h)))
]

pub references-remove :
    (p : ℕ) (rs : List ℕ) → In p rs → references p rs ≡ suc (references p (remove p rs))
unfolding references remove
references-remove p [] i = absurd i
references-remove p (r ∷ rs) i = elim (Bool-cases (r == p)) [
  | inl e ↦ rw e refl
  | inr e ↦ elim i [
    | inl q ↦ absurd (let z = (==_iff r p).1 (sym q) in cc)
    | inr j ↦ rw e (rw e (references-remove p rs j))
  ]
]

pub references-remove_other :
    (p q : ℕ) (rs : List ℕ) → (q ≡ p → ⊥) → references q (remove p rs) ≡ references q rs
unfolding references remove
references-remove_other p q [] n = refl
references-remove_other p q (r ∷ rs) n = elim (Bool-cases (r == p)) [
  | inl e ↦ elim (Bool-cases (r == q)) [
    | inl e' ↦ absurd (n (sym ((==_iff r q).0 e') ∙ (==_iff r p).0 e))
    | inr e' ↦ rw (e, e') refl
  ]
  | inr e ↦ elim (Bool-cases (r == q)) [
    | inl e' ↦ rw e (rw e' (ap suc (references-remove_other p q rs n)))
    | inr e' ↦ rw e (rw e' (references-remove_other p q rs n))
  ]
]

pub references-cons_other :
    (p q : ℕ) (rs : List ℕ) → (q ≡ p → ⊥) → references q (p ∷ rs) ≡ references q rs
unfolding references
references-cons_other p q rs n = elim (Bool-cases (p == q)) [
  | inl e ↦ absurd (n (sym ((==_iff p q).0 e)))
  | inr e ↦ rw e refl
]

pub references-cons : (p : ℕ) (rs : List ℕ) → references p (p ∷ rs) ≡ suc (references p rs)
unfolding references
references-cons p rs = rw (==_refl p) refl
