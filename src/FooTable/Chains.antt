-- ===== src/FooTable/Chains.antt =====
-- The chains of the table of objects, as lists of addresses.
use apue_learning.Common.{
  In, ℕ, ℤ, zero, suc, ◌<◌, ◌≡◌, refl, sym, subst, Bool, true, false, List, [], ◌∷◌, some, ◌⊎◌, inl,
  inr, ◌==◌, ==_refl, ==_iff, if◌then◌else◌, arith, length, Bool-cases,
}
use apue_learning.FooTable.{Foo, Table, put, same_id, foo_hold, find_loop}

-- The objects that the pointer `a` leads to.
abbrev pub Chain : (ℕ → Foo) → ℕ → List ℕ → Type 0
Chain foos a [] = a ≡ 0
Chain foos a (x ∷ xs) = (a ≡ x) × (0 < x) × Chain foos (foos x).f_next xs

pub put_other {ℓ} : {A : Type ℓ} (f : ℕ → A) (a b : ℕ) (v : A) → (b ≡ a → ⊥) → put f a v b ≡ f b
put_other f a b v n = elim (Bool-cases (a == b)) [
  | inl e ↦ absurd (n (sym ((==_iff a b).0 e)))
  | inr e ↦ rw e refl
]

pub put_same {ℓ} : {A : Type ℓ} (f : ℕ → A) (a : ℕ) (v : A) → put f a v a ≡ v
put_same f a v = rw (==_refl a) refl

-- A chain does not change with objects that are not in it.
pub Chain-same :
    (foos foos' : ℕ → Foo) (a : ℕ) (xs : List ℕ)
    → ((y : ℕ) → In y xs → (foos' y).f_next ≡ (foos y).f_next)
    → Chain foos a xs
    → Chain foos' a xs
Chain-same foos foos' a [] h c = c
Chain-same foos foos' a (x ∷ xs) h c = (
  c.0,
  c.1,
  Chain-same foos foos' (foos' x).f_next xs (λ y i. h y (inr i))
      (subst (λ z. Chain foos z xs) (sym (h x (inl refl))) c.2),
)

-- What `foo_find` gives: the first object of the chain with the id, or NULL.
unfoldable pub search : (ℕ → Foo) → ℤ → List ℕ → ℕ
search foos id [] = 0
search foos id (x ∷ xs) =
    let rest = search foos id xs in if same_id (foos x).f_id id then x else rest

-- An object of a chain that has the id, or NULL.
abbrev pub Hit : (ℕ → Foo) → ℤ → List ℕ → ℕ → Type 0
Hit foos id xs z = (z ≡ 0) ⊎ (In z xs × (same_id (foos z).f_id id ≡ true))

Hit-cons :
    (foos : ℕ → Foo) (id : ℤ) (x : ℕ) (xs : List ℕ) (z : ℕ) (b : Bool)
    → same_id (foos x).f_id id ≡ b
    → Hit foos id xs z
    → Hit foos id (x ∷ xs) (if b then x else z)
Hit-cons foos id x xs z true q h = inr (inl refl, q)
Hit-cons foos id x xs z false q (inl h) = inl h
Hit-cons foos id x xs z false q (inr h) = inr (inr h.0, h.1)

pub search-Hit : (foos : ℕ → Foo) (id : ℤ) (xs : List ℕ) → Hit foos id xs (search foos id xs)
unfolding search
search-Hit foos id [] = inl refl
search-Hit foos id (x ∷ xs) =
    Hit-cons foos id x xs (search foos id xs) (same_id (foos x).f_id id) refl
      (search-Hit foos id xs)

abbrev pub held_if : ℕ → Table → ℕ × Table
held_if x t = if x == 0 then (0, t) else (x, foo_hold x t)

pub find_loop-search :
    (f : ℕ) (id : ℤ) (a : ℕ) (xs : List ℕ) (t : Table)
    → Chain t.foos a xs
    → length xs < f
    → find_loop f id a t ≡ some (held_if (search t.foos id xs) t)
unfolding find_loop search
find_loop-search zero id a xs t c h = absurd (omega arith)
find_loop-search (suc f) id a [] t c h = rw c refl
find_loop-search (suc f) id a (x ∷ xs) t c h =
    let nz : (x == 0) ≡ false = ground (arith, c.1) in
    rw (c.0, nz)
      (elim (Bool-cases (same_id (t.foos x).f_id id)) [
        | inl e ↦ rw (e, nz) refl
        | inr e ↦ rw e (find_loop-search f id (t.foos x).f_next xs t c.2 (omega arith))
      ])
