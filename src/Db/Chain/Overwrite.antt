-- ===== src/Db/Chain/Overwrite.antt =====
-- A chain in which the data of one record are overwritten by data of the same length.
use apue_learning.Common.{
  ℕ, suc, ◌+◌, ◌≤◌, ◌≡◌, refl, true, false, List, [], ◌∷◌, ◌++◌, some, arith, length, All,
  Bool-cases, inl, inr, ap, sym, subst, if◌then◌else◌, bytes_eq, bytes_eq_refl, bytes_eq→eq,
  length-append,
}
use apue_learning.CString.Decimal.{Ne}
use apue_learning.Bytes.{write_at}
use apue_learning.Db.{newline}
use apue_learning.Db.Record.{EntryAt, DataAt}
use apue_learning.Db.Record.Write.{DataAt-Apart, DataAt-write}
use apue_learning.Db.Chain.{Entry, lookup}
use apue_learning.Db.Chain.Linked.{Linked, linked, nothing_linked, Spot, here, there}
use apue_learning.Db.Chain.Layout.{Clear, Clear-swap, Pairwise, Spot-All}

-- The chain with new data for its first record of the key.
unfoldable pub with_text : List ℕ → List ℕ → List Entry → List Entry
with_text key text [] = []
with_text key text (e ∷ es) =
    let rest = with_text key text es in
    if bytes_eq e.key key then (record e { text = text }) ∷ es else e ∷ rest

-- A key that the record passed on the way does not have.
not_passed :
    (e : Entry) (key other : List ℕ)
    → bytes_eq e.key key ≡ false
    → bytes_eq key other ≡ true
    → bytes_eq e.key other ≡ false
not_passed e key other b q = subst (λ k. bytes_eq e.key k ≡ false) (bytes_eq→eq key other q) b

pub lookup-with_text :
    {key : List ℕ} {c o : ℕ} {es rest : List Entry} {d : Entry} (text other : List ℕ)
    → Spot key c es o d rest
    → lookup other (with_text key text es)
      ≡ (if bytes_eq key other then some text else lookup other es)
unfolding lookup with_text
lookup-with_text {key} text other (here e es b) =
    rw (bytes_eq→eq e.key key b) (elim (Bool-cases (bytes_eq key other)) [
      | inl q ↦ rw (bytes_eq_refl key, q) refl
      | inr q ↦ rw (bytes_eq_refl key, q) refl
    ])
lookup-with_text {key} text other (there e b sp) = rw b (elim (Bool-cases (bytes_eq key other)) [
  | inl q ↦ rw (lookup-with_text text other sp) (rw (q, not_passed e key other b q) refl)
  | inr q ↦ rw (lookup-with_text text other sp) (rw q refl)
])

pub length-with_text :
    (key text : List ℕ) (es : List Entry) → length (with_text key text es) ≡ length es
unfolding with_text
length-with_text key text [] = refl
length-with_text key text (e ∷ es) = elim (Bool-cases (bytes_eq e.key key)) [
  | inl q ↦ rw q refl
  | inr q ↦ rw q (ap suc (length-with_text key text es))
]

module _ (idx dat text : List ℕ) (d : Entry) (clean : All (Ne 0) text)
    (same : length text ≡ length d.text)
    (inside : d.datoff + (length d.text + 1) ≤ length dat) where
  abbrev pub over : List ℕ
  over = write_at dat d.datoff (text ++ newline ∷ [])

  over-kept : (e : Entry) → Clear d e → DataAt dat e.datoff e.text → DataAt over e.datoff e.text
  over-kept e cl da =
      DataAt-Apart dat d.datoff (text ++ newline ∷ [])
        (elim cl.in_dat [
          | inl x ↦ inl (omega (arith, length-append text (newline ∷ []), same, x))
          | inr x ↦ inr (x, omega (arith, inside))
        ])
        da

  Linked-over :
      {a : ℕ} {es : List Entry} → Linked idx dat a es → All (Clear d) es → Linked idx over a es
  Linked-over (nothing_linked p) h = nothing_linked p
  Linked-over (linked e es p lt en da l) h =
      linked e es p lt en (over-kept e h.0 da) (Linked-over l h.1)

  pub Linked-with_text :
      {key : List ℕ} {c o : ℕ} {es rest : List Entry}
      → Spot key c es o d rest
      → Linked idx dat c es
      → Pairwise es
      → Linked idx over c (with_text key text es)
  unfolding with_text
  Linked-with_text (here e es b) (linked _ _ p lt en da l) pw = rw b (
      linked (record e { text = text }) es p lt
        (subst (λ n. EntryAt idx e.at e.key e.datoff (n + 1)) (sym same) en)
        (DataAt-write dat e.datoff text clean) (Linked-over l pw.0))
  Linked-with_text (there e b sp) (linked _ _ p lt en da l) pw = rw b (
      linked e _ p lt en (over-kept e (Clear-swap (Spot-All (Clear e) sp pw.0).0) da)
        (Linked-with_text sp l pw.1))
