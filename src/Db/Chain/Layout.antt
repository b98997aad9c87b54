-- ===== src/Db/Chain/Layout.antt =====
-- Where the records of a chain lie in the two files, and that records apart from a write survive it.
use apue_learning.Common.{
  ℕ, ◌+◌, ◌≤◌, ◌≡◌, refl, false, List, [], ◌∷◌, none, arith, length, bytes_eq, All, ◌⊎◌, inl, inr,
  if◌then◌else◌, Bool-cases, bytes_eq→eq, subst,
}
use apue_learning.Db.Index.{index_text}
use apue_learning.Db.Record.{PtrAt, EntryAt, DataAt}
use apue_learning.Db.Chain.{Entry, lookup}
use apue_learning.Db.Chain.Linked.{
  start, Linked-pointer, Linked, nothing_linked, linked, Spot, here, there,
}

-- The bytes of an index record, its pointer and length included.
abbrev pub span : Entry → ℕ
span e = 11 + length (index_text e.key e.datoff (length e.text + 1))

-- Two records share no byte of either file.
pub record Clear (d e : Entry) : Type 0 where
  pub in_idx : (d.at + span d ≤ e.at) ⊎ (e.at + span e ≤ d.at)
  pub in_dat :
      (d.datoff + (length d.text + 1) ≤ e.datoff) ⊎ (e.datoff + (length e.text + 1) ≤ d.datoff)

pub Clear-swap : {d e : Entry} → Clear d e → Clear e d
Clear-swap h = record {
  in_idx = elim h.in_idx [ inl x ↦ inr x | inr x ↦ inl x ];
  in_dat = elim h.in_dat [ inl x ↦ inr x | inr x ↦ inl x ];
}

pub All-Clear-swap : (e : Entry) (es : List Entry) → All (Clear e) es → All (λ x. Clear x e) es
All-Clear-swap e [] h = tt
All-Clear-swap e (x ∷ es) h = (Clear-swap h.0, All-Clear-swap e es h.1)

-- A pointer at `a` lies outside the record.
abbrev pub Off : ℕ → Entry → Type 0
Off a e = (a + 7 ≤ e.at) ⊎ (e.at + span e ≤ a)

-- A pointer at `a` is the record's own, or lies outside it.
abbrev pub Beside : ℕ → Entry → Type 0
Beside a e = (a ≤ e.at) ⊎ (e.at + span e ≤ a)

pub Clear-Off : {d e : Entry} → Clear d e → Off d.at e
Clear-Off {d} {e} h = elim h.in_idx [ inl x ↦ inl (omega arith) | inr x ↦ inr x ]

abbrev pub Pairwise : List Entry → Type 0
Pairwise [] = Unit
Pairwise (e ∷ es) = All (Clear e) es × Pairwise es

abbrev pub Distinct : List Entry → Type 0
Distinct [] = Unit
Distinct (e ∷ es) = All (λ x. bytes_eq x.key e.key ≡ false) es × Distinct es

-- A record of the chain, and those that are left without it.
pub Spot-All :
    {key : List ℕ} {c o : ℕ} {es rest : List Entry} {d : Entry} (P : Entry → Type 0)
    → Spot key c es o d rest
    → All P es
    → P d × All P rest
Spot-All P (here e es b) h = h
Spot-All P (there e b sp) h = let r = Spot-All P sp h.1 in (r.0, (h.0, r.1))

pub Spot-Off :
    {key : List ℕ} {c o : ℕ} {es rest : List Entry} {d : Entry} (f : Entry)
    → Spot key c es o d rest
    → Off c f
    → All (λ e. Clear e f) es
    → Off o f
Spot-Off f (here e es b) h k = h
Spot-Off f (there e b sp) h k = Spot-Off f sp (Clear-Off k.0) k.1

pub Spot-Beside :
    {key : List ℕ} {c o : ℕ} {es rest : List Entry} {d : Entry} (f : Entry)
    → Spot key c es o d rest
    → Beside c f
    → All (λ e. Clear e f) es
    → Beside o f
Spot-Beside f (here e es b) h k = h
Spot-Beside f (there e b sp) h k =
    Spot-Beside f sp (elim (Clear-Off k.0) [ inl x ↦ inl (omega arith) | inr x ↦ inr x ]) k.1

pub All-Clear-Off : (e : Entry) (es : List Entry) → All (Clear e) es → All (Off e.at) es
All-Clear-Off e [] h = tt
All-Clear-Off e (x ∷ es) h = (Clear-Off h.0, All-Clear-Off e es h.1)

-- The pointer to the record lies outside it.
pub Spot-Off_self :
    {key : List ℕ} {c o : ℕ} {es rest : List Entry} {d : Entry}
    → Spot key c es o d rest
    → All (Off c) es
    → Pairwise es
    → Off o d
Spot-Off_self (here e es b) h k = h.0
Spot-Off_self (there e {es} b sp) h k = Spot-Off_self sp (All-Clear-Off e es k.0) k.1

-- Two pointers share no byte.
abbrev pub Split : ℕ → ℕ → Type 0
Split a b = (a + 7 ≤ b) ⊎ (b + 7 ≤ a)

pub Off-Split : {a : ℕ} (e : Entry) → Off a e → Split a e.at
Off-Split e h = elim h [ inl x ↦ inl x | inr x ↦ inr (omega arith) ]

pub Spot-Split :
    {key : List ℕ} {c o : ℕ} {es rest : List Entry} {d : Entry} (a : ℕ)
    → Spot key c es o d rest
    → Split a c
    → All (Off a) es
    → Split a o
Spot-Split a (here e es b) h k = h
Spot-Split a (there e b sp) h k = Spot-Split a sp (Off-Split e k.0) k.1

-- What a write to the files keeps of a record.
pub record Survives (idx dat idx' dat' : List ℕ) (e : Entry) : Type 0 where
  pub ptr : {q : ℕ} → PtrAt idx e.at q → PtrAt idx' e.at q
  pub entry :
      EntryAt idx e.at e.key e.datoff (length e.text + 1)
      → EntryAt idx' e.at e.key e.datoff (length e.text + 1)
  pub data_kept : DataAt dat e.datoff e.text → DataAt dat' e.datoff e.text

pub Linked-Survives :
    {idx dat idx' dat' : List ℕ} {a c : ℕ} {es : List Entry}
    → Linked idx dat a es
    → PtrAt idx' c (start es)
    → All (Survives idx dat idx' dat') es
    → Linked idx' dat' c es
Linked-Survives (nothing_linked p) q h = nothing_linked q
Linked-Survives (linked e es p lt en da l) q h =
    linked e es q lt (h.0.entry en) (h.0.data_kept da)
      (Linked-Survives l (h.0.ptr (Linked-pointer l)) h.1)

pub lookup-absent :
    (key : List ℕ) (es : List Entry)
    → All (λ x. bytes_eq x.key key ≡ false) es
    → lookup key es ≡ none
unfolding lookup
lookup-absent key [] h = refl
lookup-absent key (e ∷ es) h = rw h.0 (lookup-absent key es h.1)

lookup-Spot_gone :
    {key : List ℕ} {c o : ℕ} {es rest : List Entry} {d : Entry}
    → Spot key c es o d rest
    → Distinct es
    → lookup key rest ≡ none
unfolding lookup
lookup-Spot_gone {key} (here e es b) h =
    lookup-absent key es
      (subst (λ k. All (λ x. bytes_eq x.key k ≡ false) es) (bytes_eq→eq e.key key b) h.0)
lookup-Spot_gone {key} (there e b sp) h = rw b (lookup-Spot_gone sp h.1)

pub lookup-Spot_other :
    {key : List ℕ} {c o : ℕ} {es rest : List Entry} {d : Entry} (other : List ℕ)
    → Spot key c es o d rest
    → bytes_eq key other ≡ false
    → lookup other rest ≡ lookup other es
unfolding lookup
lookup-Spot_other {key} other (here e es b) q = rw (bytes_eq→eq e.key key b) (rw q refl)
lookup-Spot_other other (there e b sp) q = rw (lookup-Spot_other other sp q) refl

-- Without its first record of a key, a chain whose keys are distinct has no record of the key, and has
-- the other keys' data as before.
pub lookup-Spot :
    {key : List ℕ} {c o : ℕ} {es rest : List Entry} {d : Entry} (other : List ℕ)
    → Spot key c es o d rest
    → Distinct es
    → lookup other rest ≡ (if bytes_eq key other then none else lookup other es)
lookup-Spot {key} {rest} other sp h = elim (Bool-cases (bytes_eq key other)) [
  | inl q ↦
      rw q (subst (λ k. lookup k rest ≡ none) (bytes_eq→eq key other q) (lookup-Spot_gone sp h))
  | inr q ↦ rw q (lookup-Spot_other other sp q)
]
