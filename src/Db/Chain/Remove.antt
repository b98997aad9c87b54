-- ===== src/Db/Chain/Remove.antt =====
-- A chain and the free list, after a record of the chain was blanked and unlinked.
use apue_learning.Common.{
  ℕ, ◌+◌, ◌≤◌, ◌≡◌, List, [], ◌∷◌, ℤ, pos, negsuc, arith, length, All, inl, inr, ap, ◌∙◌, sym,
  subst, length-replicate,
}
use apue_learning.CString.{atol}
use apue_learning.CString.Decimal.{atol-print_pad}
use apue_learning.Db.{space}
use apue_learning.Db.Record.{PtrAt, EntryAt}
use apue_learning.Db.Chain.{Entry}
use apue_learning.Db.Chain.Linked.{start, Linked, linked, Linked-pointer, Spot, here, there}
use apue_learning.Db.Chain.Unlink.{blanks}
use apue_learning.Db.Chain.Layout.{
  span, Clear, Clear-swap, Off, Pairwise, Spot-All, Spot-Beside, Spot-Split, Linked-Survives,
  Survives, All-Clear-Off, All-Clear-swap, Off-Split,
}
use apue_learning.Db.Chain.Blank.{
  Room, blank, idx3, dat1, Survives-blank, entry-kept, data-kept, ptr-kept, PtrAt-target,
  PtrAt-head, PtrAt-blank, EntryAt-blank, DataAt-blank,
}

-- Records inside files of `n` and `m` bytes, behind the free list's pointer.
pub record Within (n m : ℕ) (e : Entry) : Type 0 where
  pub behind : 7 ≤ e.at
  pub in_idx : e.at + span e ≤ n
  pub in_dat : e.datoff + (length e.text + 1) ≤ m

-- A chain and the free list that share no byte, each record apart from the others and from the
-- chain's pointer at `c`.
pub record Laid (c n m : ℕ) (es free : List Entry) : Type 0 where
  pub behind : 7 ≤ c
  pub within : All (Within n m) es
  pub off : All (Off c) es
  pub apart : Pairwise es
  pub free_low : All (λ f. 7 ≤ f.at) free
  pub free_off : All (Off c) free
  pub free_apart : All (λ f. All (λ e. Clear e f) es) free

pos_value : ℤ → ℕ
pos_value (pos n) = n
pos_value (negsuc n) = 0

pub PtrAt-unique : {f : List ℕ} {off p q : ℕ} → PtrAt f off p → PtrAt f off q → p ≡ q
unfolding pos_value
PtrAt-unique {f} {off} {p} {q} h k =
    ap pos_value
      (sym (atol-print_pad 7 p) ∙ ap atol (sym h.pointer ∙ k.pointer) ∙ atol-print_pad 7 q)

pub Spot-pointer :
    {idx dat key : List ℕ} {c o : ℕ} {es rest : List Entry} {d : Entry}
    → Spot key c es o d rest
    → Linked idx dat c es
    → PtrAt idx o d.at
Spot-pointer (here e es b) (linked _ _ p lt en da l) = p
Spot-pointer (there e b sp) (linked _ _ p lt en da l) = Spot-pointer sp l

-- The pointer lies behind the free list's and inside the file.
pub Spot-bounds :
    {key : List ℕ} {n c o : ℕ} {es rest : List Entry} {d : Entry} (m : ℕ)
    → Spot key c es o d rest
    → 7 ≤ c
    → c + 7 ≤ n
    → All (Within n m) es
    → (7 ≤ o) × (o + 7 ≤ n)
Spot-bounds m (here e es b) h k w = (h, k)
Spot-bounds m (there e b sp) h k w = Spot-bounds m sp w.0.behind (omega (arith, w.0.in_idx)) w.1

All-low : (n m : ℕ) (es : List Entry) → All (Within n m) es → All (λ e. 7 ≤ e.at) es
All-low n m [] w = tt
All-low n m (e ∷ es) w = (w.0.behind, All-low n m es w.1)

module _ (idx dat : List ℕ) (d : Entry) (free next o : ℕ) (r : Room idx dat d free next o) where
  -- The records apart from the deleted one and from the pointer to it.
  All-Survives :
      (es : List Entry)
      → All (λ e. 7 ≤ e.at) es
      → All (Clear d) es
      → All (Off o) es
      → All (Survives idx dat (idx3 idx dat d free next o r) (dat1 idx dat d free next o r)) es
  All-Survives [] low cl of = tt
  All-Survives (e ∷ es) low cl of = (
    Survives-blank idx dat d free next o r e low.0 cl.0
        (elim of.0 [ inl x ↦ inl (omega arith) | inr x ↦ inr x ])
        (elim of.0 [ inl x ↦ inr x | inr x ↦ inl (omega arith) ]),
    All-Survives es low.1 cl.1 of.1,
  )

  -- The chain without the record.
  pub removed :
      (key : List ℕ) (c : ℕ) (es rest : List Entry)
      → Spot key c es o d rest
      → Linked idx dat c es
      → PtrAt idx d.at next
      → 7 ≤ c
      → All (Within (length idx) (length dat)) es
      → All (Off c) es
      → Pairwise es
      → Linked (idx3 idx dat d free next o r) (dat1 idx dat d free next o r) c rest
  removed key c es rest (here e es' b) (linked _ _ q lt en da l) p h w of pw =
      Linked-Survives l
        (subst (PtrAt (idx3 idx dat d free next o r) o) (PtrAt-unique p (Linked-pointer l))
          (PtrAt-target idx dat d free next o r))
        (All-Survives es' (All-low (length idx) (length dat) es' w.1) pw.0 of.1)
  removed key c es rest (there e {es = es'} {rest = rest'} b sp) (linked _ _ q lt en da l) p h w of
        pw =
      let cl = Clear-swap (Spot-All (Clear e) sp pw.0).0 in
      linked e rest'
        (ptr-kept idx dat d free next o r h (Spot-All (Off c) sp of.1).0
          (Spot-Split c sp (Off-Split e of.0) of.1) q)
        lt
        (entry-kept idx dat d free next o r e w.0.behind cl
          (Spot-Beside e sp (inl (omega arith)) (All-Clear-swap e es' pw.0)) en)
        (data-kept idx dat d free next o r e cl da)
        (removed key e.at es' rest' sp l p w.0.behind w.1 (All-Clear-Off e es' pw.0) pw.1)

  -- The free list with the record at its front.
  pub freed :
      (fs : List Entry)
      → start fs ≡ free
      → Linked idx dat 0 fs
      → All (λ f. 7 ≤ f.at) fs
      → All (λ f. Clear d f) fs
      → All (Off o) fs
      → Linked (idx3 idx dat d free next o r) (dat1 idx dat d free next o r) 0 (blank d ∷ fs)
  freed fs q l low cl of =
      linked (blank d) fs (PtrAt-head idx dat d free next o r) (omega (arith, r.behind))
        (subst (λ n. EntryAt (idx3 idx dat d free next o r) d.at (blanks d.key) d.datoff (n + 1))
          (sym (length-replicate (length d.text) space)) (EntryAt-blank idx dat d free next o r))
        (DataAt-blank idx dat d free next o r)
        (Linked-Survives l
          (subst (PtrAt (idx3 idx dat d free next o r) d.at) (sym q)
            (PtrAt-blank idx dat d free next o r))
          (All-Survives fs low cl of))
