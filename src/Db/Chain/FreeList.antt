-- ===== src/Db/Chain/FreeList.antt =====
-- The free list after its first record of the right sizes was taken, and where the pointer to that
-- record lies.
use apue_learning.Common.{ℕ, ◌+◌, ◌≤◌, ◌<◌, List, arith, length, All, inl, inr, subst}
use apue_learning.Db.Record.{PtrAt, EntryAt}
use apue_learning.Db.Chain.{Entry}
use apue_learning.Db.Chain.Linked.{start, Linked, linked, Linked-pointer}
use apue_learning.Db.Chain.Layout.{
  Clear, Clear-swap, Off, Beside, Split, Linked-Survives, Pairwise, Off-Split, Clear-Off,
  All-Clear-Off, All-Clear-swap,
}
use apue_learning.Db.Chain.Remove.{PtrAt-unique, Within}
use apue_learning.Db.Chain.Reuse.{
  Fitting, fits_here, fits_later, Fitting-All, Place, idx_reused, dat_reused, reuse-ptr,
  reuse-entry, reuse-data, All-reuse, PtrAt-taken,
}

pub Fitting-Split :
    {k n c o : ℕ} {es rest : List Entry} {d : Entry} (a : ℕ)
    → Fitting k n c es o d rest
    → Split a c
    → All (Off a) es
    → Split a o
Fitting-Split a (fits_here e es b) h m = h
Fitting-Split a (fits_later e b f) h m = Fitting-Split a f (Off-Split e m.0) m.1

pub Fitting-Off :
    {k n c o : ℕ} {es rest : List Entry} {d : Entry} (e : Entry)
    → Fitting k n c es o d rest
    → Off c e
    → All (λ f. Clear f e) es
    → Off o e
Fitting-Off e (fits_here f es b) h m = h
Fitting-Off e (fits_later f b g) h m = Fitting-Off e g (Clear-Off m.0) m.1

Fitting-Beside :
    {k n c o : ℕ} {es rest : List Entry} {d : Entry} (e : Entry)
    → Fitting k n c es o d rest
    → Beside c e
    → All (λ f. Clear f e) es
    → Beside o e
Fitting-Beside e (fits_here f es b) h m = h
Fitting-Beside e (fits_later f b g) h m =
    Fitting-Beside e g (elim (Clear-Off m.0) [ inl x ↦ inl (omega arith) | inr x ↦ inr x ]) m.1

pub Fitting-Off_self :
    {k n c o : ℕ} {es rest : List Entry} {d : Entry}
    → Fitting k n c es o d rest
    → All (Off c) es
    → Pairwise es
    → Off o d
Fitting-Off_self (fits_here e es b) h m = h.0
Fitting-Off_self (fits_later e {es} b f) h m = Fitting-Off_self f (All-Clear-Off e es m.0) m.1

pub Fitting-bound :
    {k n c o : ℕ} {es rest : List Entry} {d : Entry} (l m : ℕ)
    → Fitting k n c es o d rest
    → c + 7 ≤ l
    → All (Within l m) es
    → o + 7 ≤ l
Fitting-bound l m (fits_here e es b) h w = h
Fitting-bound l m (fits_later e b f) h w = Fitting-bound l m f (omega (arith, w.0.in_idx)) w.1

-- The record of the list, its pointer and the pointer to it.
pub record Free (idx dat : List ℕ) (o next : ℕ) (d : Entry) : Type 0 where
  pub pointer : PtrAt idx o d.at
  pub successor : PtrAt idx d.at next
  pub some_at : 0 < d.at
  pub entry : EntryAt idx d.at d.key d.datoff (length d.text + 1)

pub Fitting-Free :
    {idx dat : List ℕ} {k n c o : ℕ} {es rest : List Entry} {d : Entry}
    → Fitting k n c es o d rest
    → Linked idx dat c es
    → (next : ℕ) × Free idx dat o next d
Fitting-Free (fits_here e es b) (linked _ _ p lt en da l) =
    (start es, record { pointer = p; successor = Linked-pointer l; some_at = lt; entry = en })
Fitting-Free (fits_later e b f) (linked _ _ p lt en da l) = Fitting-Free f l

module _ (idx dat key text : List ℕ) (d : Entry) (p next o c : ℕ)
    (h : Place idx dat key text d p next o c) where
  -- The free list without the record.
  pub free-reused :
      {k n : ℕ} (a : ℕ) (fs rest : List Entry)
      → Fitting k n a fs o d rest
      → Linked idx dat a fs
      → PtrAt idx d.at next
      → All (Off a) fs
      → Pairwise fs
      → All (Off c) fs
      → Split a c
      → Linked
          (idx_reused idx dat key text d p next o c h)
          (dat_reused idx dat key text d p next o c h)
          a
          rest
  free-reused a fs rest (fits_here _ es b) (linked _ _ q lt en da l) pt of pw oc sp =
      Linked-Survives l
        (subst (PtrAt (idx_reused idx dat key text d p next o c h) o)
          (PtrAt-unique pt (Linked-pointer l)) (PtrAt-taken idx dat key text d p next o c h))
        (All-reuse idx dat key text d p next o c h es pw.0 of.1 oc.1)
  free-reused a fs rest (fits_later e {es = es'} {rest = rest'} b f) (linked _ _ q lt en da l) pt of
        pw oc sp =
      let cl = Clear-swap (Fitting-All (Clear e) f pw.0).0 in
      linked e rest'
        (reuse-ptr idx dat key text d p next o c h (Fitting-Split a f (Off-Split e of.0) of.1)
          (Fitting-All (Off a) f of.1).0 sp q)
        lt
        (reuse-entry idx dat key text d p next o c h e cl
          (Fitting-Beside e f (inl (omega arith)) (All-Clear-swap e es' pw.0))
          (elim oc.0 [ inl x ↦ inl (omega arith) | inr x ↦ inr x ]) en)
        (reuse-data idx dat key text d p next o c h e cl da)
        (free-reused e.at es' rest' f l pt (All-Clear-Off e es' pw.0) pw.1 oc.1
          (elim (Off-Split e oc.0) [ inl x ↦ inr x | inr x ↦ inl x ]))
