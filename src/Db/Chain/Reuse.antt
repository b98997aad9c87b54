-- ===== src/Db/Chain/Reuse.antt =====
-- The files after a free record was taken off the free list and overwritten by a new one, which is put
-- in front of its chain.
use apue_learning.Common.{
  ℕ, ◌+◌, ◌≤◌, ◌<◌, ◌≡◌, List, [], ◌∷◌, ◌++◌, arith, length, All, inl, inr, ap, ◌∙◌, sym, subst,
  length-append, true, false, ◌&&◌, ◌==◌,
}
use apue_learning.CString.{print_pad}
use apue_learning.CString.Decimal.{Ne, length-print_pad}
use apue_learning.Bytes.{write_at, length-write_at}
use apue_learning.Db.{ptr_sz, ptr_max, newline}
use apue_learning.Db.Index.{index_text}
use apue_learning.Db.Record.{PtrAt, EntryAt, DataAt, Fits, IsKey}
use apue_learning.Db.Record.Write.{
  record_bytes, PtrAt-Apart, EntryAt-Apart, DataAt-Apart, PtrAt-write, PtrAt-record, EntryAt-record,
  DataAt-write, length-record_bytes,
}
use apue_learning.Db.Chain.{Entry}
use apue_learning.Db.Chain.Linked.{start, Linked, linked}
use apue_learning.Db.Chain.Layout.{span, Clear, Off, Beside, Split, Survives, Linked-Survives}

-- The first free record of these sizes is `d`, the pointer at `o` leads to it, and `rest` are the others.
pub data Fitting (keylen datlen : ℕ) : ℕ → List Entry → ℕ → Entry → List Entry → Type 0 where
  fits_here :
      {c : ℕ} (e : Entry) (es : List Entry)
      → (length e.key == keylen && length e.text + 1 == datlen) ≡ true
      → Fitting keylen datlen c (e ∷ es) c e es
  fits_later :
      {c o : ℕ} {d : Entry} (e : Entry) {es rest : List Entry}
      → (length e.key == keylen && length e.text + 1 == datlen) ≡ false
      → Fitting keylen datlen e.at es o d rest
      → Fitting keylen datlen c (e ∷ es) o d (e ∷ rest)

-- What holds of all free records holds of the one and of the others.
pub Fitting-All :
    {k n c o : ℕ} {es rest : List Entry} {d : Entry} (P : Entry → Type 0)
    → Fitting k n c es o d rest
    → All P es
    → P d × All P rest
Fitting-All P (fits_here e es b) h = h
Fitting-All P (fits_later e b f) h = let r = Fitting-All P f h.1 in (r.0, (h.0, r.1))

pub length-index_text_same :
    (k k' : List ℕ) (a n : ℕ)
    → length k ≡ length k'
    → length (index_text k a n) ≡ length (index_text k' a n)
unfolding index_text
length-index_text_same k k' a n h = omega (arith, length-append k _, length-append k' _, h)

-- The new record fits into the place of the free one, at `d`, to which the pointer at `o` leads.
pub record Place (idx dat key text : List ℕ) (d : Entry) (p next o c : ℕ) : Type 0 where
  pub p_small : p ≤ ptr_max
  pub next_small : next ≤ ptr_max
  pub at_small : d.at ≤ ptr_max
  pub some_at : 0 < d.at
  pub in_idx : d.at + span d ≤ length idx
  pub in_dat : d.datoff + (length d.text + 1) ≤ length dat
  pub fits : Fits key d.datoff (length text + 1)
  pub is_key : IsKey key
  pub clean : All (Ne 0) text
  pub same_key : length d.key ≡ length key
  pub same_text : length d.text ≡ length text
  pub ptr_in : o + 7 ≤ length idx
  pub chain_in : c + 7 ≤ length idx
  pub ptr_outside : Off o d
  pub chain_outside : Off c d
  pub split : Split c o

module _ (idx dat key text : List ℕ) (d : Entry) (p next o c : ℕ)
    (h : Place idx dat key text d p next o c) where
  abbrev bytes : List ℕ
  bytes = record_bytes p key d.datoff (length text + 1)

  abbrev pub idx_taken : List ℕ
  idx_taken = write_at idx o (print_pad ptr_sz next)

  abbrev idx_new : List ℕ
  idx_new = write_at idx_taken d.at bytes

  abbrev pub idx_reused : List ℕ
  idx_reused = write_at idx_new c (print_pad ptr_sz d.at)

  abbrev pub dat_reused : List ℕ
  dat_reused = write_at dat d.datoff (text ++ newline ∷ [])

  abbrev pub renewed : Entry
  renewed = record { at = d.at; key = key; text = text; datoff = d.datoff }

  length-index_text :
      length (index_text key d.datoff (length text + 1))
      ≡ length (index_text d.key d.datoff (length d.text + 1))
  length-index_text =
      rw h.same_text (length-index_text_same key d.key d.datoff (length text + 1) (sym h.same_key))

  length-bytes : length bytes ≡ span d
  length-bytes =
      length-record_bytes idx d.at p key d.datoff (length text + 1) h.p_small h.fits
      ∙ ap (λ n. 11 + n) length-index_text

  length-next : length (print_pad ptr_sz next) ≡ 7
  length-next = length-print_pad 6 next (omega (arith, h.next_small))

  length-at : length (print_pad ptr_sz d.at) ≡ 7
  length-at = length-print_pad 6 d.at (omega (arith, h.at_small))

  length-taken : length idx_taken ≡ length idx
  length-taken = omega (
    arith,
    length-write_at idx o (print_pad ptr_sz next) (omega (arith, h.ptr_in)),
    length-next,
    h.ptr_in,
  )

  length-new : length idx_new ≡ length idx
  length-new = omega (
    arith,
    length-write_at idx_taken d.at bytes (omega (arith, length-taken, h.in_idx)),
    length-bytes,
    length-taken,
    h.in_idx,
  )

  pub length-reused : length idx_reused ≡ length idx
  length-reused = omega (
    arith,
    length-write_at idx_new c (print_pad ptr_sz d.at) (omega (arith, length-new, h.chain_in)),
    length-at,
    length-new,
    h.chain_in,
  )

  pub length-dat_reused : length dat_reused ≡ length dat
  length-dat_reused = omega (
    arith,
    length-write_at dat d.datoff (text ++ newline ∷ [])
        (omega (arith, length-append text (newline ∷ []), h.same_text, h.in_dat)),
    length-append text (newline ∷ []),
    h.same_text,
    h.in_dat,
  )

  -- Pointers that none of the three writes touches.
  pub reuse-ptr :
      {off q : ℕ} → Split off o → Off off d → Split off c → PtrAt idx off q → PtrAt idx_reused off q
  reuse-ptr {off} so out sc pt =
      PtrAt-Apart idx_new c (print_pad ptr_sz d.at)
        (elim sc [
          | inl x ↦ inr (x, omega (arith, length-new, h.chain_in))
          | inr x ↦ inl (omega (arith, length-at, x))
        ])
        (PtrAt-Apart idx_taken d.at bytes
          (elim out [
            | inl x ↦ inr (x, omega (arith, length-taken, h.in_idx))
            | inr x ↦ inl (omega (arith, length-bytes, x))
          ])
          (PtrAt-Apart idx o (print_pad ptr_sz next)
            (elim so [
              | inl x ↦ inr (x, omega (arith, h.ptr_in))
              | inr x ↦ inl (omega (arith, length-next, x))
            ])
            pt))

  pub reuse-entry :
      (e : Entry)
      → Clear d e
      → Beside o e
      → Beside c e
      → EntryAt idx e.at e.key e.datoff (length e.text + 1)
      → EntryAt idx_reused e.at e.key e.datoff (length e.text + 1)
  reuse-entry e cl bo bc en =
      EntryAt-Apart idx_new c (print_pad ptr_sz d.at)
        (elim bc [
          | inl x ↦ inl (omega (arith, length-at, x))
          | inr x ↦ inr (omega (arith, x), omega (arith, length-new, h.chain_in))
        ])
        (EntryAt-Apart idx_taken d.at bytes
          (elim cl.in_idx [
            | inl x ↦ inl (omega (arith, length-bytes, x))
            | inr x ↦ inr (omega (arith, x), omega (arith, length-taken, h.in_idx))
          ])
          (EntryAt-Apart idx o (print_pad ptr_sz next)
            (elim bo [
              | inl x ↦ inl (omega (arith, length-next, x))
              | inr x ↦ inr (omega (arith, x), omega (arith, h.ptr_in))
            ])
            en))

  pub reuse-data :
      (e : Entry) → Clear d e → DataAt dat e.datoff e.text → DataAt dat_reused e.datoff e.text
  reuse-data e cl da =
      DataAt-Apart dat d.datoff (text ++ newline ∷ [])
        (elim cl.in_dat [
          | inl x ↦ inl (omega (arith, length-append text (newline ∷ []), h.same_text, x))
          | inr x ↦ inr (x, omega (arith, h.in_dat))
        ])
        da

  Survives-reuse :
      (e : Entry) → Clear d e → Off o e → Off c e → Survives idx dat idx_reused dat_reused e
  Survives-reuse e cl oo oc = record {
    ptr = λ pt.
        reuse-ptr (split_at oo) (elim cl.in_idx [ inl x ↦ inr x | inr x ↦ inl (omega arith) ])
          (split_at oc) pt;
    entry = λ en. reuse-entry e cl (beside oo) (beside oc) en;
    data_kept = λ da. reuse-data e cl da;
  }
    where
      split_at : {a : ℕ} → Off a e → Split e.at a
      split_at off = elim off [ inl x ↦ inr x | inr x ↦ inl (omega arith) ]

      beside : {a : ℕ} → Off a e → Beside a e
      beside off = elim off [ inl x ↦ inl (omega arith) | inr x ↦ inr x ]

  pub All-reuse :
      (es : List Entry)
      → All (Clear d) es
      → All (Off o) es
      → All (Off c) es
      → All (Survives idx dat idx_reused dat_reused) es
  All-reuse [] cl oo oc = tt
  All-reuse (e ∷ es) cl oo oc = (Survives-reuse e cl.0 oo.0 oc.0, All-reuse es cl.1 oo.1 oc.1)

  pub PtrAt-taken : PtrAt idx_reused o next
  PtrAt-taken =
      PtrAt-Apart idx_new c (print_pad ptr_sz d.at)
        (elim h.split [
          | inl x ↦ inl (omega (arith, length-at, x))
          | inr x ↦ inr (x, omega (arith, length-new, h.chain_in))
        ])
        (PtrAt-Apart idx_taken d.at bytes
          (elim h.ptr_outside [
            | inl x ↦ inr (x, omega (arith, length-taken, h.in_idx))
            | inr x ↦ inl (omega (arith, length-bytes, x))
          ])
          (PtrAt-write idx o next h.next_small))

  -- The chain with the new record in front.
  pub chain-reused :
      (es : List Entry)
      → start es ≡ p
      → Linked idx dat c es
      → All (Clear d) es
      → All (Off o) es
      → All (Off c) es
      → Linked idx_reused dat_reused c (renewed ∷ es)
  chain-reused es q l cl oo oc =
      linked renewed es (PtrAt-write idx_new c d.at h.at_small) h.some_at
        (EntryAt-Apart idx_new c (print_pad ptr_sz d.at)
          (elim h.chain_outside [
            | inl x ↦ inl (omega (arith, length-at, x))
            | inr x ↦
                inr (omega (arith, x, length-index_text), omega (arith, length-new, h.chain_in))
          ])
          (EntryAt-record idx_taken d.at p key d.datoff (length text + 1) h.p_small h.is_key
            h.fits))
        (DataAt-write dat d.datoff text h.clean)
        (Linked-Survives l
          (subst (PtrAt idx_reused d.at) (sym q) (
            PtrAt-Apart idx_new c (print_pad ptr_sz d.at)
              (elim h.chain_outside [
                | inl x ↦ inl (omega (arith, length-at, x))
                | inr x ↦ inr (omega (arith, x), omega (arith, length-new, h.chain_in))
              ])
              (PtrAt-record idx_taken d.at p key d.datoff (length text + 1) h.p_small)))
          (All-reuse es cl oo oc))
