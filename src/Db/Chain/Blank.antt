-- ===== src/Db/Chain/Blank.antt =====
-- The files after a record was blanked: what the other records, the chain's pointer and the free list
-- read as.
use apue_learning.Common.{
  ℕ, ◌+◌, ◌≤◌, ◌≡◌, refl, List, [], ◌∷◌, ◌++◌, arith, length, All, inl, inr, replicate, ap, ◌∙◌,
  length-append, length-replicate, All-replicate,
}
use apue_learning.CString.{print_pad}
use apue_learning.CString.Decimal.{Ne, length-print_pad}
use apue_learning.Bytes.{write_at, length-write_at}
use apue_learning.Db.{space, ptr_sz, ptr_max, newline}
use apue_learning.Db.Index.{index_text}
use apue_learning.Db.Record.{PtrAt, EntryAt, DataAt, Fits, IsKey}
use apue_learning.Db.Record.Write.{
  record_bytes, PtrAt-Apart, EntryAt-Apart, DataAt-Apart, PtrAt-write, PtrAt-record, EntryAt-record,
  DataAt-write, length-record_bytes,
}
use apue_learning.Db.Chain.{Entry}
use apue_learning.Db.Chain.Unlink.{blanks, idx_blank, dat_blank}
use apue_learning.Db.Chain.Layout.{span, Clear, Off, Beside, Split, Survives}

pub length-blanks : (key : List ℕ) → length (blanks key) ≡ length key
length-blanks [] = refl
length-blanks (c ∷ key) = omega (arith, length-blanks key)

length-index_text :
    (key : List ℕ) (a b : ℕ) → length (index_text (blanks key) a b) ≡ length (index_text key a b)
unfolding index_text
length-index_text key a b =
    omega (arith, length-append (blanks key) _, length-append key _, length-blanks key)

blanks-IsKey : (key : List ℕ) → IsKey (blanks key)
blanks-IsKey key = record { no_null = other 0 refl key; no_sep = other b':' refl key }
  where
    other : (c : ℕ) → Ne c space → (key : List ℕ) → All (Ne c) (blanks key)
    other c h [] = tt
    other c h (k ∷ key) = (h, other c h key)

pub blanks-Fits : (key : List ℕ) (a b : ℕ) → Fits key a b → Fits (blanks key) a b
blanks-Fits key a b h = record {
  min_length = omega (arith, length-index_text key a b, h.min_length);
  max_length = omega (arith, length-index_text key a b, h.max_length);
  some_data = h.some_data;
  max_data = h.max_data;
}

-- The record on the free list.
abbrev pub blank : Entry → Entry
blank d = record {
  at = d.at;
  key = blanks d.key;
  text = replicate (length d.text) space;
  datoff = d.datoff;
}

-- A record inside the files behind the free list's pointer, and the pointer to it.
pub record Room (idx dat : List ℕ) (d : Entry) (free next o : ℕ) : Type 0 where
  pub free_small : free ≤ ptr_max
  pub next_small : next ≤ ptr_max
  pub at_small : d.at ≤ ptr_max
  pub behind : 7 ≤ d.at
  pub in_idx : d.at + span d ≤ length idx
  pub in_dat : d.datoff + (length d.text + 1) ≤ length dat
  pub fits : Fits d.key d.datoff (length d.text + 1)
  pub ptr_behind : 7 ≤ o
  pub ptr_in : o + 7 ≤ length idx
  pub outside : Off o d

module _ (idx dat : List ℕ) (d : Entry) (free next o : ℕ) (h : Room idx dat d free next o) where
  abbrev bytes : List ℕ
  bytes = record_bytes free (blanks d.key) d.datoff (length d.text + 1)

  abbrev idx1 : List ℕ
  idx1 = write_at idx d.at bytes

  abbrev idx2 : List ℕ
  idx2 = write_at idx1 0 (print_pad ptr_sz d.at)

  abbrev pub idx3 : List ℕ
  idx3 = idx_blank idx d.at d.key d.datoff (length d.text + 1) free next o

  abbrev pub dat1 : List ℕ
  dat1 = dat_blank dat d.datoff (length d.text)

  length-bytes : length bytes ≡ span d
  length-bytes =
      length-record_bytes idx d.at free (blanks d.key) d.datoff (length d.text + 1) h.free_small
        (blanks-Fits d.key d.datoff (length d.text + 1) h.fits)
      ∙ ap (λ n. 11 + n) (length-index_text d.key d.datoff (length d.text + 1))

  length-at : length (print_pad ptr_sz d.at) ≡ 7
  length-at = length-print_pad 6 d.at (omega (arith, h.at_small))

  length-next : length (print_pad ptr_sz next) ≡ 7
  length-next = length-print_pad 6 next (omega (arith, h.next_small))

  length-idx1 : length idx1 ≡ length idx
  length-idx1 =
      omega
        (arith, length-write_at idx d.at bytes (omega (arith, h.in_idx)), length-bytes, h.in_idx)

  length-idx2 : length idx2 ≡ length idx
  length-idx2 = omega (
    arith,
    length-write_at idx1 0 (print_pad ptr_sz d.at) (omega arith),
    length-at,
    length-idx1,
    h.in_idx,
    h.behind,
  )

  pub length-idx3 : length idx3 ≡ length idx
  length-idx3 = omega (
    arith,
    length-write_at idx2 o (print_pad ptr_sz next) (omega (arith, length-idx2, h.ptr_in)),
    length-next,
    length-idx2,
    h.ptr_in,
  )

  pub length-dat1 : length dat1 ≡ length dat
  length-dat1 = omega (
    arith,
    length-write_at dat d.datoff (replicate (length d.text) space ++ newline ∷ [])
        (omega (arith, h.in_dat)),
    length-append (replicate (length d.text) space) (newline ∷ []),
    length-replicate (length d.text) space,
    h.in_dat,
  )

  -- Pointers that are neither the record's nor the one that leads to it.
  pub ptr-kept :
      {off q : ℕ} → 7 ≤ off → Off off d → Split off o → PtrAt idx off q → PtrAt idx3 off q
  ptr-kept {off} low out sp p =
      PtrAt-Apart idx2 o (print_pad ptr_sz next)
        (elim sp [
          | inl x ↦ inr (x, omega (arith, length-idx2, h.ptr_in))
          | inr x ↦ inl (omega (arith, length-next, x))
        ])
        (PtrAt-Apart idx1 0 (print_pad ptr_sz d.at) (inl (omega (arith, length-at, low))) (
          PtrAt-Apart idx d.at bytes
            (elim out [
              | inl x ↦ inr (x, omega (arith, h.in_idx))
              | inr x ↦ inl (omega (arith, length-bytes, x))
            ])
            p))

  pub entry-kept :
      (e : Entry)
      → 7 ≤ e.at
      → Clear d e
      → Beside o e
      → EntryAt idx e.at e.key e.datoff (length e.text + 1)
      → EntryAt idx3 e.at e.key e.datoff (length e.text + 1)
  entry-kept e low cl be en =
      EntryAt-Apart idx2 o (print_pad ptr_sz next)
        (elim be [
          | inl x ↦ inl (omega (arith, length-next, x))
          | inr x ↦ inr (omega (arith, x), omega (arith, length-idx2, h.ptr_in))
        ])
        (EntryAt-Apart idx1 0 (print_pad ptr_sz d.at) (inl (omega (arith, length-at, low))) (
          EntryAt-Apart idx d.at bytes
            (elim cl.in_idx [
              | inl x ↦ inl (omega (arith, length-bytes, x))
              | inr x ↦ inr (omega (arith, x), omega (arith, h.in_idx))
            ])
            en))

  pub data-kept : (e : Entry) → Clear d e → DataAt dat e.datoff e.text → DataAt dat1 e.datoff e.text
  data-kept e cl da =
      DataAt-Apart dat d.datoff (replicate (length d.text) space ++ newline ∷ [])
        (elim cl.in_dat [
          | inl x ↦ inl (
              omega (
                arith,
                length-append (replicate (length d.text) space) (newline ∷ []),
                length-replicate (length d.text) space,
                x,
              ))
          | inr x ↦ inr (x, omega (arith, h.in_dat))
        ])
        da

  pub Survives-blank :
      (e : Entry) → 7 ≤ e.at → Clear d e → Beside o e → Split e.at o → Survives idx dat idx3 dat1 e
  Survives-blank e low cl be sp = record {
    ptr = λ p. ptr-kept low (elim cl.in_idx [ inl x ↦ inr x | inr x ↦ inl (omega arith) ]) sp p;
    entry = λ en. entry-kept e low cl be en;
    data_kept = λ da. data-kept e cl da;
  }

  pub PtrAt-target : PtrAt idx3 o next
  PtrAt-target = PtrAt-write idx2 o next h.next_small

  -- The free list: its pointer leads to the blank record, whose pointer has the old head.
  pub PtrAt-head : PtrAt idx3 0 d.at
  PtrAt-head =
      PtrAt-Apart idx2 o (print_pad ptr_sz next)
        (inr (h.ptr_behind, omega (arith, length-idx2, h.ptr_in)))
        (PtrAt-write idx1 0 d.at h.at_small)

  pub PtrAt-blank : PtrAt idx3 d.at free
  PtrAt-blank =
      PtrAt-Apart idx2 o (print_pad ptr_sz next)
        (elim h.outside [
          | inl x ↦ inl (omega (arith, length-next, x))
          | inr x ↦ inr (omega (arith, x), omega (arith, length-idx2, h.ptr_in))
        ])
        (PtrAt-Apart idx1 0 (print_pad ptr_sz d.at) (inl (omega (arith, length-at, h.behind)))
          (PtrAt-record idx d.at free (blanks d.key) d.datoff (length d.text + 1) h.free_small))

  pub EntryAt-blank : EntryAt idx3 d.at (blanks d.key) d.datoff (length d.text + 1)
  EntryAt-blank =
      let q = length-index_text d.key d.datoff (length d.text + 1) in
      EntryAt-Apart idx2 o (print_pad ptr_sz next)
        (elim h.outside [
          | inl x ↦ inl (omega (arith, length-next, x))
          | inr x ↦ inr (omega (arith, x, q), omega (arith, length-idx2, h.ptr_in))
        ])
        (EntryAt-Apart idx1 0 (print_pad ptr_sz d.at) (inl (omega (arith, length-at, h.behind))) (
          EntryAt-record idx d.at free (blanks d.key) d.datoff (length d.text + 1) h.free_small
            (blanks-IsKey d.key) (blanks-Fits d.key d.datoff (length d.text + 1) h.fits)))

  pub DataAt-blank : DataAt dat1 d.datoff (replicate (length d.text) space)
  DataAt-blank =
      DataAt-write dat d.datoff (replicate (length d.text) space)
        (All-replicate (Ne 0) (length d.text) space refl)
