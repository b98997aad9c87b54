-- ===== src/Db/Record/Write.antt =====
-- What `_db_writeptr`, `_db_writeidx` and `_db_writedat` leave in the files.
use apue_learning.Common.{
  ℕ, ◌+◌, ◌≤◌, ◌≡◌, refl, sym, ap, ◌∙◌, ◌⊎◌, inl, inr, List, [], ◌∷◌, ◌++◌, pos, arith, length, All,
  length-append, take-append, drop-append, append_assoc, append-nil,
}
use apue_learning.CString.{print_pad}
use apue_learning.CString.Decimal.{Ne, length-print_pad}
use apue_learning.Bytes.{
  read_at, write_at, read-write_part, read-write_self, read-write_before, read-write_after,
}
use apue_learning.Process.{done}
use apue_learning.Db.{Db, ptr_sz, ptr_max, newline}
use apue_learning.Db.Index.{db_writeptr, index_text}
use apue_learning.Db.Record.{PtrAt, IsKey, Fits, EntryAt, DataAt}

-- A write of `n` bytes at `o` into a file of `size` bytes does not touch `m` bytes at `off`.
abbrev pub Apart : ℕ → ℕ → ℕ → ℕ → ℕ → Type 0
Apart size o n off m = (o + n ≤ off) ⊎ ((off + m ≤ o) × (o ≤ size))

pub read-Apart :
    (f : List ℕ) (o : ℕ) (d : List ℕ) (off m : ℕ)
    → Apart (length f) o (length d) off m
    → read_at (write_at f o d) off m ≡ read_at f off m
read-Apart f o d off m (inl h) = read-write_after f o off m d h
read-Apart f o d off m (inr (h, k)) = read-write_before f o off m d h k

pub PtrAt-Apart :
    (f : List ℕ) (o : ℕ) (d : List ℕ) {off p : ℕ}
    → Apart (length f) o (length d) off ptr_sz
    → PtrAt f off p
    → PtrAt (write_at f o d) off p
PtrAt-Apart f o d {off} a h = record {
  pointer = read-Apart f o d off ptr_sz a ∙ h.pointer;
  small = h.small;
}

pub EntryAt-Apart :
    (f : List ℕ) (o : ℕ) (d : List ℕ) {off : ℕ} {key : List ℕ} {datoff datlen : ℕ}
    → Apart (length f) o (length d) (off + ptr_sz) (4 + length (index_text key datoff datlen))
    → EntryAt f off key datoff datlen
    → EntryAt (write_at f o d) off key datoff datlen
EntryAt-Apart f o d {off} {key} {datoff} {datlen} a h = record {
  size =
      read-Apart f o d (off + ptr_sz) 4
        (elim a [ inl b ↦ inl b | inr (b, c) ↦ inr (omega arith, c) ])
      ∙ h.size;
  body =
      read-Apart f o d (off + 11) (length (index_text key datoff datlen))
        (elim a [ inl b ↦ inl (omega arith) | inr (b, c) ↦ inr (omega arith, c) ])
      ∙ h.body;
  is_key = h.is_key;
  fits = h.fits;
}

pub DataAt-Apart :
    (f : List ℕ) (o : ℕ) (d : List ℕ) {off : ℕ} {text : List ℕ}
    → Apart (length f) o (length d) off (length text + 1)
    → DataAt f off text
    → DataAt (write_at f o d) off text
DataAt-Apart f o d {off} {text} a h = record {
  bytes = read-Apart f o d off (length text + 1) a ∙ h.bytes;
  clean = h.clean;
}

pub PtrAt-write :
    (f : List ℕ) (off p : ℕ) → p ≤ ptr_max → PtrAt (write_at f off (print_pad ptr_sz p)) off p
PtrAt-write f off p h = record {
  pointer =
      ap (λ n. read_at (write_at f off (print_pad 7 p)) off n)
        (sym (length-print_pad 6 p (omega arith)))
      ∙ read-write_self f off (print_pad 7 p);
  small = h;
}

-- The state behind `_db_writeptr`.
abbrev pub pointed : ℕ → ℕ → Db → Db
pointed off p s = record s { idx = write_at s.idx off (print_pad ptr_sz p); idxpos = off + ptr_sz }

pub writeptr_lem :
    (s : Db) (off p : ℕ) → p ≤ ptr_max → db_writeptr off (pos p) s ≡ done tt (pointed off p s)
unfolding db_writeptr
writeptr_lem s off p h = ground (arith, length-print_pad 6 p (omega arith))

-- The bytes that `_db_writeidx` writes.
abbrev pub record_bytes : ℕ → List ℕ → ℕ → ℕ → List ℕ
record_bytes p key datoff datlen =
    print_pad 7 p
    ++ (print_pad 4 (length (index_text key datoff datlen)) ++ index_text key datoff datlen)

-- A middle part of what was written is read back.
read-write_slice :
    (f : List ℕ) (o i n : ℕ) (a b c : List ℕ)
    → length a ≡ i
    → length b ≡ n
    → read_at (write_at f o (a ++ (b ++ c))) (o + i) n ≡ b
read-write_slice f o i n a b c ha hb =
    read-write_part f o i n (a ++ (b ++ c))
      (omega (arith, length-append a (b ++ c), length-append b c))
    ∙ rw (← ha, ← hb) (rw (drop-append a (b ++ c)) (take-append b c))

module _ (f : List ℕ) (at p : ℕ) (key : List ℕ) (datoff datlen : ℕ) (small : p ≤ ptr_max) where
  abbrev text : List ℕ
  text = index_text key datoff datlen

  abbrev written : List ℕ
  written = write_at f at (record_bytes p key datoff datlen)

  pub PtrAt-record : PtrAt written at p
  PtrAt-record = record {
    pointer =
        ap (λ o. read_at written o 7) (omega arith)
        ∙ read-write_slice f at 0 7 [] (print_pad 7 p) (print_pad 4 (length text) ++ text) refl
            (length-print_pad 6 p (omega arith));
    small = small;
  }

  pub length-record_bytes :
      Fits key datoff datlen → length (record_bytes p key datoff datlen) ≡ 11 + length text
  length-record_bytes fits = omega (
    arith,
    length-append (print_pad 7 p) (print_pad 4 (length text) ++ text),
    length-append (print_pad 4 (length text)) text,
    length-print_pad 6 p (omega arith),
    length-print_pad 3 (length text) (omega (arith, fits.max_length)),
  )

  regroup :
      record_bytes p key datoff datlen
      ≡ (print_pad 7 p ++ print_pad 4 (length text)) ++ (text ++ [])
  regroup =
      sym (append_assoc (print_pad 7 p) (print_pad 4 (length text)) text)
      ∙ ap (λ l. (print_pad 7 p ++ print_pad 4 (length text)) ++ l) (sym (append-nil text))

  pub EntryAt-record : IsKey key → Fits key datoff datlen → EntryAt written at key datoff datlen
  EntryAt-record is_key fits = record {
    size =
        read-write_slice f at 7 4 (print_pad 7 p) (print_pad 4 (length text)) text
          (length-print_pad 6 p (omega arith))
          (length-print_pad 3 (length text) (omega (arith, fits.max_length)));
    body =
        ap (λ d. read_at (write_at f at d) (at + 11) (length text)) regroup
        ∙ read-write_slice f at 11 (length text) (print_pad 7 p ++ print_pad 4 (length text)) text
            []
            (omega (
              arith,
              length-append (print_pad 7 p) (print_pad 4 (length text)),
              length-print_pad 6 p (omega arith),
              length-print_pad 3 (length text) (omega (arith, fits.max_length)),
            ))
            refl;
    is_key = is_key;
    fits = fits;
  }

-- A data record is read back from where it was written.
pub DataAt-write :
    (f : List ℕ) (off : ℕ) (text : List ℕ)
    → All (Ne 0) text
    → DataAt (write_at f off (text ++ newline ∷ [])) off text
DataAt-write f off text clean = record {
  bytes =
      ap (λ n. read_at (write_at f off (text ++ newline ∷ [])) off n)
        (sym (length-append text (newline ∷ [])))
      ∙ read-write_self f off (text ++ newline ∷ []);
  clean = clean;
}
