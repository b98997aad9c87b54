-- ===== src/Db/Record/Read.antt =====
-- `_db_readptr`, `_db_readidx` and `_db_readdat` return what the files hold.
use apue_learning.Common.{
  ℕ, zero, suc, ◌+◌, ◌-◌, ◌<◌, ◌≡◌, refl, sym, ap, ◌∙◌, false, List, [], ◌∷◌, ◌++◌, some, pos,
  arith, ==_refl, length, take, drop, get_elem?, All, All-append, length-append, take-append,
  drop-append, append_assoc, drop-drop, Bool,
}
use apue_learning.CString.{print_dec, print_pad}
use apue_learning.CString.Decimal.{
  Ne, atol-print_pad, atol-print_dec, length-print_pad, cut-append, cut-none, digits-Ne,
  digits-print_dec,
}
use apue_learning.CString.Clean.{c_str_clean, print_dec-clean, print_pad-clean}
use apue_learning.Bytes.{read_at}
use apue_learning.Process.{done}
use apue_learning.Db.{Db, ptr_sz, sep, newline}
use apue_learning.Db.Index.{
  db_readptr, db_readidx, readidx_at, read_length, read_record, split_record, index_text,
}
use apue_learning.Db.Data.{db_readdat, read_data}
use apue_learning.Db.Record.{PtrAt, IsKey, Fits, EntryAt, DataAt}

suc_add : (a b : ℕ) → suc a + b ≡ suc (a + b)
suc_add a b = omega arith

take-nil : (n : ℕ) → take {A = ℕ} n [] ≡ []
take-nil zero = refl
take-nil (suc n) = refl

take-add : (m n : ℕ) (l : List ℕ) → take (m + n) l ≡ take m l ++ take n (drop m l)
take-add zero n l = ap (λ k. take k l) (omega arith)
take-add (suc m) n [] = rw (suc_add m n) (sym (take-nil n))
take-add (suc m) n (x ∷ l) = rw (suc_add m n) (ap (λ r. x ∷ r) (take-add m n l))

read-add :
    (f : List ℕ) (off m n : ℕ) → read_at f off (m + n) ≡ read_at f off m ++ read_at f (off + m) n
unfolding read_at
read-add f off m n =
    take-add m n (drop off f) ∙ ap (λ l. take m (drop off f) ++ take n l) (drop-drop off m f)

take-append_eq : (n : ℕ) (a b : List ℕ) → length a ≡ n → take n (a ++ b) ≡ a
take-append_eq n a b h = rw (← h) (take-append a b)

drop-append_eq : (n : ℕ) (a b : List ℕ) → length a ≡ n → drop n (a ++ b) ≡ b
drop-append_eq n a b h = rw (← h) (drop-append a b)

-- The last element, in front of which the rest stands.
get_last : (a : List ℕ) (c : ℕ) → get_elem? (a ++ c ∷ []) (length a) ≡ some c
get_last [] c = refl
get_last (x ∷ a) c = get_last a c

pub readptr_lem :
    (s : Db) (off p : ℕ)
    → PtrAt s.idx off p
    → db_readptr off s ≡ done (pos p) (record s { idxpos = off + ptr_sz })
unfolding db_readptr
readptr_lem s off p h = rw h.pointer (
    rw
      (length-print_pad 6 p (omega arith), c_str_clean _ (print_pad-clean 7 p), atol-print_pad 7 p))

-- A record text that ends in a newline is handed to the search for the separators.
record_text :
    (s : Db) (n : ℕ) (a : List ℕ)
    → read_at s.idx s.idxpos n ≡ a ++ newline ∷ []
    → n ≡ length a + 1
    → All (Ne 0) a
    → read_record n s ≡ split_record a (record s { idxlen = n; idxpos = s.idxpos + n })
unfolding read_record
record_text s n a body len clean =
    rw (body, length-append a (newline ∷ []), ← len, ==_refl n)
      (rw (
        less_one,
        get_last a newline,
        take-append_eq (length a) a (newline ∷ []) refl,
        c_str_clean a clean,
      ))
  where
    less_one : n - 1 ≡ length a
    less_one = omega arith

length-header : (p n : ℕ) → p < 10000000 → n < 10000 → length (print_pad 7 p ++ print_pad 4 n) ≡ 11
length-header p n h k = omega (
  arith,
  length-append (print_pad 7 p) (print_pad 4 n),
  length-print_pad 6 p h,
  length-print_pad 3 n k,
)

module _ (key : List ℕ) (datoff datlen : ℕ) where
  abbrev pub described : ℕ → ℕ → Db → Db
  described off p s = record s {
    idxpos = off + 11 + length (index_text key datoff datlen);
    idxbuf = key;
    idxoff = off;
    idxlen = length (index_text key datoff datlen);
    datoff = datoff;
    datlen = datlen;
    ptrval = pos p;
  }

  -- the text without its newline
  abbrev fields : List ℕ
  fields = key ++ sep ∷ (print_dec datoff ++ sep ∷ print_dec datlen)

  text-fields : index_text key datoff datlen ≡ fields ++ newline ∷ []
  unfolding index_text
  text-fields = sym (
      append_assoc key (sep ∷ (print_dec datoff ++ sep ∷ print_dec datlen)) (newline ∷ [])
      ∙ ap (λ l. key ++ sep ∷ l)
          (append_assoc (print_dec datoff) (sep ∷ print_dec datlen) (newline ∷ [])))

  fields-clean : IsKey key → All (Ne 0) fields
  fields-clean k = All-append (Ne 0) key _ k.no_null (
    refl,
    All-append (Ne 0) (print_dec datoff) _ (print_dec-clean datoff) (refl, print_dec-clean datlen),
  )

  split_lem :
      (s : Db)
      → IsKey key
      → Fits key datoff datlen
      → split_record fields s
        ≡ done tt (record s { idxbuf = key; datoff = datoff; datlen = datlen })
  unfolding split_record
  split_lem s k f = rw (cut-append sep key (print_dec datoff ++ sep ∷ print_dec datlen) k.no_sep) (
      rw
        (cut-append sep (print_dec datoff) (print_dec datlen)
          (digits-Ne sep _ (omega arith) (digits-print_dec datoff)))
        (rw
          (cut-none sep (print_dec datlen)
            (digits-Ne sep _ (omega arith) (digits-print_dec datlen)))
          (rw (atol-print_dec datoff) (rw (atol-print_dec datlen) (ground arith)))))

  length-text : length (index_text key datoff datlen) ≡ length fields + 1
  length-text = rw text-fields (length-append fields (newline ∷ []))

  -- The body is read when `idxpos` is behind the two leading fields.
  record_lem :
      (s : Db) (off p : ℕ)
      → EntryAt s.idx off key datoff datlen
      → read_record
          (length (index_text key datoff datlen))
          (record s { idxoff = off; idxpos = off + 11; ptrval = pos p })
        ≡ done tt (described off p s)
  record_lem s off p h =
      record_text (record s { idxoff = off; idxpos = off + 11; ptrval = pos p })
        (length (index_text key datoff datlen)) fields (h.body ∙ text-fields) length-text
        (fields-clean h.is_key)
      ∙ split_lem
          (record s {
            idxoff = off;
            idxpos = off + 11 + length (index_text key datoff datlen);
            ptrval = pos p;
            idxlen = length (index_text key datoff datlen);
          })
          h.is_key h.fits

  header-eq :
      (s : Db) (off p : ℕ)
      → PtrAt s.idx off p
      → EntryAt s.idx off key datoff datlen
      → read_at s.idx off 11 ≡ print_pad 7 p ++ print_pad 4 (length (index_text key datoff datlen))
  header-eq s off p hp h = read-add s.idx off 7 4 ∙ rw (hp.pointer) (rw h.size)

  length_in_range :
      (s : Db)
      → Fits key datoff datlen
      → read_length (pos (length (index_text key datoff datlen))) s
        ≡ read_record (length (index_text key datoff datlen)) s
  unfolding read_length
  length_in_range s f = ground arith

  pub readidx_at_lem :
      (s : Db) (b : Bool) (off p : ℕ)
      → PtrAt s.idx off p
      → EntryAt s.idx off key datoff datlen
      → readidx_at b off s ≡ done (pos p) (described off p s)
  unfolding readidx_at
  readidx_at_lem s b off p hp h =
      let n = length (index_text key datoff datlen) in
      let small : p < 10000000 = omega (arith, hp.small) in
      let short : n < 10000 = omega (arith, h.fits.max_length) in
      let width = length-print_pad 6 p small in
      rw (header-eq s off p hp h) (
        rw
          (
            length-header p n small short,
            take-append_eq 7 (print_pad 7 p) (print_pad 4 n) width,
            drop-append_eq 7 (print_pad 7 p) (print_pad 4 n) width,
            c_str_clean _ (print_pad-clean 7 p),
            c_str_clean _ (print_pad-clean 4 n),
            atol-print_pad 7 p,
            atol-print_pad 4 n,
          )
          (rw (length_in_range _ h.fits) (rw (record_lem s off p h))))

  -- `_db_readidx` of a record at a positive offset, and of the next one for offset 0.
  pub readidx_lem :
      (s : Db) (off p : ℕ)
      → 0 < off
      → PtrAt s.idx off p
      → EntryAt s.idx off key datoff datlen
      → db_readidx (pos off) s ≡ done (pos p) (described off p s)
  unfolding db_readidx
  readidx_lem s zero p lt hp h = absurd (omega arith)
  readidx_lem s (suc off) p lt hp h = readidx_at_lem s false (suc off) p hp h

-- `_db_readdat` of a data record.
read_data_lem :
    (s : Db) (text : List ℕ)
    → DataAt s.dat s.datoff text
    → read_data (length text + 1) s ≡ done text (record s { datbuf = text })
unfolding read_data
read_data_lem s text h =
    rw (h.bytes, length-append text (newline ∷ []), ==_refl (length text + 1))
      (rw (
        less_one (length text),
        get_last text newline,
        take-append_eq (length text) text (newline ∷ []) refl,
        c_str_clean text h.clean,
      ))
  where
    less_one : (n : ℕ) → n + 1 - 1 ≡ n
    less_one n = omega arith

pub readdat_lem :
    (s : Db) (text : List ℕ)
    → s.datlen ≡ length text + 1
    → DataAt s.dat s.datoff text
    → db_readdat s ≡ done text (record s { datbuf = text })
unfolding db_readdat
readdat_lem s text len h = ap (λ n. read_data n s) len ∙ read_data_lem s text h
