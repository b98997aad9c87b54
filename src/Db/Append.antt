-- ===== src/Db/Append.antt =====
-- `append_record`: the part of `db_store` that adds a record at the ends of the two files.
use apue_learning.Common.{
  true, leb, ◌&&◌, ◌*◌, ℕ, ◌+◌, ◌≤◌, ◌≡◌, refl, List, [], ◌∷◌, ◌++◌, pos, arith, length, All,
}
use apue_learning.CString.{print_pad}
use apue_learning.CString.Decimal.{Ne}
use apue_learning.Bytes.{write_at}
use apue_learning.Process.{done}
use apue_learning.Db.{
  release, idxlen_min, idxlen_max, index_file, data_file, Db, ptr_sz, ptr_max, newline, seek_end,
  lock, unlock,
}
use apue_learning.Db.Index.{db_writeidx, index_text}
use apue_learning.Db.Data.{db_writedat}
use apue_learning.Db.Store.{append_record}
use apue_learning.Db.Record.{IsKey, Fits}
use apue_learning.Db.Record.Write.{pointed, record_bytes, writeptr_lem}

-- What an append needs: room for the pointers, and a record that fits.
pub record CanAppend (key text : List ℕ) (p : ℕ) (s : Db) : Type 0 where
  pub small : p ≤ ptr_max
  pub room : length s.idx ≤ ptr_max
  pub is_key : IsKey key
  pub fits : Fits key (length s.dat) (length text + 1)
  pub clean : All (Ne 0) text

-- What it leaves behind.
pub record Appended (key text : List ℕ) (p : ℕ) (s t : Db) : Type 0 where
  pub idx :
      t.idx
      ≡ write_at
          (write_at s.idx (length s.idx) (record_bytes p key (length s.dat) (length text + 1)))
          s.chainoff
          (print_pad ptr_sz (length s.idx))
  pub dat : t.dat ≡ write_at s.dat (length s.dat) (text ++ newline ∷ [])
  pub chain : t.chainoff ≡ s.chainoff
  pub table : t.hashoff ≡ s.hashoff
  pub buckets : t.nhash ≡ s.nhash

plus_zero : (n : ℕ) → n + 0 ≡ n
plus_zero n = omega arith

in_range : (a b c : ℕ) → a ≤ b → b ≤ c → (leb a b && leb b c) ≡ true
in_range a b c h k = ground arith

small_enough : (a b : ℕ) → a ≤ b → leb a b ≡ true
small_enough a b h = ground arith

-- The states behind `_db_writedat` and `_db_writeidx`.
abbrev pub data_added : List ℕ → Db → Db
data_added text s = record s {
  dat = write_at s.dat (length s.dat + 0) (text ++ newline ∷ []);
  datoff = length s.dat + 0;
  datlen = length text + 1;
  held =
      release data_file 0 0
        (record { file = data_file; start = 0; len = 0; exclusive = true } ∷ s.held);
}

pub writedat_end_lem :
    (text : List ℕ) (s : Db) → db_writedat text 0 seek_end s ≡ done tt (data_added text s)
unfolding db_writedat lock unlock
writedat_end_lem text s = refl

abbrev pub index_added : List ℕ → ℕ → Db → Db
index_added key p s =
    let from = (s.nhash + 1) * ptr_sz + 1 in
    let b = record_bytes p key s.datoff s.datlen in
    record s {
      idx = write_at s.idx (length s.idx + 0) b;
      idxpos = length s.idx + 0 + length b;
      idxbuf = index_text key s.datoff s.datlen;
      idxoff = length s.idx + 0;
      ptrval = pos p;
      held =
          release index_file from 0
            (record { file = index_file; start = from; len = 0; exclusive = true } ∷ s.held);
    }

pub writeidx_end_lem :
    (key : List ℕ) (p : ℕ) (s : Db)
    → p ≤ ptr_max
    → Fits key s.datoff s.datlen
    → db_writeidx key 0 seek_end (pos p) s ≡ done tt (index_added key p s)
unfolding db_writeidx lock unlock
writeidx_end_lem key p s small fits = rw (small_enough p ptr_max small) (
    rw (
      in_range idxlen_min (length (index_text key s.datoff s.datlen)) idxlen_max fits.min_length
        fits.max_length))

-- The state behind `append_record`.
abbrev pub appended : List ℕ → List ℕ → ℕ → Db → Db
appended key text p s =
    let t = index_added key p (data_added text s) in pointed t.chainoff t.idxoff t

module _ (key text : List ℕ) (p : ℕ) (s : Db) (can : CanAppend key text p s) where
  pub append_lem : append_record key text (pos p) s ≡ done tt (appended key text p s)
  unfolding append_record
  append_lem = rw (writedat_end_lem text s) (
      rw (writeidx_end_lem key p (data_added text s) can.small fits') (
        rw (
          writeptr_lem (index_added key p (data_added text s)) s.chainoff (length s.idx + 0)
            (omega (arith, can.room)))))
    where
      fits' : Fits key (length s.dat + 0) (length text + 1)
      fits' = rw (plus_zero (length s.dat)) can.fits

  pub append-Appended : Appended key text p s (appended key text p s)
  append-Appended = record {
    idx = rw (plus_zero (length s.idx), plus_zero (length s.dat));
    dat = rw (plus_zero (length s.dat));
    chain = refl;
    table = refl;
    buckets = refl;
  }
