-- ===== src/Db/Record.antt =====
-- What the bytes of the two files hold: an index record of db/db.c at an offset, a chain pointer,
-- and a data record.
pub mod Read
pub mod Write
use apue_learning.Common.{ℕ, ◌+◌, ◌≤◌, ◌<◌, ◌≡◌, List, [], ◌∷◌, ◌++◌, length, All}
use apue_learning.CString.{print_pad}
use apue_learning.CString.Decimal.{Ne}
use apue_learning.Bytes.{read_at}
use apue_learning.Db.{ptr_sz, ptr_max, idxlen_sz, idxlen_min, idxlen_max, datlen_max, sep, newline}
use apue_learning.Db.Index.{index_text}

-- A chain pointer field with the value `p`.
pub record PtrAt (f : List ℕ) (off p : ℕ) : Type 0 where
  pub pointer : read_at f off ptr_sz ≡ print_pad ptr_sz p
  pub small : p ≤ ptr_max

-- A key that an index record can hold.
pub record IsKey (key : List ℕ) : Type 0 where
  pub no_null : All (Ne 0) key
  pub no_sep : All (Ne sep) key

-- What `_db_writeidx` and `_db_readidx` demand of an index record.
pub record Fits (key : List ℕ) (datoff datlen : ℕ) : Type 0 where
  pub min_length : idxlen_min ≤ length (index_text key datoff datlen)
  pub max_length : length (index_text key datoff datlen) ≤ idxlen_max
  pub some_data : 0 < datlen
  pub max_data : datlen ≤ datlen_max

-- An index record behind its chain pointer: the length and the text.
pub record EntryAt (f : List ℕ) (off : ℕ) (key : List ℕ) (datoff datlen : ℕ) : Type 0 where
  pub size :
      read_at f (off + ptr_sz) idxlen_sz
      ≡ print_pad idxlen_sz (length (index_text key datoff datlen))
  pub body :
      read_at f (off + 11) (length (index_text key datoff datlen)) ≡ index_text key datoff datlen
  pub is_key : IsKey key
  pub fits : Fits key datoff datlen

pub record DataAt (f : List ℕ) (off : ℕ) (text : List ℕ) : Type 0 where
  pub bytes : read_at f off (length text + 1) ≡ text ++ newline ∷ []
  pub clean : All (Ne 0) text
