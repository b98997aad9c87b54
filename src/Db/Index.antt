-- ===== src/Db/Index.antt =====
-- Chain pointers and index records: `_db_readptr`, `_db_writeptr`, `_db_readidx` and
-- `_db_writeidx` of db/db.c.
use apue_learning.Common.{
  ℕ, zero, suc, ◌+◌, ◌-◌, ◌*◌, Bool, true, false, ◌&&◌, List, [], ◌∷◌, ◌++◌, Option, none, some, ℤ,
  pos, negsuc, ltb, leb, ◌==◌, if◌then◌else◌, length, take, drop, get_elem?,
}
use apue_learning.CString.{c_str, atol, print_dec, print_pad, cut}
use apue_learning.Bytes.{read_at, write_at}
use apue_learning.Process.{Prog, done, ended, ◌>>◌, pure, modify, end_with, check}
use apue_learning.Db.{
  Db, index_file, Whence, seek_set, seek_end, lock, unlock, ptr_sz, ptr_max, idxlen_sz, idxlen_min,
  idxlen_max, datlen_max, sep, newline,
}

-- `_db_readptr`. A read moves the file offset by what it got.
unfoldable pub db_readptr : ℕ → Prog Db ℤ
db_readptr offset db =
    let b = read_at db.idx offset ptr_sz in
    let db' = record db { idxpos = offset + length b } in
    if length b == ptr_sz
    then done (atol (c_str b)) db'
    else ended "_db_readptr: read error of ptr field" db'

-- `_db_writeptr`
unfoldable pub db_writeptr : ℕ → ℤ → Prog Db (Unit {0})
db_writeptr offset (negsuc _) = end_with "_db_writeptr: invalid ptr"
db_writeptr offset (pos ptrval) = do
  check (leb ptrval ptr_max) "_db_writeptr: invalid ptr"
  modify λ db.
      let b = print_pad ptr_sz ptrval in
      record db { idx = write_at db.idx offset b; idxpos = offset + length b }

-- The starting offset and the length of the data record; both were text in the index record.
set_datoff : ℤ → Prog Db (Unit {0})
set_datoff (negsuc _) = end_with "_db_readidx: starting offset < 0"
set_datoff (pos n) = modify λ db. record db { datoff = n }

-- `datlen` is unsigned, so that a negative number counts as one that is too large.
set_datlen : ℤ → Prog Db (Unit {0})
set_datlen (negsuc _) = end_with "_db_readidx: invalid length"
set_datlen (pos n) = do
  modify λ db. record db { datlen = n }
  check (ltb 0 n && leb n datlen_max) "_db_readidx: invalid length"

-- The two fields behind the key.
set_fields : List ℕ → List ℕ → List ℕ → Prog Db (Unit {0})
unfolding set_datoff set_datlen
set_fields key start len = do
  modify λ db. record db { idxbuf = key }
  set_datoff (atol start)
  set_datlen (atol len)

-- The three searches for a separator; each is overwritten by a null byte, so that the key is what
-- is left at the front of `idxbuf`.
third_cut : List ℕ → List ℕ → List ℕ → Option (List ℕ × List ℕ) → Prog Db (Unit {0})
unfolding set_fields
third_cut key start len none = set_fields key start len
third_cut key start len (some _) = end_with "_db_readidx: too many separators"

second_cut : List ℕ → Option (List ℕ × List ℕ) → Prog Db (Unit {0})
unfolding third_cut
second_cut key none = end_with "_db_readidx: missing second separator"
second_cut key (some (start, len)) = third_cut key start len (cut sep len)

first_cut : Option (List ℕ × List ℕ) → Prog Db (Unit {0})
unfolding second_cut
first_cut none = end_with "_db_readidx: missing first separator"
first_cut (some (key, after_key)) = second_cut key (cut sep after_key)

unfoldable pub split_record : List ℕ → Prog Db (Unit {0})
unfolding first_cut
split_record text = first_cut (cut sep text)

-- The sanity check of the last byte.
check_newline : Option ℕ → Prog Db (Unit {0})
check_newline none = end_with "_db_readidx: missing newline"
check_newline (some c) = check (c == newline) "_db_readidx: missing newline"

-- The rest of an index record, once its length is known.
unfoldable pub read_record : ℕ → Prog Db (Unit {0})
unfolding check_newline
read_record n db =
    let b = read_at db.idx db.idxpos n in
    let db' = record db { idxlen = n; idxpos = db.idxpos + length b } in
    (do
      check (length b == n) "_db_readidx: read error of index record"
      check_newline (get_elem? b (n - 1))
      split_record (c_str (take (n - 1) b)))
      db'

unfoldable pub read_length : ℤ → Prog Db (Unit {0})
read_length (negsuc _) = end_with "_db_readidx: invalid length"
read_length (pos n) =
    if leb idxlen_min n && leb n idxlen_max
    then read_record n
    else end_with "_db_readidx: invalid length"

-- `_db_readidx` behind its `lseek`: `sequential` is the test `offset == 0`.
unfoldable pub readidx_at : Bool → ℕ → Prog Db ℤ
readidx_at sequential start db =
    let b = read_at db.idx start (ptr_sz + idxlen_sz) in
    let db' = record db { idxoff = start; idxpos = start + length b } in
    if length b == ptr_sz + idxlen_sz
    then (do
      modify λ s. record s { ptrval = atol (c_str (take ptr_sz b)) }
      read_length (atol (c_str (drop ptr_sz b)))
      λ s. done s.ptrval s)
        db'
    else if sequential && length b == 0
    then done (negsuc 0) db'
    else ended "_db_readidx: readv error of index record" db'

-- `_db_readidx`
unfoldable pub db_readidx : ℤ → Prog Db ℤ
db_readidx (negsuc _) = end_with "_db_readidx: lseek error"
db_readidx (pos zero) = λ db. readidx_at true db.idxpos db
db_readidx (pos (suc n)) = readidx_at false (suc n)

-- What `_db_writeidx` prints into `idxbuf`.
unfoldable pub index_text : List ℕ → ℕ → ℕ → List ℕ
index_text key datoff datlen =
    key ++ sep ∷ (print_dec datoff ++ sep ∷ (print_dec datlen ++ newline ∷ []))

-- Where a record goes, and the lock that an append takes.
unfoldable pub index_lock : Whence → Prog Db (Unit {0})
index_lock seek_set = pure tt
index_lock seek_end = λ db. lock index_file ((db.nhash + 1) * ptr_sz + 1) 0 true db

unfoldable pub index_unlock : Whence → Prog Db (Unit {0})
index_unlock seek_set = pure tt
index_unlock seek_end = λ db. unlock index_file ((db.nhash + 1) * ptr_sz + 1) 0 db

abbrev pub target : Whence → ℕ → List ℕ → ℕ
target seek_set offset f = offset
target seek_end offset f = length f + offset

-- The `lseek` and the `writev` of the two parts.
unfoldable pub put_index : ℕ → Whence → ℕ → List ℕ → Prog Db (Unit {0})
put_index offset whence ptrval text = modify λ db.
    let at = target whence offset db.idx in
    let b = print_pad ptr_sz ptrval ++ (print_pad idxlen_sz (length text) ++ text) in
    record db { idx = write_at db.idx at b; idxoff = at; idxpos = at + length b }

-- `_db_writeidx`
unfoldable pub db_writeidx : List ℕ → ℕ → Whence → ℤ → Prog Db (Unit {0})
unfolding index_lock index_unlock put_index
db_writeidx key offset whence (negsuc _) = end_with "_db_writeidx: invalid ptr"
db_writeidx key offset whence (pos ptrval) = do
  modify λ db. record db { ptrval = pos ptrval }
  check (leb ptrval ptr_max) "_db_writeidx: invalid ptr"
  λ db.
      let text = index_text key db.datoff db.datlen in
      (do
        modify λ s. record s { idxbuf = text }
        check (leb idxlen_min (length text) && leb (length text) idxlen_max)
            "_db_writeidx: invalid length"
        index_lock whence
        put_index offset whence ptrval text
        index_unlock whence)
        db
