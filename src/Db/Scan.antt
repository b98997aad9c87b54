-- ===== src/Db/Scan.antt =====
-- Opening a data base and reading it record by record: `_db_alloc`, `db_open`, `db_rewind` and
-- `db_nextrec` of db/db.c.
use apue_learning.Common.{
  ℕ, zero, suc, ◌+◌, ◌*◌, Bool, true, false, ◌&&◌, List, [], ◌∷◌, ◌++◌, Option, none, some, ℤ, pos,
  negsuc, ◌==◌, if◌then◌else◌, length,
}
use apue_learning.CString.{print_pad}
use apue_learning.Bytes.{write_at}
use apue_learning.Process.{Prog, Run, done, out_of_fuel, ◌>>=◌, ◌>>◌, pure, modify}
use apue_learning.Db.{
  Db, Counts, no_error, index_file, lock, unlock, inc, space, newline, ptr_sz, hash_off, nhash_def,
  free_off,
}
use apue_learning.Db.Index.{db_readidx}
use apue_learning.Db.Data.{db_readdat}

abbrev zero_counts : Counts
zero_counts = record {
  delok = 0;
  delerr = 0;
  fetchok = 0;
  fetcherr = 0;
  nextrec = 0;
  stor1 = 0;
  stor2 = 0;
  stor3 = 0;
  stor4 = 0;
  storerr = 0;
}

-- `_db_alloc`, and the two files that `db_open` opens.
unfoldable pub db_alloc : List ℕ → List ℕ → Db
db_alloc idx dat = record {
  idx = idx;
  dat = dat;
  idxpos = 0;
  idxbuf = [];
  datbuf = [];
  idxoff = 0;
  idxlen = 0;
  datoff = 0;
  datlen = 0;
  ptrval = pos 0;
  ptroff = 0;
  chainoff = 0;
  hashoff = 0;
  nhash = 0;
  counts = zero_counts;
  errno = no_error;
  held = [];
}

repeat : ℕ → List ℕ → List ℕ
repeat zero s = []
repeat (suc n) s = s ++ repeat n s

-- The free list pointer and the hash table, all 0, and a newline.
unfoldable pub empty_index : List ℕ
unfolding repeat
empty_index = repeat (nhash_def + 1) (print_pad ptr_sz 0) ++ newline ∷ []

-- `db_rewind`
unfoldable pub db_rewind : Prog Db (Unit {0})
db_rewind =
    modify
      λ db. let start = (db.nhash + 1) * ptr_sz + 1 in record db { idxoff = start; idxpos = start }

-- The initialisation under the lock of the whole index file.
init_index : Prog Db (Unit {0})
init_index = do
  lock index_file 0 0 true
  modify λ db.
      if length db.idx == 0
      then record db { idx = write_at db.idx db.idxpos empty_index; idxpos = length empty_index }
      else db
  unlock index_file 0 0

-- `db_open`. `files` are the contents of the index file and the data file as `open` left them,
-- `none` if one of them could not be opened; `fresh` is the test for `O_CREAT | O_TRUNC`.
unfoldable pub db_open : Option (List ℕ × List ℕ) → Bool → Option (Run Db (Unit {0}))
unfolding db_alloc init_index
db_open none fresh = none
db_open (some (idx, dat)) fresh =
    let db = record (db_alloc idx dat) { nhash = nhash_def; hashoff = hash_off } in
    some (if fresh then (do init_index; db_rewind) db else db_rewind db)

-- A record whose key is all blank is deleted, and so is an empty key.
unfoldable pub all_blank : List ℕ → Bool
all_blank [] = true
all_blank (c ∷ cs) = c == space && all_blank cs

abbrev pub is_negative : ℤ → Bool
is_negative (pos _) = false
is_negative (negsuc _) = true

-- The loop of `db_nextrec`: `false` at the end of the index file.
unfoldable pub nextrec_loop : ℕ → Prog Db Bool
unfolding all_blank
nextrec_loop zero = λ _. out_of_fuel
nextrec_loop (suc f) = do
  next ← db_readidx (pos 0)
  λ db. elim (is_negative next) [
    | true ↦ done false db
    | false ↦ elim (all_blank db.idxbuf) [ true ↦ nextrec_loop f db | false ↦ done true db ]
  ]

unfoldable pub nextrec_found : Bool → Prog Db (Option (List ℕ × List ℕ))
nextrec_found false = pure none
nextrec_found true = do
  key ← λ db. pure db.idxbuf db
  text ← db_readdat
  modify λ db. record db { counts = record (db.counts) { nextrec = inc db.counts.nextrec } }
  pure (some (key, text))

-- `db_nextrec`: the key and the data of the next record that is not deleted. Each round but the
-- last reads at least one byte of the index file.
unfoldable pub db_nextrec : Prog Db (Option (List ℕ × List ℕ))
unfolding nextrec_loop nextrec_found
db_nextrec = do
  lock index_file free_off 1 false
  found ← λ db. nextrec_loop (suc (length db.idx)) db
  ptr ← nextrec_found found
  unlock index_file free_off 1
  pure ptr
