-- ===== src/Db/Store.antt =====
-- Storing a record: `_db_findfree` and `db_store` of db/db.c.
use apue_learning.Common.{
  ℕ, zero, suc, ◌+◌, Bool, true, false, ◌&&◌, List, ℤ, pos, negsuc, leb, ◌==◌, if◌then◌else◌,
  length,
}
use apue_learning.Process.{Prog, out_of_fuel, ◌>>=◌, ◌>>◌, pure, modify, check}
use apue_learning.Db.{
  Db, Counts, index_file, lock, unlock, inc, free_off, seek_set, seek_end, datlen_min, datlen_max,
  einval, enoent,
}
use apue_learning.Db.Index.{db_readptr, db_writeptr, db_readidx, db_writeidx}
use apue_learning.Db.Data.{db_writedat}
use apue_learning.Db.Find.{db_find_and_lock, unlock_chain, to_offset}
use apue_learning.Db.Delete.{db_dodelete}

-- The `flag` argument: the three that the header names, and any other value.
pub data Flag : Type 0 where
  insert replace store : Flag
  other : ℕ → Flag

-- The walk along the free list, for a record of just these sizes.
unfoldable pub findfree_loop : ℕ → ℕ → ℕ → ℕ → ℤ → Prog Db Bool
findfree_loop zero keylen datlen saveoffset offset = λ _. out_of_fuel
findfree_loop (suc f) keylen datlen saveoffset (pos zero) = pure false
findfree_loop (suc f) keylen datlen saveoffset offset = do
  nextoffset ← db_readidx offset
  λ db. elim (length db.idxbuf == keylen && db.datlen == datlen) [
    | true ↦ (do db_writeptr saveoffset db.ptrval; pure true) db
    | false ↦ findfree_loop f keylen datlen (to_offset offset) nextoffset db
  ]

-- `_db_findfree`: whether a record was found and taken off the free list.
unfoldable pub db_findfree : ℕ → ℕ → Prog Db Bool
unfolding findfree_loop
db_findfree keylen datlen = do
  lock index_file free_off 1 true
  offset ← db_readptr free_off
  rc ← λ db. findfree_loop (suc (length db.idx)) keylen datlen free_off offset db
  unlock index_file free_off 1
  pure rc

count : (Counts → Counts) → Prog Db (Unit {0})
count f = modify λ db. record db { counts = f db.counts }

unfoldable pub count_storerr : Prog Db (Unit {0})
unfolding count
count_storerr = count λ c. record c { storerr = inc c.storerr }

-- The new record goes to the ends of both files and to the front of its chain.
unfoldable pub append_record : List ℕ → List ℕ → ℤ → Prog Db (Unit {0})
append_record key text ptrval = do
  db_writedat text 0 seek_end
  db_writeidx key 0 seek_end ptrval
  λ db. db_writeptr db.chainoff (pos db.idxoff) db

-- The record that `_db_findfree` chose is overwritten and goes to the front of its chain.
unfoldable pub reuse_record : List ℕ → List ℕ → ℤ → Prog Db (Unit {0})
reuse_record key text ptrval = do
  λ db. db_writedat text db.datoff seek_set db
  λ db. db_writeidx key db.idxoff seek_set ptrval db
  λ db. db_writeptr db.chainoff (pos db.idxoff) db

unfoldable pub store_free : Bool → List ℕ → List ℕ → ℤ → Prog Db ℤ
unfolding count
store_free false key text ptrval = do
  append_record key text ptrval
  count λ c. record c { stor1 = inc c.stor1 }
  pure (pos 0)
store_free true key text ptrval = do
  reuse_record key text ptrval
  count λ c. record c { stor2 = inc c.stor2 }
  pure (pos 0)

-- The key is not in the data base.
unfoldable pub store_new : Flag → List ℕ → List ℕ → Prog Db ℤ
unfolding count_storerr store_free
store_new replace key text = do
  count_storerr
  modify λ db. record db { errno = enoent }
  pure (negsuc 0)
store_new _ key text = do
  ptrval ← λ db. db_readptr db.chainoff db
  free ← db_findfree (length key) (length text + 1)
  store_free free key text ptrval

-- The key is in the data base, and the DB structure describes its record.
unfoldable pub store_old : Flag → List ℕ → List ℕ → Prog Db ℤ
unfolding count_storerr count
store_old insert key text = do count_storerr; pure (pos 1)
store_old _ key text = λ db.
    if length text + 1 == db.datlen
    then (do
      db_writedat text db.datoff seek_set
      count λ c. record c { stor4 = inc c.stor4 }
      pure (pos 0))
        db
    else (do
      db_dodelete
      ptrval ← λ s. db_readptr s.chainoff s
      append_record key text ptrval
      count λ c. record c { stor3 = inc c.stor3 }
      pure (pos 0))
        db

unfoldable pub store_found : Bool → Flag → List ℕ → List ℕ → Prog Db ℤ
unfolding store_new store_old
store_found true flag key text = store_old flag key text
store_found false flag key text = store_new flag key text

-- `db_store`: 0 if it stored, 1 if the record exists and may not be replaced, -1 on error.
unfoldable pub db_store : List ℕ → List ℕ → Flag → Prog Db ℤ
unfolding store_found unlock_chain
db_store key text (other _) = do modify λ db. record db { errno = einval }; pure (negsuc 0)
db_store key text flag = do
  check (leb datlen_min (length text + 1) && leb (length text + 1) datlen_max)
      "db_store: invalid data length"
  found ← db_find_and_lock key true
  rc ← store_found found flag key text
  unlock_chain
  pure rc
