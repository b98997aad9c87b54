-- ===== src/Db/Delete.antt =====
-- Deleting a record: `_db_dodelete` and `db_delete` of db/db.c.
use apue_learning.Common.{ℕ, ◌-◌, Bool, true, false, List, map, ℤ, pos, negsuc, replicate}
use apue_learning.Process.{Prog, ◌>>=◌, ◌>>◌, pure, modify}
use apue_learning.Db.{Db, index_file, lock, unlock, inc, space, free_off, seek_set}
use apue_learning.Db.Index.{db_readptr, db_writeptr, db_writeidx}
use apue_learning.Db.Data.{db_writedat}
use apue_learning.Db.Find.{db_find_and_lock, unlock_chain}

-- The data buffer and the key are overwritten by blanks.
unfoldable pub blank_buffers : Prog Db (Unit {0})
blank_buffers = modify λ db. record db {
  datbuf = replicate (db.datlen - 1) space;
  idxbuf = map (λ _. space) db.idxbuf;
}

-- `_db_dodelete`
unfoldable pub db_dodelete : Prog Db (Unit {0})
unfolding blank_buffers
db_dodelete = do
  blank_buffers
  lock index_file free_off 1 true
  λ db. db_writedat db.datbuf db.datoff seek_set db
  freeptr ← db_readptr free_off
  saveptr ← λ db. pure db.ptrval db
  λ db. db_writeidx db.idxbuf db.idxoff seek_set freeptr db
  λ db. db_writeptr free_off (pos db.idxoff) db
  λ db. db_writeptr db.ptroff saveptr db
  unlock index_file free_off 1

unfoldable pub delete_found : Bool → Prog Db ℤ
delete_found true = do
  db_dodelete
  modify λ db. record db { counts = record (db.counts) { delok = inc db.counts.delok } }
  pure (pos 0)
delete_found false = do
  modify λ db. record db { counts = record (db.counts) { delerr = inc db.counts.delerr } }
  pure (negsuc 0)

-- `db_delete`: 0 if the record was found, else -1.
unfoldable pub db_delete : List ℕ → Prog Db ℤ
unfolding delete_found unlock_chain
db_delete key = do found ← db_find_and_lock key true; rc ← delete_found found; unlock_chain; pure rc
