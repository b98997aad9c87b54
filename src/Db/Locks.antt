-- ===== src/Db/Locks.antt =====
-- Record locks across the functions of db/db.c.
pub mod Ops
pub mod Idle
use apue_learning.Common.{
  ℕ, zero, suc, ◌+◌, ◌≤◌, ◌<◌, ◌≡◌, refl, Bool, true, false, List, [], ◌∷◌, ℤ, pos, negsuc, arith,
  Bool-cases, length, replicate, map, ◌-◌, ◌==◌, ◌&&◌, bytes_eq, inl, inr,
}
use apue_learning.Process.{Prog, Run, done, ended, out_of_fuel}
use apue_learning.Process.Ensures.{
  Ensures, returned, stopped, unfinished, ensures, Ensures-bind, Ensures-mono,
}
use apue_learning.Db.{
  Db, Lock, space, free_off, index_file, lock, unlock, Whence, seek_set, seek_end,
}
use apue_learning.Db.Index.{
  db_readptr, db_writeptr, db_readidx, db_writeidx, readidx_at, read_length, read_record,
  split_record,
}
use apue_learning.Db.Data.{db_readdat, db_writedat}
use apue_learning.Db.Find.{find_loop, db_find_and_lock, db_fetch, unlock_chain, to_offset}
use apue_learning.Db.Delete.{db_dodelete, db_delete, blank_buffers}
use apue_learning.Db.Store.{
  Flag, insert, replace, store, other, findfree_loop, db_findfree, append_record, reuse_record,
  store_free, store_new, store_old, store_found, db_store, count_storerr,
}
use apue_learning.Db.Scan.{is_negative, all_blank, nextrec_loop, db_nextrec}

-- The process holds just these locks, and these fields say where the chain and the table are.
pub record Holds (hs : List Lock) (c o n : ℕ) (s : Db) : Type 0 where
  pub held : s.held ≡ hs
  pub chain : s.chainoff ≡ c
  pub table : s.hashoff ≡ o
  pub buckets : s.nhash ≡ n

abbrev pub Keeps : {A : Type 0} → (Db → Type 0) → Prog Db A → Type 0
Keeps P m = (s : Db) → P s → Ensures (λ _ t. P t) (m s)

module _ {hs : List Lock} {c o n : ℕ} where
  pub readptr-Holds : (off : ℕ) → Keeps (Holds hs c o n) (db_readptr off)
  unfolding db_readptr
  readptr-Holds off s h = ensures _ (λ a t e. ground arith)

  pub writeptr-Holds : (off : ℕ) (p : ℤ) → Keeps (Holds hs c o n) (db_writeptr off p)
  unfolding db_writeptr
  writeptr-Holds off (negsuc p) s h = stopped
  writeptr-Holds off (pos p) s h = ensures _ (λ a t e. ground arith)

  pub readidx_at-Holds : (b : Bool) (off : ℕ) → Keeps (Holds hs c o n) (readidx_at b off)
  unfolding readidx_at read_length read_record split_record
  readidx_at-Holds b off s h = ensures _ (λ a t e. ground arith)

  pub readdat-Holds : Keeps (Holds hs c o n) db_readdat
  unfolding db_readdat
  readdat-Holds s h = ensures _ (λ a t e. ground arith)

  pub readidx-Holds : (p : ℤ) → Keeps (Holds hs c o n) (db_readidx p)
  unfolding db_readidx
  readidx-Holds (negsuc p) s h = stopped
  readidx-Holds (pos zero) s h = readidx_at-Holds true s.idxpos s h
  readidx-Holds (pos (suc p)) s h = readidx_at-Holds false (suc p) s h

  pub find_loop-Holds : (f : ℕ) (key : List ℕ) (p : ℤ) → Keeps (Holds hs c o n) (find_loop f key p)
  unfolding find_loop
  find_loop-Holds zero key p s h = unfinished
  find_loop-Holds (suc f) key (pos zero) s h = returned h
  find_loop-Holds (suc f) key p s h = Ensures-bind (readidx-Holds p s h) λ next t ht.
      elim (Bool-cases (bytes_eq t.idxbuf key)) [
        | inl hit ↦ rw hit (returned ht)
        | inr miss ↦
            rw miss (find_loop-Holds f key next (record t { ptroff = to_offset p }) (keep ht))
      ]
    where
      keep : {t : Db} → Holds hs c o n t → Holds hs c o n (record t { ptroff = to_offset p })
      keep ht = record { held = ht.held; chain = ht.chain; table = ht.table; buckets = ht.buckets }

  pub findfree_loop-Holds :
      (f keylen datlen saved : ℕ) (p : ℤ)
      → Keeps (Holds hs c o n) (findfree_loop f keylen datlen saved p)
  unfolding findfree_loop
  findfree_loop-Holds zero k d saved p s h = unfinished
  findfree_loop-Holds (suc f) k d saved (pos zero) s h = returned h
  findfree_loop-Holds (suc f) k d saved p s h = Ensures-bind (readidx-Holds p s h) λ next t ht.
      elim (Bool-cases (length t.idxbuf == k && t.datlen == d)) [
        | inl hit ↦
            rw hit (Ensures-bind (writeptr-Holds saved t.ptrval t ht) (λ _ u hu. returned hu))
        | inr miss ↦ rw miss (findfree_loop-Holds f k d (to_offset p) next t ht)
      ]

  pub nextrec_loop-Holds : (f : ℕ) → Keeps (Holds hs c o n) (nextrec_loop f)
  unfolding nextrec_loop
  nextrec_loop-Holds zero s h = unfinished
  nextrec_loop-Holds (suc f) s h = Ensures-bind (readidx-Holds (pos 0) s h) λ next t ht.
      elim (Bool-cases (is_negative next)) [
        | inl end ↦ rw end (returned ht)
        | inr more ↦ rw more (elim (Bool-cases (all_blank t.idxbuf)) [
          | inl blank ↦ rw blank (nextrec_loop-Holds f t ht)
          | inr live ↦ rw live (returned ht)
        ])
      ]

  pub writedat_set-Holds :
      (text : List ℕ) (off : ℕ) → Keeps (Holds hs c o n) (db_writedat text off seek_set)
  unfolding db_writedat
  writedat_set-Holds text off s h = ensures _ (λ a t e. ground arith)

  pub writeidx_set-Holds :
      (key : List ℕ) (off : ℕ) (p : ℤ) → Keeps (Holds hs c o n) (db_writeidx key off seek_set p)
  unfolding db_writeidx
  writeidx_set-Holds key off (negsuc p) s h = stopped
  writeidx_set-Holds key off (pos p) s h = ensures _ (λ a t e. ground arith)
