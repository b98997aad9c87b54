-- ===== src/Db/Locks/Ops.antt =====
-- The functions of db/db.c that run under the lock of a hash chain keep just that lock.
use apue_learning.Common.{
  ℕ, suc, ◌+◌, ◌<◌, Bool, true, false, List, [], ◌∷◌, ℤ, pos, negsuc, arith, Bool-cases, length,
  replicate, map, ◌-◌, ◌==◌, inl, inr,
}
use apue_learning.Process.Ensures.{Ensures, returned, stopped, ensures, Ensures-bind}
use apue_learning.Db.{
  Db, Lock, space, free_off, index_file, lock, unlock, Whence, seek_set, seek_end,
}
use apue_learning.Db.Index.{db_writeidx}
use apue_learning.Db.Data.{db_writedat}
use apue_learning.Db.Delete.{db_dodelete, blank_buffers}
use apue_learning.Db.Store.{
  Flag, insert, replace, db_findfree, append_record, reuse_record, store_free, store_new, store_old,
}
use apue_learning.Db.Locks.{
  Holds, Keeps, readptr-Holds, writeptr-Holds, findfree_loop-Holds, writedat_set-Holds,
  writeidx_set-Holds,
}

-- The chain's lock, which `_db_find_and_lock` takes and its callers release.
abbrev pub chain_lock : ℕ → Bool → Lock
chain_lock c w = record { file = index_file; start = c; len = 1; exclusive = w }

abbrev pub free_lock : Bool → Lock
free_lock w = record { file = index_file; start = free_off; len = 1; exclusive = w }

module _ {w : Bool} {c o n : ℕ} (inside : 0 < c) where
  writedat-Holds :
      (text : List ℕ) (off : ℕ) (wh : Whence)
      → Keeps (Holds (chain_lock c w ∷ []) c o n) (db_writedat text off wh)
  unfolding db_writedat lock unlock
  writedat-Holds text off seek_set s h = ensures _ (λ a t e. ground arith)
  writedat-Holds text off seek_end s h = ensures _ (λ a t e. ground arith)

  writeidx-Holds :
      (key : List ℕ) (off : ℕ) (wh : Whence) (p : ℤ)
      → Keeps (Holds (chain_lock c w ∷ []) c o n) (db_writeidx key off wh p)
  unfolding db_writeidx lock unlock
  writeidx-Holds key off wh (negsuc p) s h = stopped
  writeidx-Holds key off seek_set (pos p) s h = ensures _ (λ a t e. ground arith)
  writeidx-Holds key off seek_end (pos p) s h = ensures _ (λ a t e. ground arith)

  pub take_free-Holds :
      (m : Bool) (s : Db)
      → Holds (chain_lock c w ∷ []) c o n s
      → Ensures
          (λ _ t. Holds (free_lock m ∷ chain_lock c w ∷ []) c o n t)
          (lock index_file free_off 1 m s)
  unfolding lock
  take_free-Holds m s h = returned (ground arith)

  pub release_free-Holds :
      (m : Bool) (s : Db)
      → Holds (free_lock m ∷ chain_lock c w ∷ []) c o n s
      → Ensures (λ _ t. Holds (chain_lock c w ∷ []) c o n t) (unlock index_file free_off 1 s)
  unfolding unlock
  release_free-Holds m s h = returned (ground arith)

  pub dodelete-Holds : Keeps (Holds (chain_lock c w ∷ []) c o n) db_dodelete
  unfolding db_dodelete blank_buffers
  dodelete-Holds s h = Ensures-bind (take_free-Holds true _ (blanked s h)) λ _ s1 h1.
      Ensures-bind (writedat_set-Holds s1.datbuf s1.datoff s1 h1) λ _ s2 h2.
        Ensures-bind (readptr-Holds free_off s2 h2) λ freeptr s3 h3.
          Ensures-bind (writeidx_set-Holds s3.idxbuf s3.idxoff freeptr s3 h3) λ _ s4 h4.
            Ensures-bind (writeptr-Holds free_off (pos s4.idxoff) s4 h4) λ _ s5 h5.
              Ensures-bind (writeptr-Holds s5.ptroff s3.ptrval s5 h5)
                λ _ s6 h6. release_free-Holds true s6 h6
    where
      blanked :
          (t : Db)
          → Holds (chain_lock c w ∷ []) c o n t
          → Holds (chain_lock c w ∷ []) c o n (record t {
            datbuf = replicate (t.datlen - 1) space;
            idxbuf = map (λ _. space) t.idxbuf;
          })
      blanked t ht = record {
        held = ht.held;
        chain = ht.chain;
        table = ht.table;
        buckets = ht.buckets;
      }

  findfree-Holds : (k d : ℕ) → Keeps (Holds (chain_lock c w ∷ []) c o n) (db_findfree k d)
  unfolding db_findfree
  findfree-Holds k d s h = Ensures-bind (take_free-Holds true s h) λ _ s1 h1.
      Ensures-bind (readptr-Holds free_off s1 h1) λ p s2 h2.
        Ensures-bind (findfree_loop-Holds (suc (length s2.idx)) k d free_off p s2 h2)
          λ rc s3 h3. Ensures-bind (release_free-Holds true s3 h3) λ _ s4 h4. returned h4

  append-Holds :
      (key text : List ℕ) (p : ℤ)
      → Keeps (Holds (chain_lock c w ∷ []) c o n) (append_record key text p)
  unfolding append_record
  append-Holds key text p s h = Ensures-bind (writedat-Holds text 0 seek_end s h) λ _ s1 h1.
      Ensures-bind (writeidx-Holds key 0 seek_end p s1 h1)
        λ _ s2 h2. writeptr-Holds s2.chainoff (pos s2.idxoff) s2 h2

  reuse-Holds :
      (key text : List ℕ) (p : ℤ)
      → Keeps (Holds (chain_lock c w ∷ []) c o n) (reuse_record key text p)
  unfolding reuse_record
  reuse-Holds key text p s h = Ensures-bind (writedat-Holds text s.datoff seek_set s h) λ _ s1 h1.
      Ensures-bind (writeidx-Holds key s1.idxoff seek_set p s1 h1)
        λ _ s2 h2. writeptr-Holds s2.chainoff (pos s2.idxoff) s2 h2

  store_free-Holds :
      (free : Bool) (key text : List ℕ) (p : ℤ)
      → Keeps (Holds (chain_lock c w ∷ []) c o n) (store_free free key text p)
  unfolding store_free
  store_free-Holds true key text p s h =
      Ensures-bind (reuse-Holds key text p s h) λ _ t ht. returned (ground arith)
  store_free-Holds false key text p s h =
      Ensures-bind (append-Holds key text p s h) λ _ t ht. returned (ground arith)

  pub store_new-Holds :
      (flag : Flag) (key text : List ℕ)
      → Keeps (Holds (chain_lock c w ∷ []) c o n) (store_new flag key text)
  unfolding store_new
  store_new-Holds replace key text s h = returned (ground arith)
  store_new-Holds flag key text s h = Ensures-bind (readptr-Holds s.chainoff s h) λ p s1 h1.
      Ensures-bind (findfree-Holds (length key) (length text + 1) s1 h1)
        λ free s2 h2. store_free-Holds free key text p s2 h2

  pub store_old-Holds :
      (flag : Flag) (key text : List ℕ)
      → Keeps (Holds (chain_lock c w ∷ []) c o n) (store_old flag key text)
  unfolding store_old
  store_old-Holds insert key text s h = returned (ground arith)
  store_old-Holds flag key text s h = elim (Bool-cases (length text + 1 == s.datlen)) [
    | inl same ↦
        rw same (
          Ensures-bind (writedat-Holds text s.datoff seek_set s h)
            λ _ t ht. returned (ground arith))
    | inr differ ↦ rw differ (
        Ensures-bind (dodelete-Holds s h) λ _ s1 h1.
          Ensures-bind (readptr-Holds s1.chainoff s1 h1) λ p s2 h2.
            Ensures-bind (append-Holds key text p s2 h2) λ _ s3 h3. returned (ground arith))
  ]
