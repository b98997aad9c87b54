-- ===== src/Db/Chain/Fetch.antt =====
-- `db_fetch` on a data base whose chains are given, and after a record was appended.
use apue_learning.Common.{
  ℕ, suc, ◌+◌, ◌*◌, ◌≤◌, ◌≡◌, refl, Bool, false, List, ◌∷◌, Option, pos, arith, length,
}
use apue_learning.Process.{Run, done, Prog, and_then, ◌>>=◌, ◌>>◌, pure}
use apue_learning.Db.{Db, ptr_sz, index_file, lock, unlock}
use apue_learning.Db.Find.{
  db_hash, find_loop, db_find_and_lock, fetch_found, unlock_chain, db_fetch,
}
use apue_learning.Db.Record.{PtrAt}
use apue_learning.Db.Record.Read.{readptr_lem, readdat_lem}
use apue_learning.Db.Chain.{Entry, Chain, lookup, Found, hit, miss, find_loop-Found}

-- Where the pointer to a key's chain is.
abbrev pub slot : Db → List ℕ → ℕ
slot s key = db_hash s.nhash key * ptr_sz + s.hashoff

-- The state in which the search starts.
abbrev pub searching : List ℕ → Bool → Db → Db
searching key write s = record s {
  chainoff = slot s key;
  ptroff = slot s key;
  held = record { file = index_file; start = slot s key; len = 1; exclusive = write } ∷ s.held;
  idxpos = slot s key + ptr_sz;
}

pub find_and_lock_lem :
    (key : List ℕ) (write : Bool) (s : Db) (p : ℕ)
    → PtrAt s.idx (slot s key) p
    → db_find_and_lock key write s
      ≡ find_loop (suc (length s.idx)) key (pos p) (searching key write s)
unfolding db_find_and_lock lock
find_and_lock_lem key write s p h =
    rw
      (readptr_lem
        (record s {
          chainoff = slot s key;
          ptroff = slot s key;
          held =
              record { file = index_file; start = slot s key; len = 1; exclusive = write } ∷ s.held;
        })
        (slot s key) p h)
      refl

-- A call that returns this value and changes no byte of the files.
pub data Fetched (s : Db) (r : Option (List ℕ)) : Run Db (Option (List ℕ)) → Type 0 where
  fetched : (t : Db) → t.idx ≡ s.idx → t.dat ≡ s.dat → Fetched s r (done r t)

abbrev finish : Bool → Prog Db (Option (List ℕ))
finish found = do ptr ← fetch_found found; unlock_chain; pure ptr

finish-Fetched :
    (s : Db) (o : Option (List ℕ)) (r : Run Db Bool) → Found s o r → Fetched s o (and_then r finish)
unfolding fetch_found unlock_chain unlock
finish-Fetched s o r (hit t k ql da) = rw (readdat_lem t _ ql da) (fetched _ k.same_idx k.same_dat)
finish-Fetched s o r (miss t k) = fetched _ k.same_idx k.same_dat

-- On a data base in which the chain of the key's hash value is well formed, with no more records than
-- the index file has bytes, `db_fetch` returns, without ending the process: the data of the first
-- record of that chain that has the key, or the null pointer if none has it. The files stay as
-- they are.
pub db_fetch-lookup :
    (key : List ℕ) (s : Db) (p : ℕ) (es : List Entry)
    → PtrAt s.idx (slot s key) p
    → Chain s.idx s.dat p es
    → length es ≤ length s.idx
    → Fetched s (lookup key es) (db_fetch key s)
unfolding db_fetch
db_fetch-lookup key s p es hp c h = rw (find_and_lock_lem key false s p hp) (
    searched-Fetched (
      finish-Fetched (searching key false s) (lookup key es)
        (find_loop (suc (length s.idx)) key (pos p) (searching key false s))
        (find_loop-Found (suc (length s.idx)) key (searching key false s) (searching key false s)
          (record {
            same_idx = refl;
            same_dat = refl;
            same_chain = refl;
            same_table = refl;
            same_buckets = refl;
            same_errno = refl;
            same_counts = refl;
          })
          c (omega arith))))
  where
    searched-Fetched :
        {o : Option (List ℕ)} {r : Run Db (Option (List ℕ))}
        → Fetched (searching key false s) o r
        → Fetched s o r
    searched-Fetched (fetched t qi qd) = fetched t qi qd
