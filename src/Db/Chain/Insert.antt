-- ===== src/Db/Chain/Insert.antt =====
-- The whole of `db_store` for a new key, followed by a fetch.
use apue_learning.Common.{
  ℕ, suc, ◌+◌, ◌*◌, ◌<◌, ◌≤◌, ◌≡◌, refl, ap, ◌∙◌, sym, subst, true, ◌&&◌, List, ◌∷◌, Option, none,
  some, ℤ, pos, arith, length, bytes_eq, All, if◌then◌else◌, leb,
}
use apue_learning.Process.{Run, done, and_then}
use apue_learning.Db.{Db, ptr_sz}
use apue_learning.Db.Find.{db_fetch, db_hash, find_loop}
use apue_learning.Db.Store.{Flag, insert, store, store_found, db_store}
use apue_learning.Db.Append.{CanAppend}
use apue_learning.Db.Record.{PtrAt}
use apue_learning.Db.Record.Write.{PtrAt-write}
use apue_learning.Db.Chain.{Entry, Chain, lookup, Found, find_loop-Found}
use apue_learning.Db.Chain.Fetch.{slot, searching, find_and_lock_lem, Fetched}
use apue_learning.Db.Chain.Append.{
  Inside, fetch_given, idx', dat', added, with_record, Chain-added, length-idx',
}
use apue_learning.Db.Chain.Store.{
  NoneFree, Adds, by_insert, by_store, Stored, stored, leave, missed-Stored,
}

-- A data base that is ready for a new record: its free list is empty, the key's chain is well formed
-- and inside the files behind the chain's pointer, the record fits, and the key is not in the chain.
pub record CanStore (key text : List ℕ) (p : ℕ) (es : List Entry) (s : Db) : Type 0 where
  pub can : CanAppend key text p s
  pub some_text : 0 < length text
  pub none_free : NoneFree s
  pub pointer : PtrAt s.idx (slot s key) p
  pub table : slot s key + 7 ≤ length s.idx
  pub chain : Chain s.idx s.dat p es
  pub inside : All (Inside (slot s key) (length s.idx) (length s.dat)) es
  pub few : length es ≤ length s.idx
  pub absent : lookup key es ≡ none

in_range : (a b c : ℕ) → a ≤ b → b ≤ c → (leb a b && leb b c) ≡ true
in_range a b c h k = ground arith

searched-Stored :
    (flag : Flag) (key text : List ℕ) (p : ℕ) (es : List Entry) (s : Db)
    → Adds flag
    → CanStore key text p es s
    → Stored key text p (slot s key) s (
        and_then
          (find_loop (suc (length s.idx)) key (pos p) (searching key true s))
          (λ found. leave (store_found found flag key text)))
searched-Stored flag key text p es s a c =
    let u = searching key true s in
    let can' : CanAppend key text p u = record {
      small = c.can.small;
      room = c.can.room;
      is_key = c.can.is_key;
      fits = c.can.fits;
      clean = c.can.clean;
    } in
    back (
      missed-Stored flag key text p u (find_loop (suc (length s.idx)) key (pos p) u) a c.none_free
        c.pointer can'
        (subst (λ o. Found u o (find_loop (suc (length s.idx)) key (pos p) u)) c.absent
          (find_loop-Found (suc (length s.idx)) key u u
            (record {
              same_idx = refl;
              same_dat = refl;
              same_chain = refl;
              same_table = refl;
              same_buckets = refl;
              same_errno = refl;
              same_counts = refl;
            })
            c.chain (omega (arith, c.few)))))
  where
    back :
        {r : Run Db ℤ}
        → Stored key text p (slot s key) (searching key true s) r
        → Stored key text p (slot s key) s r
    back (stored v qi qd qh qn) = stored v qi qd qh qn

db_store-Stored :
    (flag : Flag) (key text : List ℕ) (p : ℕ) (es : List Entry) (s : Db)
    → Adds flag
    → CanStore key text p es s
    → Stored key text p (slot s key) s (db_store key text flag s)
unfolding db_store
db_store-Stored _ key text p es s by_insert c =
    rw (in_range 2 (length text + 1) 1024 (omega (arith, c.some_text)) c.can.fits.max_data) (
      rw (find_and_lock_lem key true s p c.pointer)
        (searched-Stored insert key text p es s by_insert c))
db_store-Stored _ key text p es s by_store c =
    rw (in_range 2 (length text + 1) 1024 (omega (arith, c.some_text)) c.can.fits.max_data) (
      rw (find_and_lock_lem key true s p c.pointer)
        (searched-Stored store key text p es s by_store c))

-- A call that returns 0 in a state in which a fetch of the key `other` gives this result.
pub data Stores (other : List ℕ) (result : Option (List ℕ)) : Run Db ℤ → Type 0 where
  stores : (u : Db) → Fetched u result (db_fetch other u) → Stores other result (done (pos 0) u)

Stored-Stores :
    (key text : List ℕ) (p : ℕ) (es : List Entry) (s : Db) (other : List ℕ) (r : Run Db ℤ)
    → CanStore key text p es s
    → slot s other ≡ slot s key
    → Stored key text p (slot s key) s r
    → Stores other (if bytes_eq key other then some text else lookup other es) r
unfolding lookup
Stored-Stores key text p es s other r c same (stored u qi qd qh qn) =
    let can = c.can in
    stores u (
      fetch_given other u
        (idx' key text p (slot s key) s.idx s.dat can.small can.room can.fits c.table)
        (dat' key text p (slot s key) s.idx s.dat can.small can.room can.fits c.table)
        (length s.idx)
        (added key text p (slot s key) s.idx s.dat can.small can.room can.fits c.table ∷ es) qi qd
        (subst
          (λ o.
            PtrAt (idx' key text p (slot s key) s.idx s.dat can.small can.room can.fits c.table) o
              (length s.idx))
          (sym same
            ∙ sym (
                ap (λ n. db_hash n other * ptr_sz + u.hashoff) qn
                ∙ ap (λ o. db_hash s.nhash other * ptr_sz + o) qh))
          (PtrAt-write
            (with_record key text p (slot s key) s.idx s.dat can.small can.room can.fits c.table)
            (slot s key) (length s.idx) can.room))
        (Chain-added key text p (slot s key) s.idx s.dat can.small can.room can.fits c.table
          can.is_key can.clean c.chain c.inside)
        (omega (
          arith,
          c.few,
          length-idx' key text p (slot s key) s.idx s.dat can.small can.room can.fits c.table,
        )))

-- When the free list is empty, the key's chain is well formed, lies inside the files and does not have
-- the key, and the record fits, `db_store` with DB_INSERT or DB_STORE returns 0, and afterwards a
-- fetch of any key of the same chain returns the new data if it is the new key, and otherwise what
-- the chain said before.
pub db_store-Stores :
    (flag : Flag) (key text : List ℕ) (p : ℕ) (es : List Entry) (s : Db) (other : List ℕ)
    → Adds flag
    → CanStore key text p es s
    → slot s other ≡ slot s key
    → Stores other
        (if bytes_eq key other then some text else lookup other es)
        (db_store key text flag s)
db_store-Stores flag key text p es s other a c same =
    Stored-Stores key text p es s other (db_store key text flag s) c same
      (db_store-Stored flag key text p es s a c)
