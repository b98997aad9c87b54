-- ===== src/Db/Chain/Refuse.antt =====
-- The errors of `db_store` and `db_delete`: what they return and leave behind when they change no
-- record.
use apue_learning.Common.{
  ℕ, suc, ◌+◌, ◌<◌, ◌≤◌, ◌≡◌, refl, true, ◌&&◌, List, Option, none, some, ℤ, pos, negsuc, arith,
  length, leb, Bool, ap, subst,
}
use apue_learning.Process.{Run, done, and_then}
use apue_learning.Db.{Db, Errno, einval, enoent, unlock, inc, Counts}
use apue_learning.Db.Find.{find_loop, unlock_chain}
use apue_learning.Db.Store.{
  Flag, insert, replace, other, store_found, store_new, store_old, db_store, count_storerr,
}
use apue_learning.Db.Delete.{db_delete, delete_found}
use apue_learning.Db.Record.{PtrAt}
use apue_learning.Db.Chain.{Entry, Chain, lookup, Found, hit, miss, find_loop-Found}
use apue_learning.Db.Chain.Fetch.{slot, searching, find_and_lock_lem}
use apue_learning.Db.Chain.Store.{leave}

-- The calls of `db_store` that are errors, for the data that the key has: the value returned, the
-- `errno` that is set, and the number of store errors that are counted.
pub data Refusal (now : Errno) : Flag → Option (List ℕ) → ℤ → Errno → (ℕ → ℕ) → Type 0 where
  bad_flag : (n : ℕ) (o : Option (List ℕ)) → Refusal now (other n) o (negsuc 0) einval (λ c. c)
  exists : (text : List ℕ) → Refusal now insert (some text) (pos 1) now inc
  missing : Refusal now replace none (negsuc 0) enoent inc

-- A call that returns this value, changes no byte of the two files, and leaves these behind.
pub data Refused (s : Db) (rc : ℤ) (e : Errno) (storerr delerr : ℕ) : Run Db ℤ → Type 0 where
  refused :
      (t : Db)
      → t.idx ≡ s.idx
      → t.dat ≡ s.dat
      → t.errno ≡ e
      → t.counts.storerr ≡ storerr
      → t.counts.delerr ≡ delerr
      → Refused s rc e storerr delerr (done rc t)

in_range : (a b c : ℕ) → a ≤ b → b ≤ c → (leb a b && leb b c) ≡ true
in_range a b c h k = ground arith

exists-Refused :
    (key text old : List ℕ) (s : Db) (r : Run Db Bool)
    → Found s (some old) r
    → Refused s
        (pos 1)
        s.errno
        (inc s.counts.storerr)
        s.counts.delerr
        (and_then r (λ found. leave (store_found found insert key text)))
unfolding store_found store_old count_storerr unlock_chain unlock
exists-Refused key text old s r (hit t k ql da) =
    refused _ k.same_idx k.same_dat k.same_errno (ap (λ c. inc c.storerr) k.same_counts)
      (ap Counts.delerr k.same_counts)

missing-Refused :
    (key text : List ℕ) (s : Db) (r : Run Db Bool)
    → Found s none r
    → Refused s
        (negsuc 0)
        enoent
        (inc s.counts.storerr)
        s.counts.delerr
        (and_then r (λ found. leave (store_found found replace key text)))
unfolding store_found store_new count_storerr unlock_chain unlock
missing-Refused key text s r (miss t k) =
    refused _ k.same_idx k.same_dat refl (ap (λ c. inc c.storerr) k.same_counts)
      (ap Counts.delerr k.same_counts)

absent-Refused :
    (s : Db) (r : Run Db Bool)
    → Found s none r
    → Refused s
        (negsuc 0)
        s.errno
        s.counts.storerr
        (inc s.counts.delerr)
        (and_then r (λ found. leave (delete_found found)))
unfolding delete_found unlock_chain unlock
absent-Refused s r (miss t k) =
    refused _ k.same_idx k.same_dat k.same_errno (ap Counts.storerr k.same_counts)
      (ap (λ c. inc c.delerr) k.same_counts)

-- A chain that is well formed and has no more records than the index file has bytes.
pub record Searchable (key : List ℕ) (p : ℕ) (es : List Entry) (s : Db) : Type 0 where
  pub pointer : PtrAt s.idx (slot s key) p
  pub chain : Chain s.idx s.dat p es
  pub few : length es ≤ length s.idx

abbrev walk : List ℕ → ℕ → Db → Run Db Bool
walk key p s = find_loop (suc (length s.idx)) key (pos p) (searching key true s)

searched-Found :
    {key : List ℕ} {p : ℕ} {es : List Entry} {s : Db}
    → Searchable key p es s
    → Found (searching key true s) (lookup key es) (walk key p s)
searched-Found {key} {p} {es} {s} h =
    find_loop-Found (suc (length s.idx)) key (searching key true s) (searching key true s)
      (record {
        same_idx = refl;
        same_dat = refl;
        same_chain = refl;
        same_table = refl;
        same_buckets = refl;
        same_errno = refl;
        same_counts = refl;
      })
      h.chain (omega (arith, h.few))

Refused-searching :
    (key : List ℕ) {s : Db} {rc : ℤ} {e : Errno} {m n : ℕ} {r : Run Db ℤ}
    → Refused (searching key true s) rc e m n r
    → Refused s rc e m n r
Refused-searching key (refused t qi qd qe qs ql) = refused t qi qd qe qs ql

kind-Refused :
    (key text : List ℕ) {flag : Flag} {o : Option (List ℕ)} (p : ℕ) (es : List Entry) (s : Db)
    {rc : ℤ} {e : Errno} {f : ℕ → ℕ}
    → 0 < length text
    → length text + 1 ≤ 1024
    → Searchable key p es s
    → Refusal s.errno flag o rc e f
    → lookup key es ≡ o
    → Refused s rc e (f s.counts.storerr) s.counts.delerr (db_store key text flag s)
unfolding db_store
kind-Refused key text p es s lt max h (bad_flag n o) q = refused _ refl refl refl refl refl
kind-Refused key text p es s lt max h (exists old) q =
    rw (in_range 2 (length text + 1) 1024 (omega arith) max) (
      rw (find_and_lock_lem key true s p h.pointer) (
        Refused-searching key (
          exists-Refused key text old (searching key true s) _
            (subst (λ o. Found (searching key true s) o (walk key p s)) q (searched-Found h)))))
kind-Refused key text p es s lt max h missing q =
    rw (in_range 2 (length text + 1) 1024 (omega arith) max) (
      rw (find_and_lock_lem key true s p h.pointer) (
        Refused-searching key (
          missing-Refused key text (searching key true s) _
            (subst (λ o. Found (searching key true s) o (walk key p s)) q (searched-Found h)))))

-- On a data base in which the key's chain is well formed, with no more records than the index file
-- has bytes, and for data of a length that is allowed, `db_store` returns -1 with EINVAL for an unknown
-- flag, 1 for DB_INSERT of a key that the chain has, and -1 with ENOENT for DB_REPLACE of a key
-- that it does not have; the two files are unchanged, and the last two are counted as store errors.
pub db_store-Refused :
    (key text : List ℕ) (flag : Flag) (p : ℕ) (es : List Entry) (s : Db) (rc : ℤ) (e : Errno)
    (f : ℕ → ℕ)
    → 0 < length text
    → length text + 1 ≤ 1024
    → Searchable key p es s
    → Refusal s.errno flag (lookup key es) rc e f
    → Refused s rc e (f s.counts.storerr) s.counts.delerr (db_store key text flag s)
db_store-Refused key text flag p es s rc e f some_text max h rf =
    kind-Refused key text p es s some_text max h rf refl

-- `db_delete` of a key that its well-formed chain does not have returns -1 and changes no file.
pub db_delete-Refused :
    (key : List ℕ) (p : ℕ) (es : List Entry) (s : Db)
    → Searchable key p es s
    → lookup key es ≡ none
    → Refused s (negsuc 0) s.errno s.counts.storerr (inc s.counts.delerr) (db_delete key s)
unfolding db_delete
db_delete-Refused key p es s h q = rw (find_and_lock_lem key true s p h.pointer) (
    Refused-searching key (
      absent-Refused (searching key true s) _
        (subst (λ o. Found (searching key true s) o (walk key p s)) q (searched-Found h))))
