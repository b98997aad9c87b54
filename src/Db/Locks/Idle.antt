-- ===== src/Db/Locks/Idle.antt =====
-- Between the calls of a client the process holds no record lock.
use apue_learning.Common.{
  ℕ, suc, ◌+◌, ◌<◌, ◌≡◌, refl, Bool, true, false, List, [], ◌∷◌, arith, length,
}
use apue_learning.Process.{Prog, Run}
use apue_learning.Process.Ensures.{Ensures, returned, stopped, Ensures-bind, Ensures-mono}
use apue_learning.Db.{Db, Lock, lock, unlock}
use apue_learning.Db.Find.{db_find_and_lock, db_fetch, unlock_chain}
use apue_learning.Db.Delete.{db_delete}
use apue_learning.Db.Store.{Flag, other, store_found, db_store}
use apue_learning.Db.Scan.{db_nextrec}
use apue_learning.Db.Find.{fetch_found, db_hash}
use Prim.Native.String.{String}
use apue_learning.Process.{◌>>=◌, ◌>>◌, pure, check}
use apue_learning.Common.{◌*◌}
use apue_learning.Db.{ptr_sz}
use apue_learning.Db.Delete.{delete_found}
use apue_learning.Db.Scan.{nextrec_found, db_rewind}
use apue_learning.Db.Session.{Call, call, calls, fetch, delete, put, rewind, next}
use apue_learning.Db.Locks.{
  Holds, Keeps, readptr-Holds, readdat-Holds, find_loop-Holds, nextrec_loop-Holds,
}
use apue_learning.Db.Locks.Ops.{
  chain_lock, free_lock, dodelete-Holds, store_new-Holds, store_old-Holds,
}

-- No lock is held, and the hash table lies behind the free list pointer.
pub record IsIdle (s : Db) : Type 0 where
  pub none_held : s.held ≡ []
  pub behind : 0 < s.hashoff

-- Behind a search just the lock of the key's chain is held.
pub record OnChain (w : Bool) (s : Db) : Type 0 where
  pub only : s.held ≡ chain_lock s.chainoff w ∷ []
  pub chain_behind : 0 < s.chainoff
  pub table_behind : 0 < s.hashoff

of_Holds :
    {w : Bool} {c o n : ℕ} {s : Db}
    → 0 < c
    → 0 < o
    → Holds (chain_lock c w ∷ []) c o n s
    → OnChain w s
of_Holds h k r = ground arith

to_Holds :
    {w : Bool} {s : Db}
    → OnChain w s
    → Holds (chain_lock s.chainoff w ∷ []) s.chainoff s.hashoff s.nhash s
to_Holds h = record { held = h.only; chain = refl; table = refl; buckets = refl }

-- The state in which `_db_find_and_lock` begins to read.
abbrev located : List ℕ → Bool → Db → Db
located key w s =
    let c = db_hash s.nhash key * ptr_sz + s.hashoff in
    record s { ptroff = c; chainoff = c; held = chain_lock c w ∷ s.held }

located-OnChain : (key : List ℕ) (w : Bool) (s : Db) → IsIdle s → OnChain w (located key w s)
located-OnChain key w s h = ground arith

find-OnChain :
    (key : List ℕ) (w : Bool) (s : Db)
    → IsIdle s
    → Ensures (λ _ t. OnChain w t) (db_find_and_lock key w s)
unfolding db_find_and_lock lock
find-OnChain key w s h =
    let on = located-OnChain key w s h in
    Ensures-bind (readptr-Holds (located key w s).ptroff (located key w s) (to_Holds on)) λ p t ht.
      Ensures-mono (find_loop-Holds (suc (length t.idx)) key p t ht)
        λ _ u hu. of_Holds on.chain_behind on.table_behind hu

unlock-IsIdle : (w : Bool) (s : Db) → OnChain w s → Ensures (λ _ t. IsIdle t) (unlock_chain s)
unfolding unlock_chain unlock
unlock-IsIdle w s h = returned (ground arith)

-- A part that keeps the chain's lock, then the release, leaves no lock.
release-IsIdle :
    {A : Type 0} (w : Bool) (m : Prog Db A) (s : Db)
    → OnChain w s
    → Ensures (λ _ t. OnChain w t) (m s)
    → Ensures (λ _ t. IsIdle t) ((do r ← m; unlock_chain; pure r) s)
release-IsIdle w m s h hm =
    Ensures-bind hm λ r t ht. Ensures-bind (unlock-IsIdle w t ht) λ _ u hu. returned hu

keep-OnChain :
    {A : Type 0} {w : Bool} {s : Db} {r : Run Db A}
    → OnChain w s
    → Ensures (λ _ t. Holds (chain_lock s.chainoff w ∷ []) s.chainoff s.hashoff s.nhash t) r
    → Ensures (λ _ t. OnChain w t) r
keep-OnChain h e = Ensures-mono e λ _ t ht. of_Holds h.chain_behind h.table_behind ht

fetch_found-OnChain :
    (found w : Bool) (s : Db) → OnChain w s → Ensures (λ _ t. OnChain w t) (fetch_found found s)
unfolding fetch_found
fetch_found-OnChain false w s h = returned (ground arith)
fetch_found-OnChain true w s h =
    Ensures-bind (keep-OnChain h (readdat-Holds s (to_Holds h))) λ _ t ht. returned (ground arith)

delete_found-OnChain :
    (found w : Bool) (s : Db) → OnChain w s → Ensures (λ _ t. OnChain w t) (delete_found found s)
unfolding delete_found
delete_found-OnChain false w s h = returned (ground arith)
delete_found-OnChain true w s h =
    Ensures-bind (keep-OnChain h (dodelete-Holds h.chain_behind s (to_Holds h)))
      λ _ t ht. returned (ground arith)

store_found-OnChain :
    (found w : Bool) (flag : Flag) (key text : List ℕ) (s : Db)
    → OnChain w s
    → Ensures (λ _ t. OnChain w t) (store_found found flag key text s)
unfolding store_found
store_found-OnChain true w flag key text s h =
    keep-OnChain h (store_old-Holds h.chain_behind flag key text s (to_Holds h))
store_found-OnChain false w flag key text s h =
    keep-OnChain h (store_new-Holds h.chain_behind flag key text s (to_Holds h))

abbrev Quiet : {A : Type 0} → Prog Db A → Type 0
Quiet m = (s : Db) → IsIdle s → Ensures (λ _ t. IsIdle t) (m s)

fetch-IsIdle : (key : List ℕ) → Quiet (db_fetch key)
unfolding db_fetch
fetch-IsIdle key s h = Ensures-bind (find-OnChain key false s h) λ found t ht.
    release-IsIdle false (fetch_found found) t ht (fetch_found-OnChain found false t ht)

delete-IsIdle : (key : List ℕ) → Quiet (db_delete key)
unfolding db_delete
delete-IsIdle key s h = Ensures-bind (find-OnChain key true s h) λ found t ht.
    release-IsIdle true (delete_found found) t ht (delete_found-OnChain found true t ht)

store_checked-IsIdle :
    (key text : List ℕ) (flag : Flag)
    → Quiet (do
      found ← db_find_and_lock key true
      rc ← store_found found flag key text
      unlock_chain
      pure rc)
store_checked-IsIdle key text flag s h = Ensures-bind (find-OnChain key true s h) λ found t ht.
    release-IsIdle true (store_found found flag key text) t ht
      (store_found-OnChain found true flag key text t ht)

check-IsIdle :
    {A : Type 0} (b : Bool) (m : String) (k : Prog Db A) → Quiet k → Quiet (check b m >> k)
check-IsIdle true m k q s h = q s h
check-IsIdle false m k q s h = stopped

store-IsIdle : (key text : List ℕ) (flag : Flag) → Quiet (db_store key text flag)
unfolding db_store
store-IsIdle key text (other n) s h = returned (ground arith)
store-IsIdle key text flag s h = check-IsIdle _ _ _ (store_checked-IsIdle key text flag) s h

-- `db_nextrec` holds the lock of the free list instead of one of a chain.
nextrec_found-Holds :
    {hs : List Lock} {c o n : ℕ} (found : Bool) → Keeps (Holds hs c o n) (nextrec_found found)
unfolding nextrec_found
nextrec_found-Holds false s h = returned h
nextrec_found-Holds true s h = Ensures-bind (readdat-Holds s h) λ _ t ht. returned (ground arith)

next-IsIdle : Quiet db_nextrec
unfolding db_nextrec lock unlock
next-IsIdle s h =
    Ensures-bind (nextrec_loop-Holds (suc (length s.idx)) (listed s) (listed-Holds s h))
      λ found t ht.
        Ensures-bind (nextrec_found-Holds found t ht) λ _ u hu. returned (ground (arith, h.behind))
  where
    listed : Db → Db
    listed t = record t { held = free_lock false ∷ t.held }

    listed-Holds :
        (t : Db) → IsIdle t → Holds (free_lock false ∷ []) t.chainoff t.hashoff t.nhash (listed t)
    listed-Holds t k = ground arith

call-IsIdle : (c : Call) → Quiet (call c)
unfolding call db_rewind
call-IsIdle (fetch key) s h = Ensures-bind (fetch-IsIdle key s h) λ _ t ht. returned ht
call-IsIdle (delete key) s h = Ensures-bind (delete-IsIdle key s h) λ _ t ht. returned ht
call-IsIdle (put key text flag) s h =
    Ensures-bind (store-IsIdle key text flag s h) λ _ t ht. returned ht
call-IsIdle rewind s h = returned (ground arith)
call-IsIdle next s h = Ensures-bind (next-IsIdle s h) λ _ t ht. returned ht

-- Whatever a client calls on a data base of which it holds no lock, and in whatever order, once the
-- calls have returned the process holds no record lock again: each function releases all that it
-- took, on its error branches too.
pub calls-IsIdle : (cs : List Call) (s : Db) → IsIdle s → Ensures (λ _ t. IsIdle t) (calls cs s)
unfolding calls
calls-IsIdle [] s h = returned h
calls-IsIdle (c ∷ cs) s h = Ensures-bind (call-IsIdle c s h) λ _ t ht. calls-IsIdle cs t ht
