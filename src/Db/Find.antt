-- ===== src/Db/Find.antt =====
-- Finding and fetching a record: `_db_hash`, `_db_find_and_lock` and `db_fetch` of db/db.c.
use apue_learning.Common.{
  ℕ, zero, suc, ◌+◌, ◌-◌, ◌*◌, ◌%◌, ◌^◌, Bool, true, false, List, [], ◌∷◌, Option, none, some, ℤ,
  pos, negsuc, ltb, if◌then◌else◌, bytes_eq, length,
}
use apue_learning.Process.{Prog, done, out_of_fuel, ◌>>=◌, ◌>>◌, pure, modify}
use apue_learning.Db.{Db, index_file, lock, unlock, inc, ptr_sz}
use apue_learning.Db.Index.{db_readptr, db_readidx}
use apue_learning.Db.Data.{db_readdat}

-- A `char` as it is converted to `unsigned long`: `char` is signed.
abbrev char_value : ℕ → ℕ
char_value c = if ltb c 128 then c else c + 2 ^ 64 - 256

hash_loop : ℕ → ℕ → List ℕ → ℕ
hash_loop i hval [] = hval
hash_loop i hval (c ∷ key) = hash_loop (i + 1) ((hval + char_value c * i) % 2 ^ 64) key

-- `_db_hash`
unfoldable pub db_hash : ℕ → List ℕ → ℕ
unfolding hash_loop
db_hash nhash key = hash_loop 1 0 key % nhash

-- An offset that `_db_readidx` has accepted is not negative.
abbrev pub to_offset : ℤ → ℕ
to_offset (pos n) = n
to_offset (negsuc _) = 0

-- The walk along a hash chain. It stops at an equal key, or at the null pointer.
unfoldable pub find_loop : ℕ → List ℕ → ℤ → Prog Db Bool
find_loop zero key offset = λ _. out_of_fuel
find_loop (suc f) key (pos zero) = pure false
find_loop (suc f) key offset = do
  nextoffset ← db_readidx offset
  λ db. elim (bytes_eq db.idxbuf key) [
    | true ↦ done true db
    | false ↦ find_loop f key nextoffset (record db { ptroff = to_offset offset })
  ]

-- `_db_find_and_lock`: whether the record was found. No more than one record starts at each byte of
-- the index file, so that a chain that ends is walked in as many rounds as the file has bytes.
unfoldable pub db_find_and_lock : List ℕ → Bool → Prog Db Bool
unfolding db_hash find_loop
db_find_and_lock key writelock = do
  modify λ db. record db { chainoff = db_hash db.nhash key * ptr_sz + db.hashoff }
  modify λ db. record db { ptroff = db.chainoff }
  λ db. lock index_file db.chainoff 1 writelock db
  offset ← λ db. db_readptr db.ptroff db
  λ db. find_loop (suc (length db.idx)) key offset db

-- What follows the search in `db_fetch`.
unfoldable pub fetch_found : Bool → Prog Db (Option (List ℕ))
fetch_found false = do
  modify λ db. record db { counts = record (db.counts) { fetcherr = inc db.counts.fetcherr } }
  pure none
fetch_found true = do
  text ← db_readdat
  modify λ db. record db { counts = record (db.counts) { fetchok = inc db.counts.fetchok } }
  pure (some text)

unfoldable pub unlock_chain : Prog Db (Unit {0})
unlock_chain db = unlock index_file db.chainoff 1 db

-- `db_fetch`
unfoldable pub db_fetch : List ℕ → Prog Db (Option (List ℕ))
unfolding fetch_found unlock_chain
db_fetch key = do
  found ← db_find_and_lock key false
  ptr ← fetch_found found
  unlock_chain
  pure ptr
