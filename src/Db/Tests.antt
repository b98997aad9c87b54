-- ===== src/Db/Tests.antt =====
-- Runs of the data base library on small data bases.
use Prim.Native.Char.{code}
use Prim.Native.String.{String}
use apue_learning.Common.{
  ℕ, ◌≡◌, refl, true, List, [], ◌∷◌, Option, none, some, ℤ, pos, arith, bytes_eq, if◌then◌else◌,
}
use apue_learning.Process.{Run, done, out_of_fuel, and_then, ◌>>=◌, pure}
use apue_learning.CString.{c_str, atol, print_pad, print_dec, cut}
use apue_learning.Bytes.{read_at, write_at}
use apue_learning.Db.{Db, lock, unlock, no_error}
use apue_learning.Db.Index.{
  db_readptr, db_writeptr, db_readidx, readidx_at, read_length, read_record, split_record,
  db_writeidx, index_text,
}
use apue_learning.Db.Data.{db_readdat, db_writedat}
use apue_learning.Db.Find.{db_fetch, db_find_and_lock}
use apue_learning.Db.Delete.{db_delete, db_dodelete}
use apue_learning.Db.Store.{
  db_store, insert, replace, store, append_record, reuse_record, db_findfree,
}
use apue_learning.Db.Scan.{db_open, db_rewind, db_alloc, empty_index}
use apue_learning.Process.Ensures.{Ensures}
use apue_learning.Db.Find.{db_hash}
use apue_learning.Db.Session.{fetch, delete, put, rewind, next, calls}
use apue_learning.Db.Locks.Idle.{IsIdle, calls-IsIdle}
use apue_learning.Db.Record.{PtrAt, IsKey, Fits}
use apue_learning.Db.Append.{CanAppend, appended}
use apue_learning.Db.Chain.{Entry, Chain, chain_end, link, lookup}
use apue_learning.Db.Chain.Fetch.{slot, Fetched, db_fetch-lookup}
use apue_learning.Db.Chain.Append.{Before, db_fetch-append_record}
use apue_learning.Db.Chain.Store.{by_insert}
use apue_learning.Db.Chain.Insert.{CanStore, Stores, db_store-Stores}

abbrev codes : String → List ℕ
codes String.[] = []
codes (String.◌∷◌ c s) = code c ∷ codes s

abbrev opened : Option (Run Db (Unit {0})) → Run Db (Unit {0})
opened none = out_of_fuel
opened (some r) = r

abbrev result : {S A : Type 0} → Run S A → Option A
result (done a s) = some a
result _ = none

session : Run Db (ℤ × ℤ × Option (List ℕ) × Option (List ℕ))
unfolding db_open db_alloc empty_index db_rewind db_store db_fetch db_delete db_find_and_lock
    db_readptr db_writeptr db_readidx readidx_at read_length read_record split_record db_writeidx
    db_readdat db_writedat db_dodelete append_record reuse_record db_findfree index_text c_str atol
    print_pad print_dec cut read_at write_at lock unlock
session = and_then (opened (db_open (some ([], [])) true)) (λ _. do
  a ← db_store (codes "alpha") (codes "data1") insert
  b ← db_store (codes "beta") (codes "Data for beta") store
  c ← db_store (codes "alpha") (codes "longer") replace
  x ← db_fetch (codes "alpha")
  d ← db_delete (codes "beta")
  y ← db_fetch (codes "beta")
  pure (a, b, x, y))

session-result : result session ≡ some (pos 0, pos 0, some (codes "longer"), none)
unfolding session
session-result = refl

-- A data base with one chain, which holds the data "hi" of the key "a".
abbrev one_record : Db
one_record = record {
  idx = codes "      0     15\n      0   6a:0:3\n";
  dat = codes "hi\n";
  idxpos = 0;
  idxbuf = [];
  datbuf = [];
  idxoff = 0;
  idxlen = 0;
  datoff = 0;
  datlen = 0;
  ptrval = pos 0;
  ptroff = 0;
  chainoff = 7;
  hashoff = 7;
  nhash = 1;
  counts = record {
    delok = 0;
    delerr = 0;
    fetchok = 0;
    fetcherr = 0;
    nextrec = 0;
    stor1 = 0;
    stor2 = 0;
    stor3 = 0;
    stor4 = 0;
    storerr = 0;
  };
  errno = no_error;
  held = [];
}

abbrev the_entry : Entry
the_entry = record { at = 15; key = codes "a"; text = codes "hi"; datoff = 0 }

a-IsKey : IsKey (codes "a")
a-IsKey = record { no_null = (refl, tt); no_sep = (refl, tt) }

the-Fits : Fits (codes "a") 0 3
unfolding index_text print_dec
the-Fits = record {
  min_length = omega arith;
  max_length = omega arith;
  some_data = omega arith;
  max_data = omega arith;
}

the-Chain : Chain one_record.idx one_record.dat 15 (the_entry ∷ [])
unfolding index_text print_dec print_pad read_at
the-Chain =
    link the_entry 0 [] (omega arith) (record { pointer = refl; small = omega arith })
      (record { size = refl; body = refl; is_key = a-IsKey; fits = the-Fits })
      (record { bytes = refl; clean = (refl, (refl, tt)) }) chain_end

the_slot : PtrAt one_record.idx (slot one_record (codes "a")) 15
unfolding read_at print_pad print_dec db_hash
the_slot = record { pointer = refl; small = omega arith }

db_fetch-lookup_example :
    Fetched one_record (lookup (codes "a") (the_entry ∷ [])) (db_fetch (codes "a") one_record)
db_fetch-lookup_example =
    db_fetch-lookup (codes "a") one_record 15 (the_entry ∷ []) the_slot the-Chain (omega arith)

b-Fits : Fits (codes "b") 3 5
unfolding index_text print_dec
b-Fits = record {
  min_length = omega arith;
  max_length = omega arith;
  some_data = omega arith;
  max_data = omega arith;
}

can_add : CanAppend (codes "b") (codes "four") 15 one_record
can_add = record {
  small = omega arith;
  room = omega arith;
  is_key = record { no_null = (refl, tt); no_sep = (refl, tt) };
  fits = b-Fits;
  clean = (refl, (refl, (refl, (refl, tt))));
}

Before-add : Before (codes "b") 15 (the_entry ∷ []) one_record
unfolding db_hash index_text print_dec
Before-add = record {
  positioned = refl;
  table = omega arith;
  chain = the-Chain;
  inside = (record { behind = omega arith; in_idx = omega arith; in_dat = omega arith }, tt);
  few = omega arith;
}

same_slot : slot one_record (codes "a") ≡ slot one_record (codes "b")
unfolding db_hash
same_slot = refl

db_fetch-append_record_example :
    (append_record (codes "b") (codes "four") (pos 15) one_record
      ≡ done tt (appended (codes "b") (codes "four") 15 one_record))
    × Fetched
        (appended (codes "b") (codes "four") 15 one_record)
        (if bytes_eq (codes "b") (codes "a")
          then some (codes "four")
          else lookup (codes "a") (the_entry ∷ []))
        (db_fetch (codes "a") (appended (codes "b") (codes "four") 15 one_record))
db_fetch-append_record_example =
    db_fetch-append_record (codes "b") (codes "four") 15 (the_entry ∷ []) one_record (codes "a")
      can_add Before-add same_slot

calls-IsIdle_example :
    Ensures
      (λ _ t. IsIdle t)
      (calls
        (fetch (codes "a")
          ∷ delete (codes "a")
          ∷ put (codes "b") (codes "four") store
          ∷ rewind
          ∷ next
          ∷ [])
        one_record)
calls-IsIdle_example =
    calls-IsIdle
      (fetch (codes "a")
        ∷ delete (codes "a")
        ∷ put (codes "b") (codes "four") store
        ∷ rewind
        ∷ next
        ∷ [])
      one_record (record { none_held = refl; behind = omega arith })

can_be_stored : CanStore (codes "b") (codes "four") 15 (the_entry ∷ []) one_record
unfolding read_at print_pad print_dec lookup db_hash
can_be_stored = record {
  can = can_add;
  some_text = omega arith;
  none_free = record { pointer = refl; small = omega arith };
  pointer = the_slot;
  table = Before-add.table;
  chain = the-Chain;
  inside = Before-add.inside;
  few = omega arith;
  absent = refl;
}

db_store-Stores_example :
    Stores
      (codes "a")
      (if bytes_eq (codes "b") (codes "a")
        then some (codes "four")
        else lookup (codes "a") (the_entry ∷ []))
      (db_store (codes "b") (codes "four") insert one_record)
db_store-Stores_example =
    db_store-Stores insert (codes "b") (codes "four") 15 (the_entry ∷ []) one_record (codes "a")
      by_insert can_be_stored same_slot
