-- ===== src/Db/Chain/Tests.antt =====
-- A data base with a chain of two records, and calls of it.
use Prim.Native.Char.{code}
use Prim.Native.String.{String}
use apue_learning.Common.{
  ℕ, ◌≡◌, refl, List, [], ◌∷◌, some, pos, arith, bytes_eq, if◌then◌else◌, inl, inr,
}
use apue_learning.CString.{print_pad, print_dec}
use apue_learning.Bytes.{read_at}
use apue_learning.Db.{Db, no_error, inc}
use apue_learning.Db.Index.{index_text}
use apue_learning.Db.Find.{db_hash}
use apue_learning.Db.Delete.{db_delete}
use apue_learning.Db.Store.{db_store, insert, replace}
use apue_learning.Db.Chain.{Entry, lookup}
use apue_learning.Db.Chain.Fetch.{slot}
use apue_learning.Db.Chain.Insert.{Stores}
use apue_learning.Db.Chain.Linked.{Linked, nothing_linked, linked, Linked-Chain, Linked-pointer}
use apue_learning.Db.Chain.Delete.{Deletable}
use apue_learning.Db.Chain.DeleteKey.{Deletes, db_delete-Deletes}
use apue_learning.Db.Chain.Refuse.{Refused, exists, Searchable, db_store-Refused}
use apue_learning.Db.Chain.Renew.{Replaceable}
use apue_learning.Db.Chain.Store.{by_insert}
use apue_learning.Db.Chain.Reuse.{fits_here}
use apue_learning.Db.Chain.StoreFree.{Reusable, Reuses, db_store-Reuses}
use apue_learning.Db.Chain.Replace.{by_replace, db_store-Replaces}

abbrev codes : String → List ℕ
codes String.[] = []
codes (String.◌∷◌ c s) = code c ∷ codes s

-- The table's one pointer leads to the record of "b", and that to the record of "a".
abbrev two_records : Db
two_records = record {
  idx = codes "      0     32\n      0   6a:0:3\n     15   6b:3:5\n";
  dat = codes "hi\nfour\n";
  idxpos = 0;
  idxbuf = [];
  datbuf = [];
  idxoff = 0;
  idxlen = 0;
  datoff = 0;
  datlen = 0;
  ptrval = pos 0;
  ptroff = 0;
  chainoff = 7;
  hashoff = 7;
  nhash = 1;
  counts = record {
    delok = 0;
    delerr = 0;
    fetchok = 0;
    fetcherr = 0;
    nextrec = 0;
    stor1 = 0;
    stor2 = 0;
    stor3 = 0;
    stor4 = 0;
    storerr = 0;
  };
  errno = no_error;
  held = [];
}

abbrev a_entry : Entry
a_entry = record { at = 15; key = codes "a"; text = codes "hi"; datoff = 0 }

abbrev b_entry : Entry
b_entry = record { at = 32; key = codes "b"; text = codes "four"; datoff = 3 }

abbrev entries : List Entry
entries = b_entry ∷ a_entry ∷ []

two-Linked : Linked two_records.idx two_records.dat 7 entries
unfolding index_text print_dec print_pad read_at
two-Linked =
    linked b_entry _ (record { pointer = refl; small = omega arith }) (omega arith)
      (record {
        size = refl;
        body = refl;
        is_key = record { no_null = (refl, tt); no_sep = (refl, tt) };
        fits = record {
          min_length = omega arith;
          max_length = omega arith;
          some_data = omega arith;
          max_data = omega arith;
        };
      })
      (record { bytes = refl; clean = (refl, (refl, (refl, (refl, tt)))) })
      (linked a_entry _ (record { pointer = refl; small = omega arith }) (omega arith)
        (record {
          size = refl;
          body = refl;
          is_key = record { no_null = (refl, tt); no_sep = (refl, tt) };
          fits = record {
            min_length = omega arith;
            max_length = omega arith;
            some_data = omega arith;
            max_data = omega arith;
          };
        })
        (record { bytes = refl; clean = (refl, (refl, tt)) })
        (nothing_linked (record { pointer = refl; small = omega arith })))

two-Deletable : Deletable (codes "a") entries [] two_records
unfolding index_text print_dec print_pad read_at db_hash
two-Deletable = record {
  chain = two-Linked;
  free_list = nothing_linked (record { pointer = refl; small = omega arith });
  laid = record {
    behind = omega arith;
    within = (
      record { behind = omega arith; in_idx = omega arith; in_dat = omega arith },
      (record { behind = omega arith; in_idx = omega arith; in_dat = omega arith }, tt),
    );
    off = (inl (omega arith), (inl (omega arith), tt));
    apart = ((record { in_idx = inr (omega arith); in_dat = inr (omega arith) }, tt), (tt, tt));
    free_low = tt;
    free_off = tt;
    free_apart = tt;
  };
  table = omega arith;
  few = omega arith;
  distinct = ((refl, tt), (tt, tt));
}

a_found : lookup (codes "a") entries ≡ some (codes "hi")
unfolding lookup
a_found = refl

same_slot : slot two_records (codes "b") ≡ slot two_records (codes "a")
unfolding db_hash
same_slot = refl

db_delete-Deletes_example :
    Deletes
      (codes "a")
      (codes "b")
      (slot two_records (codes "a"))
      entries
      []
      (db_delete (codes "a") two_records)
db_delete-Deletes_example =
    db_delete-Deletes (codes "a") (codes "b") (codes "hi") entries [] two_records two-Deletable
      a_found same_slot

two-Replaceable : Replaceable (codes "a") (codes "longer") entries [] two_records
unfolding index_text print_dec db_hash
two-Replaceable = record {
  deletable = two-Deletable;
  behind = (omega arith, (omega arith, tt));
  some_text = omega arith;
  clean = (refl, (refl, (refl, (refl, (refl, (refl, tt))))));
  is_key = record { no_null = (refl, tt); no_sep = (refl, tt) };
  room = omega arith;
  fits = record {
    min_length = omega arith;
    max_length = omega arith;
    some_data = omega arith;
    max_data = omega arith;
  };
}

db_store-Replaces_example :
    Stores
      (codes "b")
      (if bytes_eq (codes "a") (codes "b")
        then some (codes "longer")
        else lookup (codes "b") entries)
      (db_store (codes "a") (codes "longer") replace two_records)
db_store-Replaces_example =
    db_store-Replaces replace (codes "a") (codes "longer") (codes "b") (codes "hi") entries []
      two_records by_replace two-Replaceable a_found same_slot

two-Searchable : Searchable (codes "a") 32 entries two_records
two-Searchable = record {
  pointer = Linked-pointer two-Deletable.chain;
  chain = Linked-Chain two-Deletable.chain;
  few = omega arith;
}

db_store-Refused_example :
    Refused two_records
      (pos 1)
      no_error
      (inc two_records.counts.storerr)
      two_records.counts.delerr
      (db_store (codes "a") (codes "longer") insert two_records)
unfolding lookup
db_store-Refused_example =
    db_store-Refused (codes "a") (codes "longer") insert 32 entries two_records (pos 1) no_error inc
      (omega arith) (omega arith) two-Searchable (exists (codes "hi"))

-- The record of "a" deleted: it is on the free list.
abbrev one_free : Db
one_free = record two_records {
  idx = codes "     15     32\n      0   6 :0:3\n      0   6b:3:5\n";
  dat = codes "  \nfour\n";
}

abbrev free_entry : Entry
free_entry = record { at = 15; key = codes " "; text = codes "  "; datoff = 0 }

one_free-Reusable : Reusable (codes "c") (codes "ab") (b_entry ∷ []) (free_entry ∷ []) one_free
unfolding index_text print_dec print_pad read_at db_hash lookup
one_free-Reusable = record {
  chain =
      linked b_entry [] (record { pointer = refl; small = omega arith }) (omega arith)
        (record {
          size = refl;
          body = refl;
          is_key = record { no_null = (refl, tt); no_sep = (refl, tt) };
          fits = record {
            min_length = omega arith;
            max_length = omega arith;
            some_data = omega arith;
            max_data = omega arith;
          };
        })
        (record { bytes = refl; clean = (refl, (refl, (refl, (refl, tt)))) })
        (nothing_linked (record { pointer = refl; small = omega arith }));
  free_list =
      linked free_entry [] (record { pointer = refl; small = omega arith }) (omega arith)
        (record {
          size = refl;
          body = refl;
          is_key = record { no_null = (refl, tt); no_sep = (refl, tt) };
          fits = record {
            min_length = omega arith;
            max_length = omega arith;
            some_data = omega arith;
            max_data = omega arith;
          };
        })
        (record { bytes = refl; clean = (refl, (refl, tt)) })
        (nothing_linked (record { pointer = refl; small = omega arith }));
  laid = record {
    behind = omega arith;
    within = (record { behind = omega arith; in_idx = omega arith; in_dat = omega arith }, tt);
    off = (inl (omega arith), tt);
    apart = (tt, tt);
    free_low = (omega arith, tt);
    free_off = (inl (omega arith), tt);
    free_apart = ((record { in_idx = inr (omega arith); in_dat = inr (omega arith) }, tt), tt);
  };
  free_within = (record { behind = omega arith; in_idx = omega arith; in_dat = omega arith }, tt);
  free_distinct = (tt, tt);
  table = omega arith;
  few = omega arith;
  few_free = omega arith;
  absent = refl;
  some_text = omega arith;
  clean = (refl, (refl, tt));
  is_key = record { no_null = (refl, tt); no_sep = (refl, tt) };
}

free_same_slot : slot one_free (codes "b") ≡ slot one_free (codes "c")
unfolding db_hash
free_same_slot = refl

db_store-Reuses_example :
    Reuses
      (codes "c")
      (codes "ab")
      (codes "b")
      (b_entry ∷ [])
      []
      free_entry
      one_free
      (db_store (codes "c") (codes "ab") insert one_free)
db_store-Reuses_example =
    db_store-Reuses insert (codes "c") (codes "ab") (codes "b") (b_entry ∷ []) (free_entry ∷ []) []
      0 free_entry one_free by_insert one_free-Reusable (fits_here free_entry [] refl)
      free_same_slot
