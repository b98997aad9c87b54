-- ===== src/Db/Chain.antt =====
-- Hash chains of the index file, and the search along one.
pub mod Fetch
pub mod Append
pub mod Store
pub mod Insert
pub mod Linked
pub mod Refuse
pub mod Layout
pub mod Unlink
pub mod Blank
pub mod Remove
pub mod Delete
pub mod DeleteKey
pub mod Overwrite
pub mod Renew
pub mod Replace
pub mod Reuse
pub mod FreeList
pub mod TakeFree
pub mod Rewrite
pub mod StoreFree
mod Tests
use apue_learning.Common.{
  ℕ, zero, suc, ◌+◌, ◌<◌, ◌≤◌, ◌≡◌, refl, ap, ◌∙◌, sym, subst, Bool, true, false, List, [], ◌∷◌,
  Option, none, some, pos, arith, length, bytes_eq, bytes_eq_refl, Bool-cases, inl, inr,
  if◌then◌else◌,
}
use apue_learning.Process.{Run, done, Prog, and_then}
use apue_learning.Db.{Db}
use apue_learning.Db.Index.{db_readidx}
use apue_learning.Db.Find.{find_loop}
use apue_learning.Db.Record.{PtrAt, EntryAt, DataAt}
use apue_learning.Db.Record.Read.{readidx_lem, described}

-- A record of a chain: where it is, its key and its data.
pub record Entry : Type 0 where
  pub at : ℕ
  pub key : List ℕ
  pub text : List ℕ
  pub datoff : ℕ

-- The records that are linked from an offset on, to a null pointer at the end.
pub data Chain (idx dat : List ℕ) : ℕ → List Entry → Type 0 where
  chain_end : Chain idx dat 0 []
  link :
      (e : Entry) (next : ℕ) (es : List Entry)
      → 0 < e.at
      → PtrAt idx e.at next
      → EntryAt idx e.at e.key e.datoff (length e.text + 1)
      → DataAt dat e.datoff e.text
      → Chain idx dat next es
      → Chain idx dat (e.at) (e ∷ es)

-- What the chain says of a key: the data of the first record with that key.
unfoldable pub lookup : List ℕ → List Entry → Option (List ℕ)
lookup key [] = none
lookup key (e ∷ es) = let rest = lookup key es in if bytes_eq e.key key then some e.text else rest

-- The files, the position of the chain, `errno` and the counters are as they were.
pub record Kept (s t : Db) : Type 0 where
  pub same_idx : t.idx ≡ s.idx
  pub same_dat : t.dat ≡ s.dat
  pub same_chain : t.chainoff ≡ s.chainoff
  pub same_table : t.hashoff ≡ s.hashoff
  pub same_buckets : t.nhash ≡ s.nhash
  pub same_errno : t.errno ≡ s.errno
  pub same_counts : t.counts ≡ s.counts

-- How the search ends, when the key's data are `r`: the `DB` structure describes the record found.
pub data Found (s : Db) : Option (List ℕ) → Run Db Bool → Type 0 where
  hit :
      {text : List ℕ} (t : Db)
      → Kept s t
      → t.datlen ≡ length text + 1
      → DataAt t.dat t.datoff text
      → Found s (some text) (done true t)
  miss : (t : Db) → Kept s t → Found s none (done false t)

-- Reading a record of the chain and passing it keep all of this.
pub Kept-described :
    {s : Db} (e : Entry) (next : ℕ) (t : Db)
    → Kept s t
    → Kept s (described e.key e.datoff (length e.text + 1) e.at next t)
Kept-described e next t k = record {
  same_idx = k.same_idx;
  same_dat = k.same_dat;
  same_chain = k.same_chain;
  same_table = k.same_table;
  same_buckets = k.same_buckets;
  same_errno = k.same_errno;
  same_counts = k.same_counts;
}

pub Kept-passed : {s : Db} (off : ℕ) (t : Db) → Kept s t → Kept s (record t { ptroff = off })
Kept-passed off t k = record {
  same_idx = k.same_idx;
  same_dat = k.same_dat;
  same_chain = k.same_chain;
  same_table = k.same_table;
  same_buckets = k.same_buckets;
  same_errno = k.same_errno;
  same_counts = k.same_counts;
}

abbrev pub looked : ℕ → List ℕ → ℕ → ℕ → Bool → Db → Run Db Bool
looked f key off next b db = elim b [
  | true ↦ done true db
  | false ↦ find_loop f key (pos next) (record db { ptroff = off })
]

pub find_step :
    (f : ℕ) (key : List ℕ) (off next : ℕ) (s t : Db)
    → 0 < off
    → db_readidx (pos off) s ≡ done (pos next) t
    → find_loop (suc f) key (pos off) s ≡ looked f key off next (bytes_eq t.idxbuf key) t
unfolding find_loop
find_step f key zero next s t lt e = absurd (omega arith)
find_step f key (suc off) next s t lt e = rw e refl

looked-Found :
    (f : ℕ) (key : List ℕ) (e : Entry) (next : ℕ) (es : List Entry) (s t : Db) (b : Bool)
    → Kept s t
    → t.datoff ≡ e.datoff
    → t.datlen ≡ length e.text + 1
    → DataAt s.dat e.datoff e.text
    → Found s (lookup key es) (find_loop f key (pos next) (record t { ptroff = e.at }))
    → Found s (if b then some e.text else lookup key es) (looked f key e.at next b t)
looked-Found f key e next es s t true k qo ql da h = hit t k ql (
    subst (λ o. DataAt t.dat o e.text) (sym qo)
      (subst (λ d. DataAt d e.datoff e.text) (sym k.same_dat) da))
looked-Found f key e next es s t false k qo ql da h = h

-- A search with at least one round more than the chain has records comes to an end, and finds what
-- the chain says.
pub find_loop-Found :
    (f : ℕ) (key : List ℕ) (s : Db) {off : ℕ} {es : List Entry} (t : Db)
    → Kept s t
    → Chain s.idx s.dat off es
    → length es < f
    → Found s (lookup key es) (find_loop f key (pos off) t)
unfolding find_loop lookup
find_loop-Found zero key s t k c h = absurd (omega arith)
find_loop-Found (suc f) key s t k chain_end h = miss t k
find_loop-Found (suc f) key s t k (link e next es lt p en da c) h =
    let u = described e.key e.datoff (length e.text + 1) e.at next t in
    let k' = Kept-described e next t k in
    let k'' = Kept-passed e.at u k' in
    subst (Found s (lookup key (e ∷ es)))
      (sym (
        find_step f key e.at next t u lt (
          readidx_lem e.key e.datoff (length e.text + 1) t e.at next lt
            (subst (λ i. PtrAt i e.at next) (sym k.same_idx) p)
            (subst (λ i. EntryAt i e.at e.key e.datoff (length e.text + 1)) (sym k.same_idx) en))))
      (looked-Found f key e next es s u (bytes_eq e.key key) k' refl refl da
        (find_loop-Found f key s (record u { ptroff = e.at }) k'' c (omega arith)))
