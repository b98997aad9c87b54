-- ===== src/Db/Chain/Append.antt =====
-- A chain after `append_record` has put a record in front of it, and what `db_fetch` then returns.
use apue_learning.Common.{
  ℕ, suc, ◌+◌, ◌≤◌, ◌≡◌, ap, ◌∙◌, sym, subst, List, [], ◌∷◌, ◌++◌, some, pos, arith, length, inl,
  inr, bytes_eq, All, if◌then◌else◌,
}
use apue_learning.CString.{print_pad}
use apue_learning.CString.Decimal.{length-print_pad, Ne}
use apue_learning.Bytes.{write_at, length-write_at}
use apue_learning.Process.{done}
use apue_learning.Db.{Db, newline}
use apue_learning.Db.Index.{index_text}
use apue_learning.Db.Find.{db_fetch}
use apue_learning.Db.Store.{append_record}
use apue_learning.Db.Append.{CanAppend, Appended, appended, append_lem, append-Appended}
use apue_learning.Db.Record.{PtrAt, Fits, IsKey}
use apue_learning.Db.Record.Write.{
  PtrAt-Apart, EntryAt-Apart, DataAt-Apart, PtrAt-write, PtrAt-record, EntryAt-record, DataAt-write,
  length-record_bytes, record_bytes,
}
use apue_learning.Db.Chain.{Entry, Chain, chain_end, link, lookup}
use apue_learning.Db.Chain.Fetch.{slot, Fetched, db_fetch-lookup}

-- A record that lies behind the pointer at `c` and inside the two files.
pub record Inside (c n m : ℕ) (e : Entry) : Type 0 where
  pub behind : c + 7 ≤ e.at
  pub in_idx : e.at + 11 + length (index_text e.key e.datoff (length e.text + 1)) ≤ n
  pub in_dat : e.datoff + (length e.text + 1) ≤ m

module _ (key text : List ℕ) (p c : ℕ) (idx dat : List ℕ) (small : p ≤ 9999999)
    (room : length idx ≤ 9999999) (fits : Fits key (length dat) (length text + 1))
    (clean : c + 7 ≤ length idx) where
  abbrev pub with_record : List ℕ
  with_record = write_at idx (length idx) (record_bytes p key (length dat) (length text + 1))

  abbrev pub idx' : List ℕ
  idx' = write_at with_record c (print_pad 7 (length idx))

  abbrev pub dat' : List ℕ
  dat' = write_at dat (length dat) (text ++ newline ∷ [])

  pad_length : length (print_pad 7 (length idx)) ≡ 7
  pad_length = length-print_pad 6 (length idx) (omega (arith, room))

  PtrAt-kept : {off q : ℕ} → c + 7 ≤ off → off + 7 ≤ length idx → PtrAt idx off q → PtrAt idx' off q
  PtrAt-kept h k pt =
      PtrAt-Apart with_record c (print_pad 7 (length idx)) (inl (omega (arith, pad_length))) (
        PtrAt-Apart idx (length idx) (record_bytes p key (length dat) (length text + 1))
          (inr (k, omega arith)) pt)

  Chain-kept :
      {off : ℕ} {es : List Entry}
      → Chain idx dat off es
      → All (Inside c (length idx) (length dat)) es
      → Chain idx' dat' off es
  Chain-kept chain_end h = chain_end
  Chain-kept (link e next es lt pt en da ch) (i, h) =
      link e next es lt (PtrAt-kept i.behind (omega (arith, i.in_idx)) pt)
        (EntryAt-Apart with_record c (print_pad 7 (length idx))
          (inl (omega (arith, pad_length, i.behind)))
          (EntryAt-Apart idx (length idx) (record_bytes p key (length dat) (length text + 1))
            (inr (omega (arith, i.in_idx), omega arith)) en))
        (DataAt-Apart dat (length dat) (text ++ newline ∷ []) (inr (i.in_dat, omega arith)) da)
        (Chain-kept ch h)

  abbrev pub added : Entry
  added = record { at = length idx; key = key; text = text; datoff = length dat }

  pub Chain-added :
      {es : List Entry}
      → IsKey key
      → All (Ne 0) text
      → Chain idx dat p es
      → All (Inside c (length idx) (length dat)) es
      → Chain idx' dat' (length idx) (added ∷ es)
  Chain-added k n ch h =
      link added p _ (omega (arith, clean))
        (PtrAt-Apart with_record c (print_pad 7 (length idx))
          (inl (omega (arith, pad_length, clean)))
          (PtrAt-record idx (length idx) p key (length dat) (length text + 1) small))
        (EntryAt-Apart with_record c (print_pad 7 (length idx))
          (inl (omega (arith, pad_length, clean)))
          (EntryAt-record idx (length idx) p key (length dat) (length text + 1) small k fits))
        (DataAt-write dat (length dat) text n) (Chain-kept ch h)

  pub length-idx' : suc (length idx) ≤ length idx'
  length-idx' =
      let a =
        length-write_at idx (length idx) (record_bytes p key (length dat) (length text + 1))
          (omega arith) in
      let b =
        length-record_bytes idx (length idx) p key (length dat) (length text + 1) small fits in
      let d = length-write_at with_record c (print_pad 7 (length idx)) (omega (arith, a, clean)) in
      omega (arith, a, b, d)

-- The state before an append: a chain of the key's hash value, inside the files.
pub record Before (key : List ℕ) (p : ℕ) (es : List Entry) (s : Db) : Type 0 where
  pub positioned : s.chainoff ≡ slot s key
  pub table : slot s key + 7 ≤ length s.idx
  pub chain : Chain s.idx s.dat p es
  pub inside : All (Inside (slot s key) (length s.idx) (length s.dat)) es
  pub few : length es ≤ length s.idx

-- A fetch in state `t`, whose files are given.
pub fetch_given :
    (key : List ℕ) (t : Db) (idx dat : List ℕ) (p : ℕ) (es : List Entry)
    → t.idx ≡ idx
    → t.dat ≡ dat
    → PtrAt idx (slot t key) p
    → Chain idx dat p es
    → length es ≤ length idx
    → Fetched t (lookup key es) (db_fetch key t)
fetch_given key t idx dat p es qi qd hp c h =
    db_fetch-lookup key t p es (subst (λ i. PtrAt i (slot t key) p) (sym qi) hp)
      (subst (λ d. Chain t.idx d p es) (sym qd) (subst (λ i. Chain i dat p es) (sym qi) c))
      (subst (λ i. length es ≤ length i) (sym qi) h)

-- When a record fits, its key's chain is well formed and lies inside the files, and the DB structure
-- points at that chain with the chain's first offset as `ptrval`, then `append_record` succeeds, and
-- afterwards a fetch of any key of the same chain returns the new data if it is the new key, and
-- otherwise what it returned before.
pub db_fetch-append_record :
    (key text : List ℕ) (p : ℕ) (es : List Entry) (s : Db) (other : List ℕ)
    → CanAppend key text p s
    → Before key p es s
    → slot s other ≡ slot s key
    → (append_record key text (pos p) s ≡ done tt (appended key text p s))
      × Fetched
          (appended key text p s)
          (if bytes_eq key other then some text else lookup other es)
          (db_fetch other (appended key text p s))
unfolding lookup
db_fetch-append_record key text p es s other can b same =
    let a : Appended key text p s (appended key text p s) = append-Appended key text p s can in
    let c = slot s key in
    (
      append_lem key text p s can,
      fetch_given other (appended key text p s)
          (idx' key text p c s.idx s.dat can.small can.room can.fits b.table)
          (dat' key text p c s.idx s.dat can.small can.room can.fits b.table) (length s.idx)
          (added key text p c s.idx s.dat can.small can.room can.fits b.table ∷ es)
          (a.idx
            ∙ ap
                (λ o.
                  write_at
                    (write_at s.idx (length s.idx)
                      (record_bytes p key (length s.dat) (length text + 1)))
                    o (print_pad 7 (length s.idx)))
                b.positioned)
          a.dat
          (subst
            (λ o.
              PtrAt (idx' key text p c s.idx s.dat can.small can.room can.fits b.table) o
                (length s.idx))
            (sym same)
            (PtrAt-write (with_record key text p c s.idx s.dat can.small can.room can.fits b.table)
              c (length s.idx) can.room))
          (Chain-added key text p c s.idx s.dat can.small can.room can.fits b.table can.is_key
            can.clean b.chain b.inside)
          (omega (
            arith,
            b.few,
            length-idx' key text p c s.idx s.dat can.small can.room can.fits b.table,
          )),
    )
