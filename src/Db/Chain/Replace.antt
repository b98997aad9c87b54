-- ===== src/Db/Chain/Replace.antt =====
-- `db_store` of a key that its chain has: the data are overwritten in place when the lengths are
-- equal, and otherwise the old record goes to the free list and a new one is appended.
use apue_learning.Common.{
  ℕ, ◌+◌, ◌≤◌, ◌≡◌, refl, true, false, ◌&&◌, ◌==◌, leb, List, [], ◌∷◌, ◌++◌, some, pos, arith,
  length, Bool, Bool-cases, inl, inr, sym, subst, if◌then◌else◌, bytes_eq,
}
use apue_learning.Bytes.{write_at}
use apue_learning.Process.{Run, done, and_then}
use apue_learning.Db.{Db, newline, unlock}
use apue_learning.Db.Data.{db_writedat}
use apue_learning.Db.Find.{unlock_chain, db_fetch}
use apue_learning.Db.Delete.{db_dodelete}
use apue_learning.Db.Store.{Flag, replace, store, store_found, store_old, db_store}
use apue_learning.Db.Record.{PtrAt}
use apue_learning.Db.Chain.{Entry, lookup, Kept}
use apue_learning.Db.Chain.Fetch.{slot, searching, find_and_lock_lem, Fetched}
use apue_learning.Db.Chain.Append.{fetch_given}
use apue_learning.Db.Chain.Store.{leave}
use apue_learning.Db.Chain.Insert.{Stores, stores}
use apue_learning.Db.Chain.Linked.{
  start, Linked-pointer, Linked-Chain, Spot, Sought, at_spot, nowhere, Located,
}
use apue_learning.Db.Chain.Layout.{Spot-All}
use apue_learning.Db.Chain.Remove.{Within}
use apue_learning.Db.Chain.Delete.{Freed, unlinked, dodelete-Freed, search-Sought}
use apue_learning.Db.Chain.Overwrite.{
  with_text, lookup-with_text, length-with_text, over, Linked-with_text,
}
use apue_learning.Db.Chain.Renew.{Replaceable, result, slot-eq, renew, renew-Stores}

-- The flags that let a key's data be replaced.
pub data Replaces : Flag → Type 0 where
  by_replace : Replaces replace
  by_store : Replaces store

in_range : (a b c : ℕ) → a ≤ b → b ≤ c → (leb a b && leb b c) ≡ true
in_range a b c h k = ground arith

length-eq : (text : List ℕ) {n m : ℕ} → n ≡ m + 1 → length text ≡ m → (length text + 1 == n) ≡ true
length-eq text h k = ground arith

length-ne :
    (text : List ℕ) {n : ℕ} (m : ℕ)
    → n ≡ m + 1
    → (length text == m) ≡ false
    → (length text + 1 == n) ≡ false
length-ne text m h k = ground arith

over-cong :
    {f f' : List ℕ} {a a' : ℕ} (d : List ℕ) → f ≡ f' → a ≡ a' → write_at f a d ≡ write_at f' a' d
over-cong d p q = rw (p, q) refl

module _ (key text other : List ℕ) (es fs : List Entry) (s : Db) (h : Replaceable key text es fs s)
    (same : slot s other ≡ slot s key) where
  -- Data of the same length.
  over-Stores :
      {o : ℕ} {rest : List Entry} {d : Entry} (u : Db)
      → Spot key (slot s key) es o d rest
      → length text ≡ length d.text
      → u.idx ≡ s.idx
      → u.dat ≡ write_at s.dat d.datoff (text ++ newline ∷ [])
      → u.hashoff ≡ s.hashoff
      → u.nhash ≡ s.nhash
      → Stores other (result key text other es fs s h same) (done (pos 0) u)
  over-Stores {d = d} u sp len qi qd qh qn =
      let inside =
        (Spot-All (Within (length s.idx) (length s.dat)) sp h.deletable.laid.within).0.in_dat in
      let es' = with_text key text es in
      let l =
        Linked-with_text s.idx s.dat text d h.clean len inside sp h.deletable.chain
          h.deletable.laid.apart in
      stores u (
        subst (λ x. Fetched u x (db_fetch other u)) (lookup-with_text text other sp)
          (fetch_given other u s.idx (over s.idx s.dat text d h.clean len inside) (start es') es' qi
            qd
            (subst (λ x. PtrAt s.idx x (start es'))
              (sym (slot-eq key text other es fs s h same u qh qn)) (Linked-pointer l))
            (Linked-Chain l) (omega (arith, h.deletable.few, length-with_text key text es))))

  -- The two branches behind a successful search.
  in_place :
      {o next : ℕ} {rest : List Entry} {d : Entry} (t : Db)
      → Kept (searching key true s) t
      → Located (searching key true s) key (slot s key) es o next d rest t
      → length text ≡ length d.text
      → Stores other
          (result key text other es fs s h same)
          (leave (store_found true store key text) t)
  unfolding store_found store_old unlock_chain unlock db_writedat
  in_place t k f len = rw (length-eq text f.data_length len) (
      over-Stores _ f.spot len k.same_idx (over-cong (text ++ newline ∷ []) k.same_dat f.data_at)
        k.same_table k.same_buckets)

  Freed-Stores :
      {o : ℕ} {rest : List Entry} {d : Entry} (r : Run Db (Unit {0}))
      → Spot key (slot s key) es o d rest
      → Freed key es fs s d rest r
      → Stores other
          (result key text other es fs s h same)
          (leave (λ _. and_then r (λ _. renew key text other es fs s h same)) s)
  Freed-Stores r sp (unlinked u l lf li ld qc qh qn) =
      renew-Stores key text other es fs s h same u sp l li ld qc qh qn

  renewed :
      {o next : ℕ} {rest : List Entry} {d : Entry} (t : Db)
      → Kept (searching key true s) t
      → Located (searching key true s) key (slot s key) es o next d rest t
      → (length text == length d.text) ≡ false
      → Stores other
          (result key text other es fs s h same)
          (leave (store_found true store key text) t)
  unfolding store_found store_old
  renewed {d = d} t k f ne =
      rw (length-ne text (length d.text) f.data_length ne)
        (Freed-Stores (db_dodelete t) f.spot (dodelete-Freed key other es fs s h.deletable t k f))

  spot-Stores :
      {o next : ℕ} {rest : List Entry} {d : Entry} (t : Db)
      → Kept (searching key true s) t
      → Located (searching key true s) key (slot s key) es o next d rest t
      → Stores other
          (result key text other es fs s h same)
          (leave (store_found true store key text) t)
  spot-Stores {d = d} t k f = elim (Bool-cases (length text == length d.text)) [
    | inl b ↦ in_place t k f (ground (arith, b))
    | inr b ↦ renewed t k f b
  ]

  found-Stores :
      {flag : Flag} {old : List ℕ} (r : Run Db Bool)
      → Replaces flag
      → lookup key es ≡ some old
      → Sought (searching key true s) key (slot s key) es r
      → Stores other
          (result key text other es fs s h same)
          (and_then r (λ found. leave (store_found found flag key text)))
  unfolding store_found store_old
  found-Stores r by q (nowhere t k e) = absurd cc
  found-Stores r by_replace q (at_spot t k f) = spot-Stores t k f
  found-Stores r by_store q (at_spot t k f) = spot-Stores t k f

-- When the key's chain and the free list are well formed and laid out apart, the chain's records lie
-- behind its pointer, and the new data fit, `db_store` with DB_REPLACE or DB_STORE of a key that the chain has returns 0, for data of the old
-- length as for data of another one, and afterwards a fetch of any key of the chain returns
-- the new data if it is the key, and otherwise the data as before.
pub db_store-Replaces :
    (flag : Flag) (key text other old : List ℕ) (es free : List Entry) (s : Db)
    → Replaces flag
    → Replaceable key text es free s
    → lookup key es ≡ some old
    → slot s other ≡ slot s key
    → Stores other
        (if bytes_eq key other then some text else lookup other es)
        (db_store key text flag s)
unfolding db_store
db_store-Replaces _ key text other old es free s by_replace h q same =
    rw (in_range 2 (length text + 1) 1024 (omega (arith, h.some_text)) h.fits.max_data) (
      rw (find_and_lock_lem key true s (start es) (Linked-pointer h.deletable.chain)) (
        found-Stores key text other es free s h same _ by_replace q
          (search-Sought key other es free s h.deletable)))
db_store-Replaces _ key text other old es free s by_store h q same =
    rw (in_range 2 (length text + 1) 1024 (omega (arith, h.some_text)) h.fits.max_data) (
      rw (find_and_lock_lem key true s (start es) (Linked-pointer h.deletable.chain)) (
        found-Stores key text other es free s h same _ by_store q
          (search-Sought key other es free s h.deletable)))
