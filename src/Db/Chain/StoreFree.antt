-- ===== src/Db/Chain/StoreFree.antt =====
-- `db_store` of a new key in the place of a free record.
use apue_learning.Common.{
  ℕ, suc, ◌+◌, ◌*◌, ◌≤◌, ◌<◌, ◌≡◌, refl, List, [], ◌∷◌, ◌++◌, none, some, arith, length, ap, ◌∙◌,
  sym, subst, Bool, true, false, ℤ, pos, All, inl, inr, if◌then◌else◌, bytes_eq,
}
use apue_learning.CString.{print_pad}
use apue_learning.CString.Decimal.{Ne}
use apue_learning.Bytes.{write_at}
use apue_learning.Process.{Run, done, and_then, ◌>>=◌}
use apue_learning.Db.{Db, ptr_sz, newline, unlock}
use apue_learning.Db.Find.{db_fetch, db_hash, find_loop, unlock_chain}
use apue_learning.Db.Store.{
  Flag, insert, store, db_store, store_found, store_new, store_free, db_findfree,
}
use apue_learning.Db.Index.{db_readptr}
use apue_learning.Db.Record.{PtrAt, Fits, IsKey}
use apue_learning.Db.Record.Read.{readptr_lem}
use apue_learning.Db.Chain.{Entry, lookup, Kept, Found, miss, find_loop-Found}
use apue_learning.Db.Chain.Fetch.{slot, searching, find_and_lock_lem, Fetched}
use apue_learning.Db.Chain.Append.{fetch_given}
use apue_learning.Db.Chain.Store.{leave, Adds, by_insert, by_store}
use apue_learning.Db.Chain.Linked.{start, Linked, Linked-pointer, Linked-Chain}
use apue_learning.Db.Chain.Layout.{Clear, Off, Pairwise}
use apue_learning.Db.Chain.Remove.{Within, Laid}
use apue_learning.Db.Chain.Reuse.{
  Fitting, Fitting-All, Place, idx_reused, dat_reused, renewed, chain-reused, length-reused,
  length-dat_reused, length-index_text_same,
}
use apue_learning.Db.Chain.FreeList.{
  Free, Fitting-Free, Fitting-Split, Fitting-Off_self, Fitting-bound, free-reused,
}
use apue_learning.Db.Chain.TakeFree.{Takes, takes, findfree-Takes}
use apue_learning.Db.Chain.Rewrite.{
  reuse_lem, reuse-cong, dat-cong, in_range, Fitting-sizes, All-low, All-Clear-swap_back, All-Off,
}

-- A data base in which the key's chain, without the key, and the free list are well formed and laid out
-- apart, and a record that is new.
pub record Reusable (key text : List ℕ) (es free : List Entry) (s : Db) : Type 0 where
  pub chain : Linked s.idx s.dat (slot s key) es
  pub free_list : Linked s.idx s.dat 0 free
  pub laid : Laid (slot s key) (length s.idx) (length s.dat) es free
  pub free_within : All (Within (length s.idx) (length s.dat)) free
  pub free_distinct : Pairwise free
  pub table : slot s key + 7 ≤ length s.idx
  pub few : length es < length s.idx
  pub few_free : length free ≤ length s.idx
  pub absent : lookup key es ≡ none
  pub some_text : 0 < length text
  pub clean : All (Ne 0) text
  pub is_key : IsKey key

-- A call that returns 0 and has put the record in front of the chain, in the place of `d` in both files,
-- which are as long as before, with `rest` as the free list; a fetch of the key `other` gives what the
-- chain now says.
pub data Reuses (key text other : List ℕ) (es rest : List Entry) (d : Entry) (s : Db)
    : Run Db ℤ → Type 0 where
  reuses :
      (u : Db)
      → Linked u.idx u.dat
          (slot s key)
          (record { at = d.at; key = key; text = text; datoff = d.datoff } ∷ es)
      → Linked u.idx u.dat 0 rest
      → length u.idx ≡ length s.idx
      → length u.dat ≡ length s.dat
      → Fetched u (if bytes_eq key other then some text else lookup other es) (db_fetch other u)
      → Reuses key text other es rest d s (done (pos 0) u)

module _ (key text other : List ℕ) (es fs : List Entry) (s : Db) (h : Reusable key text es fs s)
    (same : slot s other ≡ slot s key) {o next : ℕ} {d : Entry} {rest : List Entry}
    (g : Fitting (length key) (length text + 1) 0 fs o d rest)
    (fr : Free s.idx s.dat o next d) where
  place : Place s.idx s.dat key text d (start es) next o (slot s key)
  place =
      let w = (Fitting-All (Within (length s.idx) (length s.dat)) g h.free_within).0 in
      let sizes = Fitting-sizes g in
      record {
        p_small = (Linked-pointer h.chain).small;
        next_small = fr.successor.small;
        at_small = fr.pointer.small;
        some_at = fr.some_at;
        in_idx = w.in_idx;
        in_dat = w.in_dat;
        fits = new_fits sizes;
        is_key = h.is_key;
        clean = h.clean;
        same_key = sizes.0;
        same_text = sizes.1;
        ptr_in =
            Fitting-bound (length s.idx) (length s.dat) g (omega (arith, h.laid.behind, h.table))
              h.free_within;
        chain_in = h.table;
        ptr_outside =
            Fitting-Off_self g (All-low (length s.idx) (length s.dat) fs h.free_within)
              h.free_distinct;
        chain_outside = (Fitting-All (Off (slot s key)) g h.laid.free_off).0;
        split = Fitting-Split (slot s key) g (inr (omega (arith, h.laid.behind))) h.laid.free_off;
      }
    where
      new_fits :
          (length d.key ≡ length key) × (length d.text ≡ length text)
          → Fits key d.datoff (length text + 1)
      new_fits q =
          let old : Fits d.key d.datoff (length text + 1) =
            subst (λ n. Fits d.key d.datoff (n + 1)) q.1 fr.entry.fits in
          let l = length-index_text_same key d.key d.datoff (length text + 1) (sym q.0) in
          record {
            min_length = omega (arith, l, old.min_length);
            max_length = omega (arith, l, old.max_length);
            some_data = old.some_data;
            max_data = old.max_data;
          }

  abbrev new_idx : List ℕ
  new_idx = idx_reused s.idx s.dat key text d (start es) next o (slot s key) place

  abbrev new_dat : List ℕ
  new_dat = dat_reused s.idx s.dat key text d (start es) next o (slot s key) place

  -- A state with the files behind the writes.
  state-Reuses :
      (u : Db)
      → u.idx ≡ new_idx
      → u.dat ≡ new_dat
      → u.hashoff ≡ s.hashoff
      → u.nhash ≡ s.nhash
      → Reuses key text other es rest d s (done (pos 0) u)
  unfolding lookup
  state-Reuses u qi qd qh qn =
      let cl =
        All-Clear-swap_back d es
          (Fitting-All (λ f. All (λ e. Clear e f) es) g h.laid.free_apart).0 in
      let l =
        chain-reused s.idx s.dat key text d (start es) next o (slot s key) place es refl h.chain cl
          (All-Off (length s.idx) (length s.dat) es g h.laid.within h.laid.free_apart) h.laid.off in
      let lf =
        free-reused s.idx s.dat key text d (start es) next o (slot s key) place 0 fs rest g
          h.free_list fr.successor (All-low (length s.idx) (length s.dat) fs h.free_within)
          h.free_distinct h.laid.free_off (inl (omega (arith, h.laid.behind))) in
      reuses u
        (subst
          (λ x.
            Linked x u.dat (slot s key)
              (renewed s.idx s.dat key text d (start es) next o (slot s key) place ∷ es))
          (sym qi)
          (subst
            (λ x.
              Linked new_idx x (slot s key)
                (renewed s.idx s.dat key text d (start es) next o (slot s key) place ∷ es))
            (sym qd) l))
        (subst (λ x. Linked x u.dat 0 rest) (sym qi)
          (subst (λ x. Linked new_idx x 0 rest) (sym qd) lf))
        (ap length qi ∙ length-reused s.idx s.dat key text d (start es) next o (slot s key) place)
        (ap length qd
          ∙ length-dat_reused s.idx s.dat key text d (start es) next o (slot s key) place)
        (fetch_given other u new_idx new_dat d.at
          (renewed s.idx s.dat key text d (start es) next o (slot s key) place ∷ es) qi qd
          (subst (λ x. PtrAt new_idx x d.at)
            (sym same
              ∙ sym (
                  ap (λ n. db_hash n other * ptr_sz + u.hashoff) qn
                  ∙ ap (λ x. db_hash s.nhash other * ptr_sz + x) qh))
            (Linked-pointer l))
          (Linked-Chain l)
          (omega (
            arith,
            h.few,
            length-reused s.idx s.dat key text d (start es) next o (slot s key) place,
          )))

  -- What follows `_db_findfree`.
  taken-Reuses :
      (t : Db) (r : Run Db Bool)
      → t.idx ≡ s.idx
      → t.dat ≡ s.dat
      → t.chainoff ≡ slot s key
      → t.hashoff ≡ s.hashoff
      → t.nhash ≡ s.nhash
      → Takes t o next d r
      → Reuses key text other es rest d s
          (leave (λ _. and_then r (λ free. store_free free key text (pos (start es)))) s)
  unfolding store_free unlock_chain unlock
  taken-Reuses t _ qi qd qc qh qn (takes u k) =
      rw
        (reuse_lem key text (start es) u place.p_small (omega (arith, k.index_at, place.at_small))
          (subst (λ a. Fits key a (length text + 1)) (sym k.data_at) place.fits))
        (state-Reuses _
          (reuse-cong (start es) (length text + 1) key
            (k.idx ∙ ap (λ i. write_at i o (print_pad ptr_sz next)) qi) k.index_at k.data_at
            (k.same_chain ∙ qc))
          (dat-cong (text ++ newline ∷ []) (k.same_dat ∙ qd) k.data_at) (k.same_table ∙ qh)
          (k.same_buckets ∙ qn))

  read_on :
      (t : Db)
      → Kept (searching key true s) t
      → Reuses key text other es rest d s (
          leave
            (λ _.
              (do
                ptrval ← λ db. db_readptr db.chainoff db
                free ← db_findfree (length key) (length text + 1)
                store_free free key text ptrval)
                t)
            s)
  unfolding unlock_chain unlock
  read_on t k =
      let t1 = record t { idxpos = t.chainoff + 7 } in
      rw
        (readptr_lem t t.chainoff (start es) (
          subst (λ c. PtrAt t.idx c (start es)) (sym k.same_chain)
            (subst (λ i. PtrAt i (slot s key) (start es)) (sym k.same_idx)
              (Linked-pointer h.chain))))
        (taken-Reuses t1 (db_findfree (length key) (length text + 1) t1) k.same_idx k.same_dat
          k.same_chain k.same_table k.same_buckets
          (findfree-Takes (length key) (length text + 1) t1 g
            (subst (λ i. Linked i t.dat 0 fs) (sym k.same_idx)
              (subst (λ x. Linked s.idx x 0 fs) (sym k.same_dat) h.free_list))
            (subst (λ i. PtrAt i d.at next) (sym k.same_idx) fr.successor)
            (omega (arith, h.few_free, ap length k.same_idx))))

  -- The rest of `db_store`, when the search found nothing.
  new-Reuses :
      (flag : Flag) (t : Db)
      → Adds flag
      → Kept (searching key true s) t
      → Reuses key text other es rest d s (leave (λ _. store_found false flag key text t) s)
  unfolding store_found store_new store_free unlock_chain unlock
  new-Reuses _ t by_insert k = read_on t k
  new-Reuses _ t by_store k = read_on t k

  missed-Reuses :
      (flag : Flag) (r : Run Db Bool)
      → Adds flag
      → Found (searching key true s) none r
      → Reuses key text other es rest d s
          (and_then r (λ found. leave (store_found found flag key text)))
  missed-Reuses flag r a (miss t k) = new-Reuses flag t a k

  searched-Reuses :
      (flag : Flag)
      → Adds flag
      → Reuses key text other es rest d s (
          and_then
            (find_loop (suc (length s.idx)) key (pos (start es)) (searching key true s))
            (λ found. leave (store_found found flag key text)))
  searched-Reuses flag a =
      let u = searching key true s in
      missed-Reuses flag (find_loop (suc (length s.idx)) key (pos (start es)) u) a (
        subst (λ x. Found u x (find_loop (suc (length s.idx)) key (pos (start es)) u)) h.absent
          (find_loop-Found (suc (length s.idx)) key u u
            (record {
              same_idx = refl;
              same_dat = refl;
              same_chain = refl;
              same_table = refl;
              same_buckets = refl;
              same_errno = refl;
              same_counts = refl;
            })
            (Linked-Chain h.chain) (omega (arith, h.few))))

  pub store-Reuses :
      (flag : Flag) → Adds flag → Reuses key text other es rest d s (db_store key text flag s)
  unfolding db_store
  store-Reuses _ by_insert =
      rw (in_range 2 (length text + 1) 1024 (omega (arith, h.some_text)) place.fits.max_data) (
        rw (find_and_lock_lem key true s (start es) (Linked-pointer h.chain))
          (searched-Reuses insert by_insert))
  store-Reuses _ by_store =
      rw (in_range 2 (length text + 1) 1024 (omega (arith, h.some_text)) place.fits.max_data) (
        rw (find_and_lock_lem key true s (start es) (Linked-pointer h.chain))
          (searched-Reuses store by_store))

-- When the key's chain does not have the key, the chain and the free list are well formed, their records
-- lie inside the files and no two of them share a byte, and the free list has a record of the new
-- record's sizes, `db_store` with DB_INSERT or DB_STORE returns 0. The first such record is then off
-- the free list, and the new record is at the front of the chain at its offset in the index file and
-- with its data at its offset in the data file; both files are as long as before, and a fetch of any
-- key of the chain returns the new data if it is the new key, and otherwise the data as before.
pub db_store-Reuses :
    (flag : Flag) (key text other : List ℕ) (es free rest : List Entry) (o : ℕ) (d : Entry) (s : Db)
    → Adds flag
    → Reusable key text es free s
    → Fitting (length key) (length text + 1) 0 free o d rest
    → slot s other ≡ slot s key
    → Reuses key text other es rest d s (db_store key text flag s)
db_store-Reuses flag key text other es free rest o d s a h g same =
    store-Reuses key text other es free s h same g (Fitting-Free g h.free_list).1 flag a
