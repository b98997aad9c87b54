-- ===== src/Db/Chain/Store.antt =====
-- What `db_store` does behind its search when the key is not in the data base.
use apue_learning.Common.{
  ℕ, ◌+◌, ◌≡◌, refl, ap, ◌∙◌, sym, subst, Bool, true, false, List, [], ◌∷◌, ◌++◌, none, ℤ, pos,
  arith, length,
}
use apue_learning.CString.{print_pad}
use apue_learning.Bytes.{write_at}
use apue_learning.Process.{Run, done, Prog, and_then, ◌>>=◌, ◌>>◌, pure}
use apue_learning.Db.{Db, ptr_sz, newline, index_file, lock, unlock, release}
use apue_learning.Db.Find.{unlock_chain}
use apue_learning.Db.Store.{
  Flag, insert, store, db_findfree, findfree_loop, store_free, store_new, store_found,
}
use apue_learning.Db.Append.{CanAppend, append_lem, append-Appended}
use apue_learning.Db.Record.{PtrAt, Fits}
use apue_learning.Db.Record.Read.{readptr_lem}
use apue_learning.Db.Record.Write.{record_bytes}
use apue_learning.Db.Chain.{Found, miss, Kept}

-- An empty free list.
abbrev pub NoneFree : Db → Type 0
NoneFree s = PtrAt s.idx 0 0

-- The flags that let a new key in.
pub data Adds : Flag → Type 0 where
  by_insert : Adds insert
  by_store : Adds store

abbrev after_free : Db → Db
after_free s = record s {
  idxpos = 7;
  held =
      release index_file 0 1
        (record { file = index_file; start = 0; len = 1; exclusive = true } ∷ s.held);
}

findfree_lem :
    (keylen datlen : ℕ) (s : Db)
    → NoneFree s
    → db_findfree keylen datlen s ≡ done false (after_free s)
unfolding db_findfree lock unlock findfree_loop
findfree_lem keylen datlen s h =
    rw
      (readptr_lem
        (record s {
          held = record { file = index_file; start = 0; len = 1; exclusive = true } ∷ s.held;
        })
        0 0 h)
      refl

-- The state in which a new record is appended, once the chain's pointer is read.
abbrev ready : Db → Db
ready s = after_free (record s { idxpos = s.chainoff + ptr_sz })

-- A call that returns 0 and has put the record at the ends of the files.
pub data Stored (key text : List ℕ) (p c : ℕ) (s : Db) : Run Db ℤ → Type 0 where
  stored :
      (u : Db)
      → u.idx
        ≡ write_at
            (write_at s.idx (length s.idx) (record_bytes p key (length s.dat) (length text + 1)))
            c
            (print_pad ptr_sz (length s.idx))
      → u.dat ≡ write_at s.dat (length s.dat) (text ++ newline ∷ [])
      → u.hashoff ≡ s.hashoff
      → u.nhash ≡ s.nhash
      → Stored key text p c s (done (pos 0) u)

abbrev pub leave : Prog Db ℤ → Prog Db ℤ
leave m = do rc ← m; unlock_chain; pure rc

added-Stored :
    (key text : List ℕ) (p : ℕ) (s : Db)
    → CanAppend key text p s
    → Stored key text p s.chainoff s (leave (store_free false key text (pos p)) (ready s))
unfolding store_free unlock_chain unlock
added-Stored key text p s can =
    let can' : CanAppend key text p (ready s) = record {
      small = can.small;
      room = can.room;
      is_key = can.is_key;
      fits = can.fits;
      clean = can.clean;
    } in
    let a = append-Appended key text p (ready s) can' in
    rw (append_lem key text p (ready s) can') (stored _ a.idx a.dat a.table a.buckets)

new-Stored :
    (flag : Flag) (key text : List ℕ) (p : ℕ) (s : Db)
    → Adds flag
    → NoneFree s
    → PtrAt s.idx s.chainoff p
    → CanAppend key text p s
    → Stored key text p s.chainoff s (leave (store_found false flag key text) s)
unfolding store_found store_new store_free unlock_chain unlock
new-Stored _ key text p s by_insert free h can = rw (readptr_lem s s.chainoff p h) (
    rw
      (findfree_lem (length key) (length text + 1) (record s { idxpos = s.chainoff + ptr_sz }) free)
      (added-Stored key text p s can))
new-Stored _ key text p s by_store free h can = rw (readptr_lem s s.chainoff p h) (
    rw
      (findfree_lem (length key) (length text + 1) (record s { idxpos = s.chainoff + ptr_sz }) free)
      (added-Stored key text p s can))

CanAppend-Kept :
    {key text : List ℕ} {p : ℕ} (s t : Db)
    → Kept s t
    → CanAppend key text p s
    → CanAppend key text p t
CanAppend-Kept {key} {text} s t k can = record {
  small = can.small;
  room = omega (arith, ap length k.same_idx, can.room);
  is_key = can.is_key;
  fits = subst (λ d. Fits key (length d) (length text + 1)) (sym k.same_dat) can.fits;
  clean = can.clean;
}

Stored-Kept :
    {key text : List ℕ} {p : ℕ} (s t : Db) {r : Run Db ℤ}
    → Kept s t
    → Stored key text p t.chainoff t r
    → Stored key text p s.chainoff s r
Stored-Kept {key} {text} {p} s t k (stored u qi qd qh qn) =
    stored u
      (qi
        ∙ ap
            (λ i.
              write_at (write_at i (length i) (record_bytes p key (length t.dat) (length text + 1)))
                t.chainoff (print_pad ptr_sz (length i)))
            k.same_idx
        ∙ ap
            (λ d.
              write_at
                (write_at s.idx (length s.idx) (record_bytes p key (length d) (length text + 1)))
                t.chainoff (print_pad ptr_sz (length s.idx)))
            k.same_dat
        ∙ ap
            (λ c.
              write_at
                (write_at s.idx (length s.idx)
                  (record_bytes p key (length s.dat) (length text + 1)))
                c (print_pad ptr_sz (length s.idx)))
            k.same_chain)
      (qd ∙ ap (λ d. write_at d (length d) (text ++ newline ∷ [])) k.same_dat) (qh ∙ k.same_table)
      (qn ∙ k.same_buckets)

-- The rest of `db_store`, when the search found nothing.
pub missed-Stored :
    (flag : Flag) (key text : List ℕ) (p : ℕ) (s : Db) (r : Run Db Bool)
    → Adds flag
    → NoneFree s
    → PtrAt s.idx s.chainoff p
    → CanAppend key text p s
    → Found s none r
    → Stored key text p s.chainoff s (and_then r (λ found. leave (store_found found flag key text)))
missed-Stored flag key text p s r a free h can (miss t k) = Stored-Kept s t k (
    new-Stored flag key text p t a (subst (λ i. PtrAt i 0 0) (sym k.same_idx) free)
      (subst (λ c. PtrAt t.idx c p) (sym k.same_chain)
        (subst (λ i. PtrAt i s.chainoff p) (sym k.same_idx) h))
      (CanAppend-Kept s t k can))
