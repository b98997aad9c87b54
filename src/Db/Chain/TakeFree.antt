-- ===== src/Db/Chain/TakeFree.antt =====
-- `_db_findfree` when the free list has a record of the right sizes.
use apue_learning.Common.{
  ℕ, zero, suc, ◌+◌, ◌≤◌, ◌<◌, ◌≡◌, refl, List, ◌∷◌, arith, length, ap, sym, subst, Bool, true,
  false, ◌&&◌, ◌==◌, pos,
}
use apue_learning.CString.{print_pad}
use apue_learning.Bytes.{write_at}
use apue_learning.Process.{Run, done, and_then, ◌>>◌, pure}
use apue_learning.Db.{Db, ptr_sz, index_file, lock, unlock}
use apue_learning.Db.Index.{db_readidx, db_writeptr}
use apue_learning.Db.Store.{findfree_loop, db_findfree}
use apue_learning.Db.Record.{PtrAt, EntryAt}
use apue_learning.Db.Record.Read.{readidx_lem, readptr_lem, described}
use apue_learning.Db.Record.Write.{writeptr_lem, pointed}
use apue_learning.Db.Chain.{Entry, Kept, Kept-described}
use apue_learning.Db.Chain.Linked.{start, Linked, linked, Linked-pointer}
use apue_learning.Db.Chain.Reuse.{Fitting, fits_here, fits_later}

-- The record was taken: the pointer to it has its successor, and the `DB` structure describes it.
pub record Taken (s : Db) (o next : ℕ) (d : Entry) (t : Db) : Type 0 where
  pub idx : t.idx ≡ write_at s.idx o (print_pad ptr_sz next)
  pub same_dat : t.dat ≡ s.dat
  pub same_chain : t.chainoff ≡ s.chainoff
  pub same_table : t.hashoff ≡ s.hashoff
  pub same_buckets : t.nhash ≡ s.nhash
  pub index_at : t.idxoff ≡ d.at
  pub data_at : t.datoff ≡ d.datoff

pub data Takes (s : Db) (o next : ℕ) (d : Entry) : Run Db Bool → Type 0 where
  takes : (t : Db) → Taken s o next d t → Takes s o next d (done true t)

abbrev chosen : ℕ → ℕ → ℕ → ℕ → ℕ → ℕ → Bool → Db → Run Db Bool
chosen f k n save off next b db = elim b [
  | true ↦ (do db_writeptr save db.ptrval; pure true) db
  | false ↦ findfree_loop f k n off (pos next) db
]

free_step :
    (f k n save off next : ℕ) (s t : Db)
    → 0 < off
    → db_readidx (pos off) s ≡ done (pos next) t
    → findfree_loop (suc f) k n save (pos off) s
      ≡ chosen f k n save off next (length t.idxbuf == k && t.datlen == n) t
unfolding findfree_loop
free_step f k n save zero next s t lt e = absurd (omega arith)
free_step f k n save (suc off) next s t lt e = rw e refl

-- With at least as many rounds as the list has records, the loop takes the first one that fits.
pub findfree_loop-Takes :
    (f k n : ℕ) (s : Db) {c o next : ℕ} {fs rest : List Entry} {d : Entry} (t : Db)
    → Kept s t
    → Fitting k n c fs o d rest
    → Linked s.idx s.dat c fs
    → PtrAt s.idx d.at next
    → length fs ≤ f
    → Takes s o next d (findfree_loop f k n c (pos (start fs)) t)
findfree_loop-Takes zero k n s t kp (fits_here e es b) l pt h = absurd (omega arith)
findfree_loop-Takes zero k n s t kp (fits_later e b g) l pt h = absurd (omega arith)
findfree_loop-Takes (suc f) k n s {c} {o} {next} {d = d} t kp (fits_here _ es b)
      (linked _ _ p lt en da l) pt h =
    let u = described d.key d.datoff (length d.text + 1) d.at next t in
    let k' = Kept-described d next t kp in
    subst (Takes s o next d)
      (sym (
        free_step f k n c d.at next t u lt (
          readidx_lem d.key d.datoff (length d.text + 1) t d.at next lt
            (subst (λ i. PtrAt i d.at next) (sym kp.same_idx) pt)
            (subst (λ i. EntryAt i d.at d.key d.datoff (length d.text + 1)) (sym kp.same_idx) en))))
      (subst (λ x. Takes s o next d (chosen f k n c d.at next x u)) (sym b)
        (subst (λ r. Takes s o next d (and_then r (λ _. pure true)))
          (sym (writeptr_lem u c next pt.small))
          (takes (pointed c next u) (record {
            idx = ap (λ i. write_at i c (print_pad ptr_sz next)) kp.same_idx;
            same_dat = kp.same_dat;
            same_chain = kp.same_chain;
            same_table = kp.same_table;
            same_buckets = kp.same_buckets;
            index_at = refl;
            data_at = refl;
          }))))
findfree_loop-Takes (suc f) k n s {c} {o} {next} {d = d} t kp (fits_later e {es = es} b g)
      (linked _ _ p lt en da l) pt h =
    let u = described e.key e.datoff (length e.text + 1) e.at (start es) t in
    let k' = Kept-described e (start es) t kp in
    subst (Takes s o next d)
      (sym (
        free_step f k n c e.at (start es) t u lt (
          readidx_lem e.key e.datoff (length e.text + 1) t e.at (start es) lt
            (subst (λ i. PtrAt i e.at (start es)) (sym kp.same_idx) (Linked-pointer l))
            (subst (λ i. EntryAt i e.at e.key e.datoff (length e.text + 1)) (sym kp.same_idx) en))))
      (subst (λ x. Takes s o next d (chosen f k n c e.at (start es) x u)) (sym b)
        (findfree_loop-Takes f k n s u k' g l pt (omega arith)))

-- `_db_findfree` with its locks.
pub findfree-Takes :
    (k n : ℕ) (s : Db) {o next : ℕ} {fs rest : List Entry} {d : Entry}
    → Fitting k n 0 fs o d rest
    → Linked s.idx s.dat 0 fs
    → PtrAt s.idx d.at next
    → length fs ≤ length s.idx
    → Takes s o next d (db_findfree k n s)
unfolding db_findfree lock unlock
findfree-Takes k n s {o} {next} {fs} {d = d} g l pt h =
    let held = record { file = index_file; start = 0; len = 1; exclusive = true } ∷ s.held in
    let t = record s { held = held; idxpos = 7 } in
    rw (readptr_lem (record s { held = held }) 0 (start fs) (Linked-pointer l)) (
      unlocked (findfree_loop (suc (length s.idx)) k n 0 (pos (start fs)) t) (
        findfree_loop-Takes (suc (length s.idx)) k n s t
          (record {
            same_idx = refl;
            same_dat = refl;
            same_chain = refl;
            same_table = refl;
            same_buckets = refl;
            same_errno = refl;
            same_counts = refl;
          })
          g l pt (omega (arith, h))))
  where
    unlocked :
        (r : Run Db Bool)
        → Takes s o next d r
        → Takes s o next d (and_then r (λ rc. do unlock index_file 0 1; pure rc))
    unlocked _ (takes t h) = takes _ (record {
      idx = h.idx;
      same_dat = h.same_dat;
      same_chain = h.same_chain;
      same_table = h.same_table;
      same_buckets = h.same_buckets;
      index_at = h.index_at;
      data_at = h.data_at;
    })
