-- ===== src/Db/Chain/Delete.antt =====
-- `_db_dodelete` for a record of a chain, when the chain and the free list are given.
use apue_learning.Common.{
  ℕ, suc, ◌+◌, ◌-◌, ◌≤◌, ◌≡◌, refl, true, List, [], ◌∷◌, pos, arith, length, All, ap, ◌∙◌, sym,
  subst, replicate, length-replicate,
}
use apue_learning.Process.{Run, done}
use apue_learning.Db.{Db, space}
use apue_learning.Db.Find.{find_loop}
use apue_learning.Db.Delete.{db_dodelete}
use apue_learning.Db.Record.{PtrAt, EntryAt, Fits}
use apue_learning.Db.Chain.{Entry, Kept}
use apue_learning.Db.Chain.Fetch.{slot, searching}
use apue_learning.Db.Chain.Linked.{
  start, Linked, Linked-pointer, Spot, here, there, Sought, find_loop-Sought, Located,
}
use apue_learning.Db.Chain.Unlink.{deleted, blanks, dodelete_lem, idx_blank, dat_blank}
use apue_learning.Db.Chain.Layout.{Clear, Off, Distinct, Spot-All, Spot-Off, Spot-Off_self}
use apue_learning.Db.Chain.Blank.{Room, blank, blanks-Fits, idx3, dat1, length-idx3, length-dat1}
use apue_learning.Db.Chain.Remove.{Within, Laid, Spot-pointer, Spot-bounds, removed, freed}

-- A data base in which the key's chain and the free list are well formed and laid out apart, and the
-- chain's keys are distinct.
pub record Deletable (key : List ℕ) (es free : List Entry) (s : Db) : Type 0 where
  pub chain : Linked s.idx s.dat (slot s key) es
  pub free_list : Linked s.idx s.dat 0 free
  pub laid : Laid (slot s key) (length s.idx) (length s.dat) es free
  pub table : slot s key + 7 ≤ length s.idx
  pub few : length es ≤ length s.idx
  pub distinct : Distinct es

-- What `_db_dodelete` leaves, when it was called for the record `d` of the chain.
pub data Freed (key : List ℕ) (es free : List Entry) (s : Db) (d : Entry) (rest : List Entry)
    : Run Db (Unit {0}) → Type 0 where
  unlinked :
      (u : Db)
      → Linked u.idx u.dat (slot s key) rest
      → Linked u.idx u.dat 0 (blank d ∷ free)
      → length u.idx ≡ length s.idx
      → length u.dat ≡ length s.dat
      → u.chainoff ≡ slot s key
      → u.hashoff ≡ s.hashoff
      → u.nhash ≡ s.nhash
      → Freed key es free s d rest (done tt u)

pub Spot-length :
    {key : List ℕ} {c o : ℕ} {es rest : List Entry} {d : Entry}
    → Spot key c es o d rest
    → length es ≡ suc (length rest)
Spot-length (here e es b) = refl
Spot-length (there e b sp) = ap suc (Spot-length sp)

All-flip :
    (d : Entry) (P : Entry → Entry → Type 0) {key : List ℕ} {c o : ℕ} {es rest : List Entry}
    (fs : List Entry)
    → Spot key c es o d rest
    → All (λ f. All (λ e. P e f) es) fs
    → All (P d) fs
All-flip d P [] sp h = tt
All-flip d P (f ∷ fs) sp h = ((Spot-All (λ e. P e f) sp h.0).0, All-flip d P fs sp h.1)

All-Off :
    {key : List ℕ} {c o : ℕ} {es rest : List Entry} {d : Entry} (fs : List Entry)
    → Spot key c es o d rest
    → All (Off c) fs
    → All (λ f. All (λ e. Clear e f) es) fs
    → All (Off o) fs
All-Off [] sp h k = tt
All-Off (f ∷ fs) sp h k = (Spot-Off f sp h.0 k.0, All-Off fs sp h.1 k.1)

pub idx_blank-cong :
    {i i' key key' : List ℕ} {a a' b b' n n' o o' : ℕ}
    → i ≡ i'
    → a ≡ a'
    → key ≡ key'
    → b ≡ b'
    → n ≡ n'
    → o ≡ o'
    → (free next : ℕ) → idx_blank i a key b n free next o ≡ idx_blank i' a' key' b' n' free next o'
idx_blank-cong qi qa qk qb qn qo free next = rw (qi, qa, qk, qb, qn, qo) refl

pub dat_blank-cong :
    {d d' : List ℕ} {b b' n n' : ℕ}
    → d ≡ d'
    → b ≡ b'
    → n ≡ n'
    → dat_blank d b n ≡ dat_blank d' b' n'
dat_blank-cong qd qb qn = rw (qd, qb, qn) refl

pub same-Fits :
    {key key' : List ℕ} {a a' n n' : ℕ}
    → key ≡ key'
    → a ≡ a'
    → n ≡ n'
    → Fits (blanks key') a' n'
    → Fits (blanks key) a n
same-Fits qk qa qn h = rw (qk, qa, qn) h

module _ (key other : List ℕ) (es fs : List Entry) (s : Db) (h : Deletable key es fs s) where
  -- The record that the search found, with room for the writes.
  pub Spot-Room :
      {o next : ℕ} {d : Entry} {rest : List Entry}
      → Spot key (slot s key) es o d rest
      → PtrAt s.idx d.at next
      → EntryAt s.idx d.at d.key d.datoff (length d.text + 1)
      → Room s.idx s.dat d (start fs) next o
  Spot-Room sp p en =
      let w = (Spot-All (Within (length s.idx) (length s.dat)) sp h.laid.within).0 in
      let b = Spot-bounds (length s.dat) sp h.laid.behind h.table h.laid.within in
      record {
        free_small = (Linked-pointer h.free_list).small;
        next_small = p.small;
        at_small = (Spot-pointer sp h.chain).small;
        behind = w.behind;
        in_idx = w.in_idx;
        in_dat = w.in_dat;
        fits = en.fits;
        ptr_behind = b.0;
        ptr_in = b.1;
        outside = Spot-Off_self sp h.laid.off h.laid.apart;
      }

  -- `_db_dodelete` of the record that the search found.
  pub dodelete-Freed :
      {o next : ℕ} {d : Entry} {rest : List Entry} (t : Db)
      → Kept (searching key true s) t
      → Located (searching key true s) key (slot s key) es o next d rest t
      → Freed key es fs s d rest (db_dodelete t)
  dodelete-Freed {o} {next} {d} {rest} t k f =
      let n : t.datlen - 1 ≡ length d.text = omega (arith, f.data_length) in
      let m : length (replicate (t.datlen - 1) space) + 1 ≡ length d.text + 1 =
        omega (arith, n, length-replicate (t.datlen - 1) space) in
      let r = Spot-Room f.spot f.successor f.entry in
      let i = idx3 s.idx s.dat d (start fs) next o r in
      let dd = dat1 s.idx s.dat d (start fs) next o r in
      let u = deleted (start fs) next t in
      let qi : u.idx ≡ i =
        idx_blank-cong k.same_idx f.index_at f.its_key f.data_at m f.to_it (start fs) next in
      let qd : u.dat ≡ dd = dat_blank-cong k.same_dat f.data_at n in
      let l =
        removed s.idx s.dat d (start fs) next o r key (slot s key) es rest f.spot h.chain
          f.successor h.laid.behind h.laid.within h.laid.off h.laid.apart in
      let lf =
        freed s.idx s.dat d (start fs) next o r fs refl h.free_list h.laid.free_low
          (All-flip d Clear fs f.spot h.laid.free_apart)
          (All-Off fs f.spot h.laid.free_off h.laid.free_apart) in
      subst (Freed key es fs s d rest)
        (sym (
          dodelete_lem t (start fs) next
            (subst (λ i. PtrAt i 0 (start fs)) (sym k.same_idx) (Linked-pointer h.free_list))
            f.its_ptr f.successor.small
            (omega (arith, f.index_at, (Spot-pointer f.spot h.chain).small))
            (same-Fits f.its_key f.data_at m
              (blanks-Fits d.key d.datoff (length d.text + 1) f.entry.fits))))
        (unlinked u
          (subst (λ x. Linked x u.dat (slot s key) rest) (sym qi)
            (subst (λ x. Linked i x (slot s key) rest) (sym qd) l))
          (subst (λ x. Linked x u.dat 0 (blank d ∷ fs)) (sym qi)
            (subst (λ x. Linked i x 0 (blank d ∷ fs)) (sym qd) lf))
          (ap length qi ∙ length-idx3 s.idx s.dat d (start fs) next o r)
          (ap length qd ∙ length-dat1 s.idx s.dat d (start fs) next o r) k.same_chain k.same_table
          k.same_buckets)

  -- The search for the key, from the chain's pointer on.
  pub search-Sought :
      Sought
        (searching key true s)
        key
        (slot s key)
        es
        (find_loop (suc (length s.idx)) key (pos (start es)) (searching key true s))
  search-Sought =
      find_loop-Sought (suc (length s.idx)) key (searching key true s) (searching key true s)
        (record {
          same_idx = refl;
          same_dat = refl;
          same_chain = refl;
          same_table = refl;
          same_buckets = refl;
          same_errno = refl;
          same_counts = refl;
        })
        refl h.chain (omega (arith, h.few))
