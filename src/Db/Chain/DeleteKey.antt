-- ===== src/Db/Chain/DeleteKey.antt =====
-- `db_delete` of a key that its chain has, followed by a fetch.
use apue_learning.Common.{
  ℕ, ◌+◌, ◌*◌, ◌≡◌, refl, true, List, ◌∷◌, none, some, ℤ, pos, arith, length, Bool, ap, ◌∙◌, sym,
  subst, if◌then◌else◌, bytes_eq,
}
use apue_learning.Process.{Run, done, and_then, Prog, ◌>>◌, pure, modify}
use apue_learning.Db.{Db, inc, unlock, ptr_sz}
use apue_learning.Db.Find.{unlock_chain, db_fetch, db_hash}
use apue_learning.Db.Delete.{db_dodelete, db_delete, delete_found}
use apue_learning.Db.Record.{PtrAt}
use apue_learning.Db.Chain.{Entry, lookup}
use apue_learning.Db.Chain.Fetch.{slot, searching, find_and_lock_lem, Fetched}
use apue_learning.Db.Chain.Append.{fetch_given}
use apue_learning.Db.Chain.Store.{leave}
use apue_learning.Db.Chain.Linked.{
  start, Linked, Linked-pointer, Linked-Chain, Spot, Sought, at_spot, nowhere,
}
use apue_learning.Db.Chain.Layout.{lookup-Spot}
use apue_learning.Db.Chain.Blank.{blank}
use apue_learning.Db.Chain.Delete.{
  Deletable, Freed, unlinked, Spot-length, dodelete-Freed, search-Sought,
}

-- A call that returns 0 in a state in which the chain has lost the key's record, the free list has it
-- at its front, blanked, and a fetch of the key `other` gives what the chain now says.
pub data Deletes (key other : List ℕ) (c : ℕ) (es free : List Entry) : Run Db ℤ → Type 0 where
  deletes :
      {o : ℕ} {d : Entry} {rest : List Entry} (u : Db)
      → Spot key c es o d rest
      → Linked u.idx u.dat c rest
      → Linked u.idx u.dat 0 (blank d ∷ free)
      → Fetched u (if bytes_eq key other then none else lookup other es) (db_fetch other u)
      → Deletes key other c es free (done (pos 0) u)

-- What `db_delete` does between the deletion and the unlocking.
abbrev counted : Unit {0} → Prog Db ℤ
counted _ = do
  modify λ db. record db { counts = record (db.counts) { delok = inc db.counts.delok } }
  pure (pos 0)

module _ (key other : List ℕ) (es fs : List Entry) (s : Db) (h : Deletable key es fs s)
    (same : slot s other ≡ slot s key) where
  state-Deletes :
      {o : ℕ} {d : Entry} {rest : List Entry} (u : Db)
      → Spot key (slot s key) es o d rest
      → Linked u.idx u.dat (slot s key) rest
      → Linked u.idx u.dat 0 (blank d ∷ fs)
      → length u.idx ≡ length s.idx
      → u.hashoff ≡ s.hashoff
      → u.nhash ≡ s.nhash
      → Deletes key other (slot s key) es fs (done (pos 0) u)
  state-Deletes {rest = rest} u sp l lf li qh qn = deletes u sp l lf (
      subst (λ x. Fetched u x (db_fetch other u)) (lookup-Spot other sp h.distinct)
        (fetch_given other u u.idx u.dat (start rest) rest refl refl
          (subst (λ x. PtrAt u.idx x (start rest))
            (sym same
              ∙ sym (
                  ap (λ n. db_hash n other * ptr_sz + u.hashoff) qn
                  ∙ ap (λ x. db_hash s.nhash other * ptr_sz + x) qh))
            (Linked-pointer l))
          (Linked-Chain l) (omega (arith, h.few, Spot-length sp, li))))

  Freed-Deletes :
      {o : ℕ} {d : Entry} {rest : List Entry} (r : Run Db (Unit {0}))
      → Spot key (slot s key) es o d rest
      → Freed key es fs s d rest r
      → Deletes key other (slot s key) es fs (leave (λ _. and_then r counted) s)
  unfolding unlock_chain unlock
  Freed-Deletes r sp (unlinked u l lf li ld qc qh qn) = state-Deletes _ sp l lf li qh qn

  found-Deletes :
      {text : List ℕ} (r : Run Db Bool)
      → lookup key es ≡ some text
      → Sought (searching key true s) key (slot s key) es r
      → Deletes key other (slot s key) es fs (and_then r (λ found. leave (delete_found found)))
  unfolding delete_found
  found-Deletes r q (nowhere t k e) = absurd cc
  found-Deletes r q (at_spot t k f) =
      Freed-Deletes (db_dodelete t) f.spot (dodelete-Freed key other es fs s h t k f)

-- When the key's chain and the free list are well formed, no two of their records share a byte of the
-- files and the chain's keys are distinct, `db_delete` of a key that the chain has returns 0. The
-- chain has then lost just that record, the free list has it at its front, with its key and its
-- data blanked, and a fetch of any key of the chain returns the null pointer for the deleted
-- key, and otherwise the data as before.
pub db_delete-Deletes :
    (key other text : List ℕ) (es free : List Entry) (s : Db)
    → Deletable key es free s
    → lookup key es ≡ some text
    → slot s other ≡ slot s key
    → Deletes key other (slot s key) es free (db_delete key s)
unfolding db_delete
db_delete-Deletes key other text es free s h q same =
    rw (find_and_lock_lem key true s (start es) (Linked-pointer h.chain))
      (found-Deletes key other es free s h same _ q (search-Sought key other es free s h))
