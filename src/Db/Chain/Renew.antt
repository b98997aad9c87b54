-- ===== src/Db/Chain/Renew.antt =====
-- `db_store` of new data of another length, behind the deletion of the old record: the append in front
-- of what is left of the chain.
use apue_learning.Common.{
  ℕ, ◌+◌, ◌*◌, ◌<◌, ◌≤◌, ◌≡◌, refl, List, [], ◌∷◌, Option, some, ℤ, pos, arith, length, All,
  Bool-cases, inl, inr, ap, ◌∙◌, sym, subst, if◌then◌else◌, bytes_eq,
}
use apue_learning.CString.{print_pad}
use apue_learning.CString.Decimal.{Ne}
use apue_learning.Bytes.{write_at}
use apue_learning.Process.{done, ◌>>=◌, ◌>>◌, pure, modify, Prog}
use apue_learning.Db.{Db, unlock, ptr_sz, ptr_max, inc}
use apue_learning.Db.Index.{db_readptr}
use apue_learning.Db.Find.{unlock_chain, db_fetch, db_hash}
use apue_learning.Db.Store.{append_record}
use apue_learning.Db.Append.{CanAppend, append_lem, append-Appended}
use apue_learning.Db.Record.{PtrAt, Fits, IsKey}
use apue_learning.Db.Record.Read.{readptr_lem}
use apue_learning.Db.Record.Write.{PtrAt-write}
use apue_learning.Db.Chain.{Entry, lookup}
use apue_learning.Db.Chain.Fetch.{slot, Fetched}
use apue_learning.Db.Chain.Append.{
  fetch_given, Inside, idx', dat', added, with_record, Chain-added, length-idx',
}
use apue_learning.Db.Chain.Store.{leave}
use apue_learning.Db.Chain.Insert.{Stores, stores}
use apue_learning.Db.Chain.Linked.{start, Linked, Linked-pointer, Linked-Chain, Spot}
use apue_learning.Db.Chain.Layout.{Spot-All, lookup-Spot_other}
use apue_learning.Db.Chain.Remove.{Within}
use apue_learning.Db.Chain.Delete.{Deletable, Spot-length}

-- New data that the data base has room for.
pub record Replaceable (key text : List ℕ) (es free : List Entry) (s : Db) : Type 0 where
  pub deletable : Deletable key es free s
  pub behind : All (λ e. slot s key + 7 ≤ e.at) es
  pub some_text : 0 < length text
  pub clean : All (Ne 0) text
  pub is_key : IsKey key
  pub room : length s.idx ≤ ptr_max
  pub fits : Fits key (length s.dat) (length text + 1)

module _ (key text other : List ℕ) (es fs : List Entry) (s : Db) (h : Replaceable key text es fs s)
    (same : slot s other ≡ slot s key) where
  abbrev pub result : Option (List ℕ)
  result = if bytes_eq key other then some text else lookup other es

  -- The other slot, in a state that has the same table.
  pub slot-eq : (u : Db) → u.hashoff ≡ s.hashoff → u.nhash ≡ s.nhash → slot u other ≡ slot s key
  slot-eq u qh qn =
      ap (λ n. db_hash n other * ptr_sz + u.hashoff) qn
      ∙ ap (λ x. db_hash s.nhash other * ptr_sz + x) qh
      ∙ same

  All-Inside :
      (xs : List Entry)
      → All (λ e. slot s key + 7 ≤ e.at) xs
      → All (Within (length s.idx) (length s.dat)) xs
      → All (Inside (slot s key) (length s.idx) (length s.dat)) xs
  All-Inside [] b w = tt
  All-Inside (e ∷ xs) b w = (
    record { behind = b.0; in_idx = omega (arith, w.0.in_idx); in_dat = w.0.in_dat },
    All-Inside xs b.1 w.1,
  )

  lookup-added :
      {o : ℕ} {rest : List Entry} {d : Entry}
      → Spot key (slot s key) es o d rest
      → (if bytes_eq key other then some text else lookup other rest) ≡ result
  lookup-added sp = elim (Bool-cases (bytes_eq key other)) [
    | inl q ↦ rw q refl
    | inr q ↦ rw q (lookup-Spot_other other sp q)
  ]

  -- What follows `_db_dodelete`: the new record is appended in front of what is left of the chain.
  abbrev pub renew : Prog Db ℤ
  renew = do
    ptrval ← λ db. db_readptr db.chainoff db
    append_record key text ptrval
    modify λ db. record db { counts = record (db.counts) { stor3 = inc db.counts.stor3 } }
    pure (pos 0)

  module _ {o : ℕ} {rest : List Entry} {d : Entry} (u : Db) (sp : Spot key (slot s key) es o d rest)
      (l : Linked u.idx u.dat (slot s key) rest) (li : length u.idx ≡ length s.idx)
      (ld : length u.dat ≡ length s.dat) where
    abbrev moved : Db
    moved = record u { idxpos = u.chainoff + 7 }

    can : CanAppend key text (start rest) moved
    can = record {
      small = (Linked-pointer l).small;
      room = omega (arith, li, h.room);
      is_key = h.is_key;
      fits = subst (λ n. Fits key n (length text + 1)) (sym ld) h.fits;
      clean = h.clean;
    }

    table : slot s key + 7 ≤ length u.idx
    table = omega (arith, li, h.deletable.table)

    abbrev chained : List ℕ
    chained = idx' key text (start rest) (slot s key) u.idx u.dat can.small can.room can.fits table

    -- A state with the files that the append leaves.
    added-Stores :
        (w : Db)
        → w.idx ≡ chained
        → w.dat
          ≡ dat' key text (start rest) (slot s key) u.idx u.dat can.small can.room can.fits table
        → w.hashoff ≡ s.hashoff
        → w.nhash ≡ s.nhash
        → Stores other result (done (pos 0) w)
    unfolding lookup
    added-Stores w qi qd qh qn =
        let inside =
          All-Inside rest (Spot-All (λ e. slot s key + 7 ≤ e.at) sp h.behind).1
            (Spot-All (Within (length s.idx) (length s.dat)) sp h.deletable.laid.within).1 in
        stores w (
          subst (λ x. Fetched w x (db_fetch other w)) (lookup-added sp)
            (fetch_given other w chained
              (dat' key text (start rest) (slot s key) u.idx u.dat can.small can.room can.fits
                table)
              (length u.idx)
              (added key text (start rest) (slot s key) u.idx u.dat can.small can.room can.fits
                  table
                ∷ rest)
              qi qd
              (subst (λ x. PtrAt chained x (length u.idx)) (sym (slot-eq w qh qn))
                (PtrAt-write
                  (with_record key text (start rest) (slot s key) u.idx u.dat can.small can.room
                    can.fits table)
                  (slot s key) (length u.idx) can.room))
              (Chain-added key text (start rest) (slot s key) u.idx u.dat can.small can.room
                can.fits table h.is_key h.clean (Linked-Chain l)
                (subst (λ n. All (Inside (slot s key) n (length u.dat)) rest) (sym li)
                  (subst (λ n. All (Inside (slot s key) (length s.idx) n) rest) (sym ld) inside)))
              (omega (
                arith,
                h.deletable.few,
                Spot-length sp,
                li,
                length-idx' key text (start rest) (slot s key) u.idx u.dat can.small can.room
                    can.fits table,
              ))))

    pub renew-Stores :
        u.chainoff ≡ slot s key
        → u.hashoff ≡ s.hashoff
        → u.nhash ≡ s.nhash
        → Stores other result (leave renew u)
    unfolding unlock_chain unlock
    renew-Stores qc qh qn =
        let a = append-Appended key text (start rest) moved can in
        rw
          (readptr_lem u u.chainoff (start rest)
            (subst (λ x. PtrAt u.idx x (start rest)) (sym qc) (Linked-pointer l)))
          (rw (append_lem key text (start rest) moved can) (
            added-Stores _
              (a.idx
                ∙ ap
                    (λ x.
                      write_at
                        (with_record key text (start rest) (slot s key) u.idx u.dat can.small
                          can.room can.fits table)
                        x (print_pad 7 (length u.idx)))
                    qc)
              a.dat qh qn))
