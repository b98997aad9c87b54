-- ===== src/Db/Chain/Linked.antt =====
-- Chains seen from the pointer that starts them, and where `_db_find_and_lock` stops on one: the
-- record, and the pointer that leads to it.
use apue_learning.Common.{
  ℕ, zero, suc, ◌+◌, ◌<◌, ◌≡◌, refl, sym, subst, Bool, true, false, List, [], ◌∷◌, none, pos, arith,
  length, bytes_eq, Bool-cases, inl, inr,
}
use apue_learning.Process.{Run, done}
use apue_learning.Db.{Db}
use apue_learning.Db.Find.{find_loop}
use apue_learning.Db.Record.{PtrAt, EntryAt, DataAt}
use apue_learning.Db.Record.Read.{readidx_lem, described}
use apue_learning.Db.Chain.{
  Entry, Chain, chain_end, link, lookup, Kept, looked, find_step, Kept-described, Kept-passed,
}

-- What a chain's pointer holds.
abbrev pub start : List Entry → ℕ
start [] = 0
start (e ∷ es) = e.at

-- The records that the pointer at an offset leads to.
pub data Linked (idx dat : List ℕ) : ℕ → List Entry → Type 0 where
  nothing_linked : {c : ℕ} → PtrAt idx c 0 → Linked idx dat c []
  linked :
      {c : ℕ} (e : Entry) (es : List Entry)
      → PtrAt idx c e.at
      → 0 < e.at
      → EntryAt idx e.at e.key e.datoff (length e.text + 1)
      → DataAt dat e.datoff e.text
      → Linked idx dat e.at es
      → Linked idx dat c (e ∷ es)

pub Linked-pointer :
    {idx dat : List ℕ} {c : ℕ} {es : List Entry} → Linked idx dat c es → PtrAt idx c (start es)
Linked-pointer (nothing_linked p) = p
Linked-pointer (linked e es p lt en da l) = p

pub Linked-Chain :
    {idx dat : List ℕ} {c : ℕ} {es : List Entry} → Linked idx dat c es → Chain idx dat (start es) es
Linked-Chain (nothing_linked p) = chain_end
Linked-Chain (linked e es p lt en da l) =
    link e (start es) es lt (Linked-pointer l) en da (Linked-Chain l)

-- The first record with the key is `d`, the pointer at `o` leads to it, and `rest` are the others.
pub data Spot (key : List ℕ) : ℕ → List Entry → ℕ → Entry → List Entry → Type 0 where
  here :
      {c : ℕ} (e : Entry) (es : List Entry) → bytes_eq e.key key ≡ true → Spot key c (e ∷ es) c e es
  there :
      {c o : ℕ} {d : Entry} (e : Entry) {es rest : List Entry}
      → bytes_eq e.key key ≡ false
      → Spot key e.at es o d rest
      → Spot key c (e ∷ es) o d (e ∷ rest)

-- The `DB` structure describes the record at the spot and the pointer to it.
pub record Located (s : Db) (key : List ℕ) (c : ℕ) (es : List Entry) (o next : ℕ) (d : Entry)
    (rest : List Entry) (t : Db) : Type 0 where
  pub spot : Spot key c es o d rest
  pub successor : PtrAt s.idx d.at next
  pub entry : EntryAt s.idx d.at d.key d.datoff (length d.text + 1)
  pub to_it : t.ptroff ≡ o
  pub index_at : t.idxoff ≡ d.at
  pub data_at : t.datoff ≡ d.datoff
  pub data_length : t.datlen ≡ length d.text + 1
  pub its_key : t.idxbuf ≡ d.key
  pub its_ptr : t.ptrval ≡ pos next

-- How the search ends.
pub data Sought (s : Db) (key : List ℕ) (c : ℕ) (es : List Entry) : Run Db Bool → Type 0 where
  at_spot :
      {o next : ℕ} {d : Entry} {rest : List Entry} (t : Db)
      → Kept s t
      → Located s key c es o next d rest t
      → Sought s key c es (done true t)
  nowhere : (t : Db) → Kept s t → lookup key es ≡ none → Sought s key c es (done false t)

Sought-there :
    {s : Db} {key : List ℕ} {c : ℕ} {e : Entry} {es : List Entry} {r : Run Db Bool}
    → bytes_eq e.key key ≡ false
    → Sought s key e.at es r
    → Sought s key c (e ∷ es) r
unfolding lookup
Sought-there {e = e} b (at_spot t k f) = at_spot t k (record {
  spot = there e b f.spot;
  successor = f.successor;
  entry = f.entry;
  to_it = f.to_it;
  index_at = f.index_at;
  data_at = f.data_at;
  data_length = f.data_length;
  its_key = f.its_key;
  its_ptr = f.its_ptr;
})
Sought-there b (nowhere t k h) = nowhere t k (rw b h)

-- A search with at least one round more than the chain has records stops at the first record that
-- has the key, if there is one.
pub find_loop-Sought :
    (f : ℕ) (key : List ℕ) (s : Db) {c : ℕ} {es : List Entry} (t : Db)
    → Kept s t
    → t.ptroff ≡ c
    → Linked s.idx s.dat c es
    → length es < f
    → Sought s key c es (find_loop f key (pos (start es)) t)
unfolding find_loop lookup
find_loop-Sought zero key s t k q l h = absurd (omega arith)
find_loop-Sought (suc f) key s t k q (nothing_linked p) h = nowhere t k refl
find_loop-Sought (suc f) key s {c} t k q (linked e es p lt en da l) h =
    let u = described e.key e.datoff (length e.text + 1) e.at (start es) t in
    let k' = Kept-described e (start es) t k in
    let k'' = Kept-passed e.at u k' in
    subst (Sought s key c (e ∷ es))
      (sym (
        find_step f key e.at (start es) t u lt (
          readidx_lem e.key e.datoff (length e.text + 1) t e.at (start es) lt
            (subst (λ i. PtrAt i e.at (start es)) (sym k.same_idx) (Linked-pointer l))
            (subst (λ i. EntryAt i e.at e.key e.datoff (length e.text + 1)) (sym k.same_idx) en))))
      (elim (Bool-cases (bytes_eq e.key key)) [
        | inl b ↦
            subst (λ x. Sought s key c (e ∷ es) (looked f key e.at (start es) x u)) (sym b)
              (at_spot u k' (record {
                spot = here e es b;
                successor = Linked-pointer l;
                entry = en;
                to_it = q;
                index_at = refl;
                data_at = refl;
                data_length = refl;
                its_key = refl;
                its_ptr = refl;
              }))
        | inr b ↦
            subst (λ x. Sought s key c (e ∷ es) (looked f key e.at (start es) x u)) (sym b)
              (Sought-there b
                (find_loop-Sought f key s (record u { ptroff = e.at }) k'' refl l (omega arith)))
      ])
