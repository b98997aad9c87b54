-- ===== src/Db/Chain/Rewrite.antt =====
-- What `reuse_record` of db/db.c writes, and where the free record that it overwrites lies.
use apue_learning.Common.{
  ℕ, ◌+◌, ◌≤◌, ◌≡◌, refl, List, [], ◌∷◌, ◌++◌, arith, length, true, ◌&&◌, ◌==◌, leb, pos, All, inl,
}
use apue_learning.CString.{print_pad}
use apue_learning.Bytes.{write_at}
use apue_learning.Process.{done}
use apue_learning.Db.{Db, ptr_sz, ptr_max, newline}
use apue_learning.Db.Store.{reuse_record}
use apue_learning.Db.Index.{index_text}
use apue_learning.Db.Record.{Fits}
use apue_learning.Db.Record.Write.{writeptr_lem, pointed, record_bytes}
use apue_learning.Db.Chain.{Entry}
use apue_learning.Db.Chain.Unlink.{writedat_set_lem, writeidx_set_lem}
use apue_learning.Db.Chain.Layout.{Clear, Clear-swap, Off}
use apue_learning.Db.Chain.Remove.{Within}
use apue_learning.Db.Chain.Reuse.{Fitting, fits_here, fits_later}
use apue_learning.Db.Chain.FreeList.{Fitting-Off}

abbrev pub rewritten : List ℕ → List ℕ → ℕ → Db → Db
rewritten key text p t =
    let b = record_bytes p key t.datoff (length text + 1) in
    pointed t.chainoff t.idxoff (record t {
      dat = write_at t.dat t.datoff (text ++ newline ∷ []);
      datlen = length text + 1;
      idx = write_at t.idx t.idxoff b;
      idxpos = t.idxoff + length b;
      idxbuf = index_text key t.datoff (length text + 1);
      ptrval = pos p;
    })

pub reuse_lem :
    (key text : List ℕ) (p : ℕ) (t : Db)
    → p ≤ ptr_max
    → t.idxoff ≤ ptr_max
    → Fits key t.datoff (length text + 1)
    → reuse_record key text (pos p) t ≡ done tt (rewritten key text p t)
unfolding reuse_record
reuse_lem key text p t small room fits =
    let t3 = record t {
      dat = write_at t.dat t.datoff (text ++ newline ∷ []);
      datlen = length text + 1;
    } in
    let b = record_bytes p key t.datoff (length text + 1) in
    let t4 = record t3 {
      idx = write_at t.idx t.idxoff b;
      idxpos = t.idxoff + length b;
      idxbuf = index_text key t.datoff (length text + 1);
      ptrval = pos p;
    } in
    rw (writedat_set_lem text t) (
      rw (writeidx_set_lem key p t3 small fits)
        (rw (writeptr_lem t4 t.chainoff t.idxoff room) refl))

pub reuse-cong :
    {i i' : List ℕ} {a a' b b' c c' : ℕ} (p n : ℕ) (key : List ℕ)
    → i ≡ i'
    → a ≡ a'
    → b ≡ b'
    → c ≡ c'
    → write_at (write_at i a (record_bytes p key b n)) c (print_pad ptr_sz a)
      ≡ write_at (write_at i' a' (record_bytes p key b' n)) c' (print_pad ptr_sz a')
reuse-cong p n key qi qa qb qc = rw (qi, qa, qb, qc) refl

pub dat-cong :
    {d d' : List ℕ} {b b' : ℕ} (l : List ℕ) → d ≡ d' → b ≡ b' → write_at d b l ≡ write_at d' b' l
dat-cong l qd qb = rw (qd, qb) refl

pub in_range : (a b c : ℕ) → a ≤ b → b ≤ c → (leb a b && leb b c) ≡ true
in_range a b c h k = ground arith

from_sizes : (k k' n n' : ℕ) → (k == k' && n + 1 == n' + 1) ≡ true → (k ≡ k') × (n ≡ n')
from_sizes k k' n n' h = (ground (arith, h), ground (arith, h))

pub Fitting-sizes :
    {k n c o : ℕ} {es rest : List Entry} {d : Entry}
    → Fitting k (n + 1) c es o d rest
    → (length d.key ≡ k) × (length d.text ≡ n)
Fitting-sizes {k} {n} (fits_here e es b) = from_sizes (length e.key) k (length e.text) n b
Fitting-sizes (fits_later e b f) = Fitting-sizes f

pub All-low : (n m : ℕ) (es : List Entry) → All (Within n m) es → All (Off 0) es
All-low n m [] w = tt
All-low n m (e ∷ es) w = (inl w.0.behind, All-low n m es w.1)

pub All-Clear-swap_back : (d : Entry) (es : List Entry) → All (λ e. Clear e d) es → All (Clear d) es
All-Clear-swap_back d [] h = tt
All-Clear-swap_back d (e ∷ es) h = (Clear-swap h.0, All-Clear-swap_back d es h.1)

first_of :
    (e : Entry) (es fs : List Entry)
    → All (λ f. All (λ x. Clear x f) (e ∷ es)) fs
    → All (λ f. Clear f e) fs × All (λ f. All (λ x. Clear x f) es) fs
first_of e es [] h = (tt, tt)
first_of e es (f ∷ fs) h = let r = first_of e es fs h.1 in ((Clear-swap h.0.0, r.0), (h.0.1, r.1))

pub All-Off :
    {k n o : ℕ} {fs rest : List Entry} {d : Entry} (m l : ℕ) (es : List Entry)
    → Fitting k n 0 fs o d rest
    → All (Within m l) es
    → All (λ f. All (λ x. Clear x f) es) fs
    → All (Off o) es
All-Off m l [] g w h = tt
All-Off {fs = fs} m l (e ∷ es) g w h =
    let r = first_of e es fs h in (Fitting-Off e g (inl w.0.behind) r.0, All-Off m l es g w.1 r.1)
