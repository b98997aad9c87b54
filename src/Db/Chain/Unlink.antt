-- ===== src/Db/Chain/Unlink.antt =====
-- What `_db_dodelete` leaves in the files: the record's bytes are blanked, and two pointers change.
use apue_learning.Common.{
  ℕ, ◌+◌, ◌-◌, ◌≤◌, ◌≡◌, refl, List, [], ◌∷◌, ◌++◌, pos, arith, length, map, replicate, leb, ◌&&◌,
  true,
}
use apue_learning.CString.{print_pad}
use apue_learning.Bytes.{write_at}
use apue_learning.Process.{done}
use apue_learning.Db.{
  Db, index_file, release, lock, unlock, seek_set, newline, space, ptr_sz, ptr_max, idxlen_min,
  idxlen_max,
}
use apue_learning.Db.Index.{index_text, db_writeidx}
use apue_learning.Db.Data.{db_writedat}
use apue_learning.Db.Delete.{db_dodelete, blank_buffers}
use apue_learning.Db.Record.{PtrAt, Fits}
use apue_learning.Db.Record.Read.{readptr_lem}
use apue_learning.Db.Record.Write.{pointed, record_bytes, writeptr_lem}

-- The blanks that a key and its data are overwritten by.
abbrev pub blanks : List ℕ → List ℕ
blanks = map (λ _. space)

small_enough : (a b : ℕ) → a ≤ b → leb a b ≡ true
small_enough a b h = ground arith

in_range : (a b c : ℕ) → a ≤ b → b ≤ c → (leb a b && leb b c) ≡ true
in_range a b c h k = ground arith

pub writedat_set_lem :
    (text : List ℕ) (s : Db)
    → db_writedat text s.datoff seek_set s
      ≡ done tt (record s {
        dat = write_at s.dat s.datoff (text ++ newline ∷ []);
        datlen = length text + 1;
      })
unfolding db_writedat
writedat_set_lem text s = refl

pub writeidx_set_lem :
    (key : List ℕ) (p : ℕ) (s : Db)
    → p ≤ ptr_max
    → Fits key s.datoff s.datlen
    → db_writeidx key s.idxoff seek_set (pos p) s
      ≡ done tt (record s {
        idx = write_at s.idx s.idxoff (record_bytes p key s.datoff s.datlen);
        idxpos = s.idxoff + length (record_bytes p key s.datoff s.datlen);
        idxbuf = index_text key s.datoff s.datlen;
        ptrval = pos p;
      })
unfolding db_writeidx
writeidx_set_lem key p s small fits = rw (small_enough p ptr_max small) (
    rw (
      in_range idxlen_min (length (index_text key s.datoff s.datlen)) idxlen_max fits.min_length
        fits.max_length))

-- The files behind the calls, for the record at `at` that the pointer at `o` leads to, with the free
-- list's old head and the record's old successor.
abbrev pub idx_blank : List ℕ → ℕ → List ℕ → ℕ → ℕ → ℕ → ℕ → ℕ → List ℕ
idx_blank idx at key datoff datlen free next o =
    write_at
      (write_at (write_at idx at (record_bytes free (blanks key) datoff datlen)) 0
        (print_pad ptr_sz at))
      o (print_pad ptr_sz next)

abbrev pub dat_blank : List ℕ → ℕ → ℕ → List ℕ
dat_blank dat datoff n = write_at dat datoff (replicate n space ++ newline ∷ [])

-- The states behind the writes.
abbrev wiped : Db → Db
wiped s = record s {
  held = record { file = index_file; start = 0; len = 1; exclusive = true } ∷ s.held;
  datbuf = replicate (s.datlen - 1) space;
  idxbuf = blanks s.idxbuf;
  dat = write_at s.dat s.datoff (replicate (s.datlen - 1) space ++ newline ∷ []);
  datlen = length (replicate (s.datlen - 1) space) + 1;
  idxpos = 7;
}

abbrev freed : ℕ → Db → Db
freed free s =
    let b = record_bytes free s.idxbuf s.datoff s.datlen in
    record s {
      idx = write_at s.idx s.idxoff b;
      idxpos = s.idxoff + length b;
      idxbuf = index_text s.idxbuf s.datoff s.datlen;
      ptrval = pos free;
    }

abbrev pub deleted : ℕ → ℕ → Db → Db
deleted free next s =
    let t = pointed s.ptroff next (pointed 0 s.idxoff (freed free (wiped s))) in
    record t { held = release index_file 0 1 t.held }

pub dodelete_lem :
    (s : Db) (free next : ℕ)
    → PtrAt s.idx 0 free
    → s.ptrval ≡ pos next
    → next ≤ ptr_max
    → s.idxoff ≤ ptr_max
    → Fits (blanks s.idxbuf) s.datoff (length (replicate (s.datlen - 1) space) + 1)
    → db_dodelete s ≡ done tt (deleted free next s)
unfolding db_dodelete blank_buffers lock unlock db_writedat
dodelete_lem s free next hf qv small room fits =
    rw (readptr_lem (record (wiped s) { idxpos = s.idxpos }) 0 free hf) (
      rw (writeidx_set_lem (blanks s.idxbuf) free (wiped s) hf.small fits) (
        rw (writeptr_lem (freed free (wiped s)) 0 s.idxoff room) (
          rw (qv) (
            rw (writeptr_lem (pointed 0 s.idxoff (freed free (wiped s))) s.ptroff next small)
              refl))))
