-- ===== src/MemStream/Tests.antt =====
-- Runs of memory streams, and the theorems at concrete streams.
use apue_learning.Common.{
  ℕ, ◌≡◌, refl, List, Option, none, [], ◌∷◌, some, pos, negsuc, arith, replicate, true, false,
}
use apue_learning.Bytes.{write_at}
use apue_learning.MemStream.{
  MemStream, ok, err, seek_set, seek_end, read, write, seek, calls, fmemopen, mstream_read,
  mstream_write, mstream_seek, extend, terminate, copied, einval, state_of, undefined,
}
use apue_learning.MemStream.Bounds.{IsValid, Stays, fmemopen-calls-IsValid}
use apue_learning.MemStream.Roundtrip.{IsUpdate, read-write}

-- an update stream over eight bytes, as "w+" opens it
abbrev eight : MemStream
eight = record {
  buf = replicate 8 0xff;
  rsize = 8;
  vsize = 0;
  curpos = 0;
  flags = record {
    ms_read = true;
    ms_write = true;
    ms_append = false;
    ms_truncate = true;
    ms_mybuf = false;
  };
}

fmemopen_update : fmemopen (some (replicate 8 0xff)) (replicate 8 0) 8 (b'w' ∷ b'+' ∷ []) ≡ ok eight
unfolding fmemopen
fmemopen_update = refl

fmemopen_bad_mode : fmemopen (some (replicate 8 0)) [] 8 (b'r' ∷ b'w' ∷ []) ≡ err einval
unfolding fmemopen
fmemopen_bad_mode = refl

buffer_of : Option MemStream → Option (List ℕ)
buffer_of none = none
buffer_of (some ms) = some ms.buf

-- A stream for writing alone loses its last byte to the null byte when the buffer is full.
full_write :
    buffer_of (
      state_of eight (
        mstream_write (1 ∷ 2 ∷ []) (record eight {
          rsize = 2;
          buf = 0 ∷ 0 ∷ [];
          flags = record (eight.flags) { ms_read = false };
        })))
    ≡ some (1 ∷ 0 ∷ [])
unfolding mstream_write extend terminate copied write_at buffer_of
full_write = refl

fmemopen-calls-IsValid_example :
    Stays (calls (write (1 ∷ 2 ∷ 3 ∷ []) ∷ seek (negsuc 0) seek_end ∷ read 5 ∷ []) eight)
fmemopen-calls-IsValid_example =
    fmemopen-calls-IsValid (some (replicate 8 0xff)) (replicate 8 0) 8 (b'w' ∷ b'+' ∷ [])
      (write (1 ∷ 2 ∷ 3 ∷ []) ∷ seek (negsuc 0) seek_end ∷ read 5 ∷ []) eight (omega arith) refl
      (λ b e. ground arith) fmemopen_update

eight-IsValid : IsValid eight
eight-IsValid = omega arith

eight-IsUpdate : IsUpdate eight
eight-IsUpdate = record { reads = refl; writes = refl; no_append = refl }

read-write_example :
    (t : MemStream) × (t' : MemStream) × (t'' : MemStream) × (mstream_write (7 ∷ 8 ∷ 9 ∷ []) eight
      ≡ ok (3, t))
    × (mstream_seek (pos 0) seek_set t ≡ ok (0, t'))
    × (mstream_read 3 t' ≡ ok (7 ∷ 8 ∷ 9 ∷ [], t''))
read-write_example =
    read-write (7 ∷ 8 ∷ 9 ∷ []) eight eight-IsValid eight-IsUpdate (omega arith) (omega arith)

-- The conversion to `int` drops the high bits of a position, and a position above INT_MAX is negative.
seek_dropped : mstream_seek (pos 4294967296) seek_set eight ≡ ok (0, eight)
unfolding mstream_seek
seek_dropped = refl

write_before_buffer :
    mstream_write
      (1 ∷ [])
      (record eight { rsize = 4294967296; vsize = 3000000000; curpos = 3000000000 })
    ≡ undefined
unfolding mstream_write
write_before_buffer = refl
