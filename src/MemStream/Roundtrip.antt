-- ===== src/MemStream/Roundtrip.antt =====
-- Writing to a memory stream of exercises/fmemopen.c and reading it back.
use apue_learning.Common.{
  ℕ, ◌+◌, ◌-◌, ◌%◌, ◌≤◌, ◌<◌, ◌≡◌, refl, ap, ◌∙◌, true, false, not, ◌||◌, List, [], ◌∷◌, pos, arith,
  length, take_all, leb, ltb, if◌then◌else◌,
}
use apue_learning.Bytes.{read_at, write_at, read-write_self, read-write_before, length-write_at}
use apue_learning.MemStream.{
  MemStream, ok, err, ebadf, einval, seek_set, seek_to, int_of, int_max, mstream_read,
  mstream_write, mstream_seek, extend, terminate, least, write_pos, write_from,
}
use apue_learning.MemStream.Bounds.{
  IsValid, taken_bytes, filled_at, write_from-filled, int_of-small,
}

-- Open for reading and writing, as by "r+" and "w+", and not for appending.
pub record IsUpdate (ms : MemStream) : Type 0 where
  pub reads : ms.flags.ms_read ≡ true
  pub writes : ms.flags.ms_write ≡ true
  pub no_append : ms.flags.ms_append ≡ false

terminate_reader : (m : MemStream) → m.flags.ms_read ≡ true → terminate m ≡ m
unfolding terminate
terminate_reader m h = ground arith

extend-read_at :
    (m : MemStream) (o n : ℕ)
    → o + n ≤ m.curpos
    → m.curpos ≤ length m.buf
    → read_at (extend m).buf o n ≡ read_at m.buf o n
unfolding extend
extend-read_at m o n h k = ground (arith, read-write_before m.buf m.curpos o n (0 ∷ []) h k)

extend-vsize : (m : MemStream) → m.curpos ≤ (extend m).vsize
unfolding extend
extend-vsize m = ground arith

extend-flags : (m : MemStream) → (extend m).flags ≡ m.flags
unfolding extend
extend-flags m = ground arith

read_lem :
    (m : MemStream) (n : ℕ)
    → m.flags.ms_read ≡ true
    → m.curpos + n ≤ m.vsize
    → m.vsize ≤ m.rsize
    → 0 < n
    → (r : MemStream) × (mstream_read n m ≡ ok (read_at m.buf m.curpos n, r))
unfolding mstream_read
read_lem m n h k c l = (record m { curpos = m.curpos + n }, rw (h, enough, whole, inside))
  where
    enough : leb m.vsize m.curpos ≡ false
    enough = ground arith

    whole : least n (m.vsize - m.curpos) ≡ n
    whole = ground arith

    inside : leb (m.curpos + n) m.rsize ≡ true
    inside = ground arith

module _ (b : List ℕ) (ms : MemStream) (v : IsValid ms) (u : IsUpdate ms)
    (fits : ms.curpos + length b ≤ ms.rsize) where
  whole : taken_bytes b ms ≡ length b
  whole = ground arith

  at_position : write_pos ms ≡ ms.curpos
  at_position = rw u.no_append refl

  abbrev filled : MemStream
  filled = record ms { buf = write_at ms.buf ms.curpos b; curpos = ms.curpos + length b }

  filled-eq : filled_at (write_pos ms) (taken_bytes b ms) b ms ≡ filled
  filled-eq =
      ap (λ n. filled_at (write_pos ms) n b ms) whole
      ∙ ap (λ p. filled_at p (length b) b ms) at_position
      ∙ ap (λ d. record ms { buf = write_at ms.buf ms.curpos d; curpos = ms.curpos + length b })
          (take_all b)

  write_lem : mstream_write b ms ≡ ok (length b, extend filled)
  unfolding mstream_write
  write_lem =
      ap
        (λ w.
          if not (ms.flags.ms_append || w)
          then err ebadf
          else write_from (int_of (write_pos ms)) b ms)
        u.writes
      ∙ ap (λ a. if not (a || true) then err ebadf else write_from (int_of (write_pos ms)) b ms)
          u.no_append
      ∙ write_from-filled b ms v
      ∙ ap (λ n. ok (n, terminate (extend (filled_at (write_pos ms) (taken_bytes b ms) b ms))))
          whole
      ∙ ap (λ m. ok (length b, terminate (extend m))) filled-eq
      ∙ ap (λ m. ok (length b, m)) (terminate_reader (extend filled) reads)
    where
      reads : (extend filled).flags.ms_read ≡ true
      reads = rw (extend-flags filled) u.reads

  abbrev rewound : MemStream
  rewound = record (extend filled) { curpos = ms.curpos }

  in_data : ms.curpos + length b ≤ (extend filled).vsize
  in_data = extend-vsize filled

  extend-rsize : (extend filled).rsize ≡ ms.rsize
  unfolding extend
  extend-rsize = ground arith

  extend-contents : (extend filled).vsize ≤ (extend filled).rsize
  unfolding extend
  extend-contents = ground arith

  seek_lem : mstream_seek (pos ms.curpos) seek_set (extend filled) ≡ ok (ms.curpos, rewound)
  unfolding mstream_seek
  seek_lem =
      ap (λ n. seek_to (extend filled) (int_of n)) low
      ∙ ap (seek_to (extend filled)) (int_of-small ms.curpos small)
      ∙ ap (λ c. if c then err einval else ok (ms.curpos, rewound)) in_range
    where
      small : ms.curpos ≤ int_max
      small = omega (arith, v.position, v.contents, v.int_size)

      low : 0 + ms.curpos % 18446744073709551616 ≡ ms.curpos
      low = omega (arith, small)

      in_range : ltb (extend filled).vsize ms.curpos ≡ false
      in_range = ground (arith, in_data)

  kept : read_at (extend filled).buf ms.curpos (length b) ≡ b
  kept =
      extend-read_at filled ms.curpos (length b) (omega arith) (
        omega (arith, length-write_at ms.buf ms.curpos b (omega (arith, v.memory, fits)), v.memory))
      ∙ read-write_self ms.buf ms.curpos b

  -- What is written to a stream that is open for reading and writing is read back after a seek to
  -- where it was written, if it is not empty and fits behind the position in a buffer of at most
  -- INT_MAX bytes: each of the three calls takes or gives all of it.
  pub read-write :
      0 < length b
      → (t : MemStream) × (t' : MemStream) × (t'' : MemStream) × (mstream_write b ms
          ≡ ok (length b, t))
        × (mstream_seek (pos ms.curpos) seek_set t ≡ ok (ms.curpos, t'))
        × (mstream_read (length b) t' ≡ ok (b, t''))
  read-write h =
      let (last, read_back) =
        read_lem rewound (length b) (rw (extend-flags filled) u.reads) in_data extend-contents h in
      (extend filled, rewound, last, write_lem, seek_lem, read_back ∙ ap (λ d. ok (d, last)) kept)
