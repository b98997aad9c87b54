-- ===== src/MemStream/Bounds.antt =====
-- No callback of exercises/fmemopen.c leaves the buffer.
use apue_learning.Common.{
  ℕ, ◌∙◌, zero, suc, ltb→lt, ◌+◌, ◌-◌, ◌%◌, ◌≤◌, ◌<◌, ◌≡◌, refl, List, [], ◌∷◌, Option, none, some,
  ℤ, pos, negsuc, arith, length, Bool, Bool-cases, inl, inr, ltb, leb, true, false, not, ◌||◌, take,
  if◌then◌else◌,
}
use apue_learning.Bytes.{read_at, write_at, length-write_at}
use apue_learning.MemStream.{
  Result, err, undefined, ebadf, Call, read, write, seek, call, calls, then_calls, MemStream, ok,
  Whence, find_end, state_of, int_max, int_of, size_of_fpos, size_diff, write_pos, write_from,
  seek_to, seek_base, fmemopen, mstream_read, mstream_write, mstream_seek, copied, extend,
  terminate, least,
}

-- The position lies in the data, the data in the buffer, and the buffer is as large as it says, which
-- is an `int`.
pub record IsValid (ms : MemStream) : Type 0 where
  pub position : ms.curpos ≤ ms.vsize
  pub contents : ms.vsize ≤ ms.rsize
  pub memory : length ms.buf ≡ ms.rsize
  pub some_room : 0 < ms.rsize
  pub int_size : ms.rsize ≤ int_max

find_end-le : (b : List ℕ) → find_end b ≤ length b
unfolding find_end
find_end-le [] = omega arith
find_end-le (c ∷ b) = ground (arith, find_end-le b)

-- A stream that `fmemopen` returns is valid, if the buffer is as large as the caller says.
fmemopen-IsValid :
    (buf : Option (List ℕ)) (fresh : List ℕ) (size : ℕ) (type : List ℕ) (ms : MemStream)
    → size ≤ int_max
    → length fresh ≡ size
    → ((b : List ℕ) → buf ≡ some b → length b ≡ size)
    → fmemopen buf fresh size type ≡ ok ms
    → IsValid ms
unfolding fmemopen
fmemopen-IsValid none fresh size type ms hs hf hb h = ground arith
fmemopen-IsValid (some b) fresh size type ms hs hf hb h = ground (arith, hb b refl, find_end-le b)

length-take_le : (n : ℕ) (xs : List ℕ) → length (take n xs) ≤ n
length-take_le zero xs = omega arith
length-take_le (suc n) [] = omega arith
length-take_le (suc n) (x ∷ xs) = omega (arith, length-take_le n xs)

length-write_in :
    (f d : List ℕ) (off : ℕ) → off + length d ≤ length f → length (write_at f off d) ≡ length f
length-write_in f d off h = omega (arith, length-write_at f off d (omega arith))

least-le : (a b : ℕ) → (least a b ≤ a) × (least a b ≤ b)
least-le a b = ground arith

pub int_of-small : (n : ℕ) → n ≤ int_max → int_of n ≡ pos n
unfolding int_of
int_of-small n h = rw (low, fits) refl
  where
    low : n % 4294967296 ≡ n
    low = omega (arith, h)

    fits : leb n int_max ≡ true
    fits = ground (arith, h)

pub size_diff-small : (n off : ℕ) → off ≤ n → n ≤ int_max → size_diff n off ≡ n - off
unfolding size_diff
size_diff-small n off h k = omega (arith, h, k)

-- The state behind the `memcpy`, when no conversion changes a number.
abbrev pub filled_at : ℕ → ℕ → List ℕ → MemStream → MemStream
filled_at off nw b ms = record ms { buf = write_at ms.buf off (take nw b); curpos = off + nw }

abbrev pub taken_bytes : List ℕ → MemStream → ℕ
taken_bytes b ms = least (length b) (ms.rsize - write_pos ms)

write_pos-le : (m : MemStream) → IsValid m → write_pos m ≤ m.rsize
write_pos-le m k = ground arith

fits_in : (b : List ℕ) (m : MemStream) → IsValid m → write_pos m + taken_bytes b m ≤ m.rsize
fits_in b m k = omega (arith, (least-le (length b) (m.rsize - write_pos m)).1, write_pos-le m k)

-- On a valid stream `mstream_write` is defined.
pub write_from-filled :
    (b : List ℕ) (ms : MemStream)
    → IsValid ms
    → write_from (int_of (write_pos ms)) b ms
      ≡ ok (taken_bytes b ms, terminate (extend (filled_at (write_pos ms) (taken_bytes b ms) b ms)))
unfolding write_from copied
write_from-filled b ms v =
    let p = write_pos-le ms v in
    let f = fits_in b ms v in
    let inside : leb (write_pos ms + taken_bytes b ms) ms.rsize ≡ true = ground (arith, f) in
    rw (int_of-small (write_pos ms) (omega (arith, p, v.int_size))) (
      rw (size_diff-small ms.rsize (write_pos ms) p v.int_size) (
        rw inside (
          rw (int_of-small (write_pos ms + taken_bytes b ms) (omega (arith, f, v.int_size))) refl)))

filled-memory :
    (b : List ℕ) (ms : MemStream)
    → IsValid ms
    → length (filled_at (write_pos ms) (taken_bytes b ms) b ms).buf ≡ ms.rsize
filled-memory b ms v =
    length-write_in ms.buf (take (taken_bytes b ms) b) (write_pos ms)
      (omega (arith, length-take_le (taken_bytes b ms) b, fits_in b ms v, v.memory))
    ∙ v.memory

-- One byte written inside the buffer keeps its length.
poke-length : (f : List ℕ) (off : ℕ) → off < length f → length (write_at f off (0 ∷ [])) ≡ length f
poke-length f off h = length-write_in f (0 ∷ []) off (omega arith)

extend-IsValid :
    (ms : MemStream)
    → length ms.buf ≡ ms.rsize
    → ms.curpos ≤ ms.rsize
    → ms.vsize ≤ ms.rsize
    → 0 < ms.rsize
    → ms.rsize ≤ int_max
    → IsValid (extend ms)
unfolding extend
extend-IsValid ms m c v r i = elim (Bool-cases (ltb ms.curpos ms.rsize)) [
  | inl inside ↦ ground (arith, poke-length ms.buf ms.curpos (omega (arith, m, ltb→lt _ _ inside)))
  | inr full ↦ ground arith
]

terminate-IsValid : (ms : MemStream) → IsValid ms → IsValid (terminate ms)
unfolding terminate
terminate-IsValid ms v = elim (Bool-cases (ltb ms.curpos ms.rsize)) [
  | inl inside ↦
      ground (arith, poke-length ms.buf ms.curpos (omega (arith, v.memory, ltb→lt _ _ inside)))
  | inr full ↦
      ground (arith, poke-length ms.buf (ms.rsize - 1) (omega (arith, v.memory, v.some_room)))
]

-- A call that is defined and leaves a valid stream.
pub data Stays : Option MemStream → Type 0 where
  stays : (ms : MemStream) → IsValid ms → Stays (some ms)

write-Stays : (b : List ℕ) (ms : MemStream) → IsValid ms → Stays (state_of ms (mstream_write b ms))
unfolding mstream_write
write-Stays b ms v =
    let m = filled_at (write_pos ms) (taken_bytes b ms) b ms in
    elim (Bool-cases (ms.flags.ms_append || ms.flags.ms_write)) [
      | inl e ↦ rw e (
          rw (write_from-filled b ms v) (
            stays _ (
              terminate-IsValid (extend m) (
                extend-IsValid m (filled-memory b ms v) (fits_in b ms v) v.contents v.some_room
                  v.int_size))))
      | inr e ↦ rw e (stays ms v)
    ]

read-Stays : (len : ℕ) (ms : MemStream) → IsValid ms → Stays (state_of ms (mstream_read len ms))
unfolding mstream_read
read-Stays len ms v = branches ms.flags.ms_read (leb ms.vsize ms.curpos) refl
  where
    nr : ℕ
    nr = least len (ms.vsize - ms.curpos)

    copy_out : Result (List ℕ × MemStream)
    copy_out =
        if leb (ms.curpos + nr) ms.rsize
        then ok (read_at ms.buf ms.curpos nr, record ms { curpos = ms.curpos + nr })
        else undefined

    in_range : {a b : ℕ} → a ≤ b → leb a b ≡ true
    in_range h = ground arith

    branches :
        (reads at_end : Bool)
        → leb ms.vsize ms.curpos ≡ at_end
        → Stays (
            state_of ms (if not reads then err ebadf else if at_end then ok ([], ms) else copy_out))
    branches false k e = stays ms v
    branches true true e = stays ms v
    branches true false e =
        let l = (least-le len (ms.vsize - ms.curpos)).1 in
        let before : ms.curpos < ms.vsize = ground (arith, e) in
        let inside : leb (ms.curpos + least len (ms.vsize - ms.curpos)) ms.rsize ≡ true =
          in_range (omega (arith, l, before, v.contents)) in
        rw inside (
          stays _ (record {
            position = omega (arith, l, before);
            contents = v.contents;
            memory = v.memory;
            some_room = v.some_room;
            int_size = v.int_size;
          }))

seek-Stays :
    (fpos : ℤ) (whence : Whence) (ms : MemStream)
    → IsValid ms
    → Stays (state_of ms (mstream_seek fpos whence ms))
unfolding mstream_seek
seek-Stays fpos whence ms v = sought (int_of (seek_base whence ms + size_of_fpos fpos))
  where
    sought : (off : ℤ) → Stays (state_of ms (seek_to ms off))
    sought (negsuc n) = stays ms v
    sought (pos n) = elim (Bool-cases (ltb ms.vsize n)) [
      | inl e ↦ rw e (stays ms v)
      | inr e ↦ rw e (
          stays _ (record {
            position = ground (arith, e);
            contents = v.contents;
            memory = v.memory;
            some_room = v.some_room;
            int_size = v.int_size;
          }))
    ]

call-Stays : (c : Call) (ms : MemStream) → IsValid ms → Stays (call c ms)
unfolding call
call-Stays (read len) ms v = read-Stays len ms v
call-Stays (write b) ms v = write-Stays b ms v
call-Stays (seek fpos whence) ms v = seek-Stays fpos whence ms v

then-Stays :
    (r : Option MemStream) (k : MemStream → Option MemStream)
    → Stays r
    → ((ms : MemStream) → IsValid ms → Stays (k ms))
    → Stays (then_calls r k)
then-Stays _ k (stays ms v) f = f ms v

calls-Stays : (cs : List Call) (ms : MemStream) → IsValid ms → Stays (calls cs ms)
unfolding calls
calls-Stays [] ms v = stays ms v
calls-Stays (c ∷ cs) ms v =
    then-Stays (call c ms) (λ t. calls cs t) (call-Stays c ms v) (λ t k. calls-Stays cs t k)

-- When the buffer's size is at most INT_MAX, and the buffer is as large as the caller says, then whatever
-- `fmemopen` is asked for and whatever callbacks follow, in any order and with any lengths and targets,
-- no callback reads or writes outside the buffer, the position stays in the data and the data in
-- the buffer, which keeps its size.
pub fmemopen-calls-IsValid :
    (buf : Option (List ℕ)) (fresh : List ℕ) (size : ℕ) (type : List ℕ) (cs : List Call)
    (ms : MemStream)
    → size ≤ int_max
    → length fresh ≡ size
    → ((b : List ℕ) → buf ≡ some b → length b ≡ size)
    → fmemopen buf fresh size type ≡ ok ms
    → Stays (calls cs ms)
fmemopen-calls-IsValid buf fresh size type cs ms hs hf hb h =
    calls-Stays cs ms (fmemopen-IsValid buf fresh size type ms hs hf hb h)
