-- ===== src/MemStream.antt =====
-- The memory stream of exercises/fmemopen.c: a `FILE` over a buffer in memory.
--
-- `buf` is the memory of `rsize` bytes. Each callback returns the new state with its result, or the
-- error that it sets `errno` to; an access outside the buffer is `undefined`. `int` has 32 bits, `size_t`
-- and `fpos_t` 64, and a conversion keeps the low bits. The callbacks are called with a length that is
-- an `int` and not negative.
pub mod Bounds
pub mod Roundtrip
mod Tests
use apue_learning.Common.{
  ℕ, zero, suc, ◌+◌, ◌-◌, ◌%◌, ◌≤◌, ◌<◌, Bool, true, false, ◌&&◌, ◌||◌, not, List, [], ◌∷◌, ◌++◌,
  Option, none, some, ℤ, pos, negsuc, ltb, leb, ◌==◌, if◌then◌else◌, length, take, drop,
}
use apue_learning.Bytes.{read_at, write_at}

-- `flags`: one field for each bit.
pub record Flags : Type 0 where
  pub ms_read : Bool
  pub ms_write : Bool
  pub ms_append : Bool
  pub ms_truncate : Bool
  pub ms_mybuf : Bool

abbrev pub no_flags : Flags
no_flags = record {
  ms_read = false;
  ms_write = false;
  ms_append = false;
  ms_truncate = false;
  ms_mybuf = false;
}

-- The test `flags != 0`.
abbrev pub any_flag : Flags → Bool
any_flag f = f.ms_read || (f.ms_write || (f.ms_append || (f.ms_truncate || f.ms_mybuf)))

pub data Errno : Type 0 where
  einval enomem ebadf : Errno

pub data Result (A : Type 0) : Type 0 where
  ok : A → Result A
  err : Errno → Result A
  undefined : Result A

abbrev pub int_max : ℕ
int_max = 2147483647

-- The `int` that a `size_t` is converted to.
unfoldable pub int_of : ℕ → ℤ
int_of n =
    let low = n % 4294967296 in if leb low int_max then pos low else negsuc (4294967295 - low)

-- The `size_t` that an `int` is converted to.
abbrev pub size_of : ℤ → ℕ
size_of (pos n) = n
size_of (negsuc n) = 18446744073709551615 - n

-- The `size_t` that an `fpos_t` is converted to.
abbrev pub size_of_fpos : ℤ → ℕ
size_of_fpos (pos n) = n % 18446744073709551616
size_of_fpos (negsuc n) = 18446744073709551615 - n % 18446744073709551616

-- A difference of a `size_t` and an `int` that is not negative.
unfoldable pub size_diff : ℕ → ℕ → ℕ
size_diff n off = (n + 18446744073709551616 - off) % 18446744073709551616

pub record MemStream : Type 0 where
  pub buf : List ℕ
  pub rsize : ℕ
  pub vsize : ℕ
  pub curpos : ℕ
  pub flags : Flags

-- The loop of `type_to_flags`; `no_flags` is its error.
flag_loop : Flags → List ℕ → Flags
flag_loop f [] = f
flag_loop f (c ∷ cs) =
    if c == b'r'
    then (let rest = flag_loop (record f { ms_read = true }) cs in
        if any_flag f then no_flags else rest)
    else if c == b'w'
    then (let rest = flag_loop (record f { ms_write = true; ms_truncate = true }) cs in
        if any_flag f then no_flags else rest)
    else if c == b'a'
    then (let rest = flag_loop (record f { ms_append = true }) cs in
        if any_flag f then no_flags else rest)
    else if c == b'+'
    then (let rest = flag_loop (record f { ms_read = true; ms_write = true }) cs in
        if any_flag f then rest else no_flags)
    else if c == b'b'
    then (let rest = flag_loop f cs in if any_flag f then rest else no_flags)
    else no_flags

unfoldable pub type_to_flags : List ℕ → Flags
unfolding flag_loop
type_to_flags type = flag_loop no_flags type

-- The index of the first null byte, or the length.
unfoldable pub find_end : List ℕ → ℕ
find_end [] = 0
find_end (c ∷ cs) = let rest = find_end cs in if c == 0 then 0 else suc rest

-- `vsize` at the end of `fmemopen`, by the mode.
abbrev pub start_vsize : Flags → ℕ → ℕ → ℕ
start_vsize f curpos size = if f.ms_append then curpos else if f.ms_truncate then 0 else size

-- `fmemopen`. `fresh` is the memory that `malloc` returns where the caller passes no buffer. The
-- failures of `malloc` and `funopen` are not modelled.
unfoldable pub fmemopen : Option (List ℕ) → (fresh : List ℕ) → ℕ → List ℕ → Result MemStream
unfolding type_to_flags find_end
fmemopen buf fresh size type =
    let f = type_to_flags type in
    if size == 0 then err einval else if not (any_flag f) then err einval else elim buf [
      | none ↦
          if f.ms_read && f.ms_write
          then ok (record {
            buf = fresh;
            rsize = size;
            vsize = start_vsize f 0 size;
            curpos = 0;
            flags = record f { ms_mybuf = true };
          })
          else err einval
      | some b ↦
          let at = if f.ms_append then find_end b else 0 in
          ok (record {
            buf = b;
            rsize = size;
            vsize = start_vsize f at size;
            curpos = at;
            flags = f;
          })
    ]

abbrev pub least : ℕ → ℕ → ℕ
least a b = if ltb a b then a else b

-- `mstream_read`: the bytes that it copies out.
unfoldable pub mstream_read : ℕ → MemStream → Result (List ℕ × MemStream)
mstream_read len ms =
    let nr = least len (ms.vsize - ms.curpos) in
    if not ms.flags.ms_read
    then err ebadf
    else if leb ms.vsize ms.curpos
    then ok ([], ms)
    else if leb (ms.curpos + nr) ms.rsize
    then ok (read_at ms.buf ms.curpos nr, record ms { curpos = ms.curpos + nr })
    else undefined

-- The null byte behind the data, where the stream is open for both.
unfoldable pub extend : MemStream → MemStream
extend ms =
    if ltb ms.vsize ms.curpos
    then (if (ms.flags.ms_read && ms.flags.ms_write) && ltb ms.curpos ms.rsize
        then record ms { vsize = ms.curpos; buf = write_at ms.buf ms.curpos (0 ∷ []) }
        else record ms { vsize = ms.curpos })
    else ms

-- The null byte at the current position, or at the end of the buffer, of a stream that is open for
-- writing alone.
unfoldable pub terminate : MemStream → MemStream
terminate ms =
    if (ms.flags.ms_write || ms.flags.ms_append) && not ms.flags.ms_read
    then (if ltb ms.curpos ms.rsize
        then record ms { buf = write_at ms.buf ms.curpos (0 ∷ []) }
        else record ms { buf = write_at ms.buf (ms.rsize - 1) (0 ∷ []) })
    else ms

abbrev pub write_pos : MemStream → ℕ
write_pos ms = if ms.flags.ms_append then ms.vsize else ms.curpos

-- The `memcpy` of `mstream_write`, and the new position, which is a sum of `int`s.
unfoldable pub copied : ℕ → ℕ → List ℕ → MemStream → MemStream
unfolding int_of
copied off nw b ms = record ms {
  buf = write_at ms.buf off (take nw b);
  curpos = size_of (int_of (off + nw));
}

-- `mstream_write` behind `off`.
unfoldable pub write_from : ℤ → List ℕ → MemStream → Result (ℕ × MemStream)
unfolding size_diff
write_from (negsuc _) b ms = undefined
write_from (pos off) b ms =
    let nw = least (length b) (size_diff ms.rsize off) in
    if leb (off + nw) ms.rsize then ok (nw, terminate (extend (copied off nw b ms))) else undefined

-- `mstream_write` of the bytes `b`: how many it took.
unfoldable pub mstream_write : List ℕ → MemStream → Result (ℕ × MemStream)
unfolding write_from int_of
mstream_write b ms =
    if not (ms.flags.ms_append || ms.flags.ms_write)
    then err ebadf
    else write_from (int_of (write_pos ms)) b ms

pub data Whence : Type 0 where
  seek_set seek_cur seek_end : Whence

abbrev pub seek_base : Whence → MemStream → ℕ
seek_base seek_set ms = 0
seek_base seek_cur ms = ms.curpos
seek_base seek_end ms = ms.vsize

-- `mstream_seek` behind the `switch`, with `off`.
abbrev pub seek_to : MemStream → ℤ → Result (ℕ × MemStream)
seek_to ms (negsuc _) = err einval
seek_to ms (pos off) = if ltb ms.vsize off then err einval else ok (off, record ms { curpos = off })

-- `mstream_seek`
unfoldable pub mstream_seek : ℤ → Whence → MemStream → Result (ℕ × MemStream)
unfolding int_of
mstream_seek fpos whence ms = seek_to ms (int_of (seek_base whence ms + size_of_fpos fpos))

-- The callbacks that stdio makes on an open stream. A call that fails changes nothing.
pub data Call : Type 0 where
  read : ℕ → Call
  write : List ℕ → Call
  seek : ℤ → Whence → Call

-- The state behind a call; `none` if the call was undefined.
abbrev pub state_of : {A : Type 0} → MemStream → Result (A × MemStream) → Option MemStream
state_of ms (ok (_, ms')) = some ms'
state_of ms (err _) = some ms
state_of ms undefined = none

unfoldable pub call : Call → MemStream → Option MemStream
unfolding mstream_read mstream_write mstream_seek
call (read len) ms = state_of ms (mstream_read len ms)
call (write b) ms = state_of ms (mstream_write b ms)
call (seek off whence) ms = state_of ms (mstream_seek off whence ms)

abbrev pub then_calls : Option MemStream → (MemStream → Option MemStream) → Option MemStream
then_calls none k = none
then_calls (some ms) k = k ms

unfoldable pub calls : List Call → MemStream → Option MemStream
unfolding call
calls [] ms = some ms
calls (c ∷ cs) ms = then_calls (call c ms) (λ ms'. calls cs ms')
