-- ===== src/FullIo.antt =====
-- lib/readn.c and lib/writen.c: reading and writing all of `n` bytes. What `read` and `write` do is
-- a list of limits, one for each call: how many bytes the call takes at most, or `none` for an error.
pub mod Complete
mod Tests
use apue_learning.Common.{
  ℕ, zero, suc, ◌+◌, ◌-◌, Bool, true, false, List, [], ◌∷◌, ◌++◌, Option, none, some, ltb, ◌==◌,
  if◌then◌else◌, length, take, drop,
}

abbrev pub least : ℕ → ℕ → ℕ
least a b = if ltb a b then a else b

-- The return value, with none for -1, the bytes moved, and the bytes that are left.
pub record Moved : Type 0 where
  pub result : Option ℕ
  pub bytes : List ℕ
  pub rest : List ℕ

-- An error is reported if nothing has been moved yet.
abbrev pub stop_error : ℕ → ℕ → List ℕ → List ℕ → Moved
stop_error n nleft got src = record {
  result = if nleft == n then none else some (n - nleft);
  bytes = got;
  rest = src;
}

abbrev pub stop : ℕ → ℕ → List ℕ → List ℕ → Moved
stop n nleft got src = record { result = some (n - nleft); bytes = got; rest = src }

-- One call that moves `k` bytes; 0 ends the loop.
abbrev pub after_call : ℕ → ℕ → List ℕ → List ℕ → ℕ → Moved → Moved
after_call n nleft got src zero more = stop n nleft got src
after_call n nleft got src (suc k) more = more

-- The bytes that a call moves: as many as are asked for, the limit allows and the source has.
abbrev pub moved : ℕ → ℕ → List ℕ → ℕ
moved nleft limit src = least (least nleft limit) (length src)

-- The loop of `readn`. No more limits mean that the call blocks for good: `none` is the whole result.
unfoldable pub readn_loop : List (Option ℕ) → ℕ → ℕ → List ℕ → List ℕ → Option Moved
readn_loop limits n zero got src = some (stop n 0 got src)
readn_loop [] n (suc left) got src = none
readn_loop (none ∷ ls) n (suc left) got src = some (stop_error n (suc left) got src)
readn_loop (some limit ∷ ls) n (suc left) got src =
    let k = moved (suc left) limit src in
    let more = readn_loop ls n (suc left - k) (got ++ take k src) (drop k src) in
    if k == 0 then some (stop n (suc left) got src) else more

-- `readn`, from a stream with the bytes `src`.
unfoldable pub readn : List (Option ℕ) → ℕ → List ℕ → Option Moved
unfolding readn_loop
readn limits n src = readn_loop limits n n [] src

-- `writen` of a buffer: its loop is the same one, and what a call moves comes from the buffer, which
-- has as many bytes as are left to write.
unfoldable pub writen : List (Option ℕ) → List ℕ → Option Moved
unfolding readn_loop
writen limits buffer = readn_loop limits (length buffer) (length buffer) [] buffer
