-- ===== src/CString.antt =====
-- The C library's text functions that the programs call: `strchr`, `atol`, and the `%d` and `%*d`
-- conversions of `sprintf`. A C string is the list of its bytes, without the final null byte.
pub mod Decimal
pub mod Clean
use apue_learning.Common.{
  ℕ, zero, suc, ◌+◌, ◌-◌, ◌*◌, ◌/◌, ◌%◌, Bool, true, false, ◌&&◌, ◌||◌, List, [], ◌∷◌, ◌++◌, Option,
  none, some, ℤ, pos, negsuc, ltb, leb, ◌==◌, if◌then◌else◌, length, replicate,
}

-- The bytes in front of the first null byte.
unfoldable pub c_str : List ℕ → List ℕ
c_str [] = []
c_str (c ∷ cs) = let rest = c_str cs in if c == 0 then [] else c ∷ rest

unfoldable pub is_digit : ℕ → Bool
is_digit c = leb 48 c && leb c 57

unfoldable pub is_space : ℕ → Bool
is_space c = c == 32 || (leb 9 c && leb c 13)

unfoldable pub skip_space : List ℕ → List ℕ
skip_space [] = []
skip_space (c ∷ cs) = let rest = skip_space cs in if is_space c then rest else c ∷ cs

unfoldable pub parse_digits : ℕ → List ℕ → ℕ
parse_digits acc [] = acc
parse_digits acc (c ∷ cs) =
    let rest = parse_digits (acc * 10 + (c - 48)) cs in if is_digit c then rest else acc

-- -n as an integer.
unfoldable pub negate : ℕ → ℤ
negate zero = pos 0
negate (suc n) = negsuc n

-- An optional sign and the digits. A value past the range of `long` is not cut off here.
unfoldable pub parse_signed : List ℕ → ℤ
unfolding parse_digits is_digit negate
parse_signed [] = pos 0
parse_signed (c ∷ cs) =
    if c == b'-'
    then negate (parse_digits 0 cs)
    else if c == b'+'
    then pos (parse_digits 0 cs)
    else pos (parse_digits 0 (c ∷ cs))

unfoldable pub atol : List ℕ → ℤ
unfolding skip_space is_space parse_signed
atol s = parse_signed (skip_space s)

-- The decimal digits of `n` in front of `acc`; fuel `n + 1` is enough.
unfoldable pub print_digits : ℕ → ℕ → List ℕ → List ℕ
print_digits zero n acc = acc
print_digits (suc f) n acc =
    let rest = print_digits f (n / 10) ((48 + n % 10) ∷ acc) in
    if ltb n 10 then (48 + n) ∷ acc else rest

-- `%d` of a value that is not negative.
unfoldable pub print_dec : ℕ → List ℕ
unfolding print_digits
print_dec n = print_digits (suc n) n []

-- `%*d` with a field width: blanks on the left.
unfoldable pub print_pad : ℕ → ℕ → List ℕ
unfolding print_dec
print_pad w n = replicate (w - length (print_dec n)) 32 ++ print_dec n

-- `strchr(s, sep)` with the separator overwritten by a null byte: what is before and after it.
unfoldable pub cut : ℕ → List ℕ → Option (List ℕ × List ℕ)
cut sep [] = none
cut sep (c ∷ cs) = elim (c == sep) [
  | true ↦ some ([], cs)
  | false ↦ elim (cut sep cs) [ none ↦ none | some (a, b) ↦ some (c ∷ a, b) ]
]
