-- ===== src/CString/Decimal.antt =====
-- Printing a number and reading it back.
use native.Mathlib.Nat.{pow-suc}
use apue_learning.Common.{
  ℕ, zero, suc, ◌+◌, ◌-◌, ◌/◌, ◌%◌, ◌^◌, ◌≤◌, ◌<◌, ◌≡◌, refl, false, List, [], ◌∷◌, ◌++◌, none,
  some, pos, arith, ltb, ◌==◌, Bool-cases, ltb→lt, inl, inr, length, replicate, length-append,
  length-replicate, All,
}
use apue_learning.CString.{
  is_digit, is_space, skip_space, parse_digits, parse_signed, atol, print_digits, print_dec,
  print_pad, cut,
}

pub record IsDigit (c : ℕ) : Type 0 where
  pub low : 48 ≤ c
  pub high : c ≤ 57

IsDigit-mod : (n : ℕ) → IsDigit (48 + n % 10)
IsDigit-mod n = record { low = omega arith; high = omega arith }

IsDigit-lt : (n : ℕ) → n < 10 → IsDigit (48 + n)
IsDigit-lt n h = record { low = omega arith; high = omega arith }

-- What was read so far, then the printed digits, is the printed number.
parse-print_digits :
    (f n : ℕ) (acc : List ℕ) → n < f → parse_digits 0 (print_digits f n acc) ≡ parse_digits n acc
unfolding parse_digits print_digits is_digit
parse-print_digits zero n acc h = absurd (omega arith)
parse-print_digits (suc f) n acc h = elim (Bool-cases (ltb n 10)) [
  | inl small ↦ rw small (ground arith)
  | inr big ↦
      rw (big, parse-print_digits f (n / 10) ((48 + n % 10) ∷ acc) (ground arith)) (ground arith)
]

pub parse-print_dec : (n : ℕ) → parse_digits 0 (print_dec n) ≡ n
unfolding print_dec parse_digits
parse-print_dec n = parse-print_digits (suc n) n [] (omega arith)

digits-print_digits :
    (f n : ℕ) (acc : List ℕ) → All IsDigit acc → All IsDigit (print_digits f n acc)
unfolding print_digits
digits-print_digits zero n acc h = h
digits-print_digits (suc f) n acc h = elim (Bool-cases (ltb n 10)) [
  | inl small ↦ rw small (IsDigit-lt n (ltb→lt n 10 small), h)
  | inr big ↦ rw big (digits-print_digits f (n / 10) _ (IsDigit-mod n, h))
]

pub digits-print_dec : (n : ℕ) → All IsDigit (print_dec n)
unfolding print_dec
digits-print_dec n = digits-print_digits (suc n) n [] tt

length-print_digits_pos : (f n : ℕ) (acc : List ℕ) → n < f → 0 < length (print_digits f n acc)
unfolding print_digits
length-print_digits_pos zero n acc h = absurd (omega arith)
length-print_digits_pos (suc f) n acc h = elim (Bool-cases (ltb n 10)) [
  | inl small ↦ rw small (omega arith)
  | inr big ↦ rw big (length-print_digits_pos f (n / 10) _ (ground arith))
]

pub length-print_dec_pos : (n : ℕ) → 0 < length (print_dec n)
unfolding print_dec
length-print_dec_pos n = length-print_digits_pos (suc n) n [] (omega arith)

length-print_digits :
    (w f n : ℕ) (acc : List ℕ) → n < 10 ^ suc w → length (print_digits f n acc) ≤ suc w + length acc
unfolding print_digits
length-print_digits w zero n acc h = omega arith
length-print_digits zero (suc f) n acc h = ground arith
length-print_digits (suc w) (suc f) n acc h = elim (Bool-cases (ltb n 10)) [
  | inl small ↦ rw small (omega arith)
  | inr big ↦
      rw big (omega (arith, length-print_digits w f (n / 10) ((48 + n % 10) ∷ acc) (below w n h)))
]
  where
    below : (v m : ℕ) → m < 10 ^ suc (suc v) → m / 10 < 10 ^ suc v
    below v m q = omega (arith, pow-suc 10 (suc v))

-- A number of at most `w` digits prints to at most `w` bytes.
pub length-print_dec : (w n : ℕ) → n < 10 ^ suc w → length (print_dec n) ≤ suc w
unfolding print_dec
length-print_dec w n h = omega (arith, length-print_digits w (suc n) n [] h)

pub length-print_pad : (w n : ℕ) → n < 10 ^ suc w → length (print_pad (suc w) n) ≡ suc w
unfolding print_pad
length-print_pad w n h = omega (
  arith,
  length-append (replicate (suc w - length (print_dec n)) 32) (print_dec n),
  length-replicate {A = ℕ} (suc w - length (print_dec n)) 32,
  length-print_dec w n h,
)

skip-replicate : (k : ℕ) (s : List ℕ) → skip_space (replicate k 32 ++ s) ≡ skip_space s
unfolding skip_space is_space
skip-replicate zero s = refl
skip-replicate (suc k) s = skip-replicate k s

skip-digits : (s : List ℕ) → All IsDigit s → skip_space s ≡ s
unfolding skip_space is_space
skip-digits [] h = refl
skip-digits (c ∷ s) h = ground arith

signed-digits : (s : List ℕ) → All IsDigit s → parse_signed s ≡ pos (parse_digits 0 s)
unfolding parse_signed
signed-digits [] h = refl
signed-digits (c ∷ s) h = ground arith

-- `atol` reads back what `%d` printed.
pub atol-print_dec : (n : ℕ) → atol (print_dec n) ≡ pos n
unfolding atol
atol-print_dec n =
    rw (skip-digits (print_dec n) (digits-print_dec n))
      (rw (signed-digits (print_dec n) (digits-print_dec n)) (rw (parse-print_dec n)))

-- `atol` reads back what `%*d` printed, whatever the width.
pub atol-print_pad : (w n : ℕ) → atol (print_pad w n) ≡ pos n
unfolding atol print_pad
atol-print_pad w n = rw (skip-replicate (w - length (print_dec n)) (print_dec n)) (
    rw (skip-digits (print_dec n) (digits-print_dec n))
      (rw (signed-digits (print_dec n) (digits-print_dec n)) (rw (parse-print_dec n))))

abbrev pub Ne : ℕ → ℕ → Type 0
Ne sep c = (c == sep) ≡ false

pub cut-append : (sep : ℕ) (a b : List ℕ) → All (Ne sep) a → cut sep (a ++ sep ∷ b) ≡ some (a, b)
unfolding cut
cut-append sep [] b h = ground arith
cut-append sep (c ∷ a) b h = rw (h.0, cut) (rw (cut-append sep a b h.1))

pub cut-none : (sep : ℕ) (a : List ℕ) → All (Ne sep) a → cut sep a ≡ none
unfolding cut
cut-none sep [] h = refl
cut-none sep (c ∷ a) h = rw (h.0, cut) (rw (cut-none sep a h.1))

pub digits-Ne : (sep : ℕ) (s : List ℕ) → 57 < sep → All IsDigit s → All (Ne sep) s
digits-Ne sep [] lt h = tt
digits-Ne sep (c ∷ s) lt h = (ground arith, digits-Ne sep s lt h.1)

pub digits-Ne_below : (sep : ℕ) (s : List ℕ) → sep < 48 → All IsDigit s → All (Ne sep) s
digits-Ne_below sep [] lt h = tt
digits-Ne_below sep (c ∷ s) lt h = (ground arith, digits-Ne_below sep s lt h.1)
