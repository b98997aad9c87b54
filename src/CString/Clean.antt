-- ===== src/CString/Clean.antt =====
-- Byte strings with no null byte, and printed numbers among them.
use apue_learning.Common.{
  ℕ, ◌≡◌, refl, List, [], ◌∷◌, arith, All, All-append, All-replicate, length, replicate, ◌-◌,
}
use apue_learning.CString.{c_str, print_dec, print_pad}
use apue_learning.CString.Decimal.{Ne, digits-print_dec, digits-Ne_below}

-- A C string ends at its first null byte.
pub c_str_clean : (s : List ℕ) → All (Ne 0) s → c_str s ≡ s
unfolding c_str
c_str_clean [] h = refl
c_str_clean (c ∷ s) h = rw (h.0, c_str) (rw (c_str_clean s h.1))

pub print_dec-clean : (n : ℕ) → All (Ne 0) (print_dec n)
print_dec-clean n = digits-Ne_below 0 (print_dec n) (omega arith) (digits-print_dec n)

pub print_pad-clean : (w n : ℕ) → All (Ne 0) (print_pad w n)
unfolding print_pad
print_pad-clean w n =
    All-append (Ne 0) (replicate (w - length (print_dec n)) 32) (print_dec n)
      (All-replicate (Ne 0) (w - length (print_dec n)) 32 refl) (print_dec-clean n)
