-- ===== src/Bytes.antt =====
-- The contents of a regular file as a list of bytes, with `read` and `write` at a file offset.
-- A write past the end fills the gap with null bytes, as a POSIX file does.
use apue_learning.Common.{
  ℕ, zero, suc, ◌+◌, ◌-◌, ◌≤◌, ◌≡◌, refl, sym, ap, ◌∙◌, List, [], ◌∷◌, ◌++◌, arith, length, take,
  drop, length-append, length-drop, drop-nil, take-append, drop-drop,
}

-- The bytes that `read` of `n` bytes at `off` returns: fewer at the end of the file.
unfoldable pub read_at : List ℕ → ℕ → ℕ → List ℕ
read_at f off n = take n (drop off f)

unfoldable pub write_at : List ℕ → ℕ → List ℕ → List ℕ
write_at f zero d = d ++ drop (length d) f
write_at [] (suc off) d = 0 ∷ write_at [] off d
write_at (x ∷ f) (suc off) d = x ∷ write_at f off d

drop-write_at :
    (f : List ℕ) (off : ℕ) (d : List ℕ)
    → drop off (write_at f off d) ≡ d ++ drop (length d) (drop off f)
unfolding write_at
drop-write_at f zero d = refl
drop-write_at [] (suc off) d =
    drop-write_at [] off d ∙ ap (λ l. d ++ drop (length d) l) (drop-nil off)
drop-write_at (x ∷ f) (suc off) d = drop-write_at f off d

take-append_le : (n : ℕ) (xs ys : List ℕ) → n ≤ length xs → take n (xs ++ ys) ≡ take n xs
take-append_le zero xs ys h = refl
take-append_le (suc n) [] ys h = absurd (omega arith)
take-append_le (suc n) (x ∷ xs) ys h = ap (λ l. x ∷ l) (take-append_le n xs ys (omega arith))

drop-append_le : (n : ℕ) (xs ys : List ℕ) → n ≤ length xs → drop n (xs ++ ys) ≡ drop n xs ++ ys
drop-append_le zero xs ys h = refl
drop-append_le (suc n) [] ys h = absurd (omega arith)
drop-append_le (suc n) (x ∷ xs) ys h = drop-append_le n xs ys (omega arith)

-- What was written is read back, also a part of it.
pub read-write_part :
    (f : List ℕ) (off i n : ℕ) (d : List ℕ)
    → i + n ≤ length d
    → read_at (write_at f off d) (off + i) n ≡ take n (drop i d)
unfolding read_at
read-write_part f off i n d h = rw (← drop-drop off i (write_at f off d)) (
    rw (drop-write_at f off d) (
      rw (drop-append_le i d (drop (length d) (drop off f)) (omega arith))
        (take-append_le n (drop i d) _ (omega (arith, length-drop i d)))))

pub read-write_self :
    (f : List ℕ) (off : ℕ) (d : List ℕ) → read_at (write_at f off d) off (length d) ≡ d
unfolding read_at
read-write_self f off d = rw (drop-write_at f off d) (take-append d _)

-- A read that ends in front of the write is unchanged.
pub read-write_before :
    (f : List ℕ) (off j n : ℕ) (d : List ℕ)
    → j + n ≤ off
    → off ≤ length f
    → read_at (write_at f off d) j n ≡ read_at f j n
unfolding read_at write_at
read-write_before f zero zero zero d h k = refl
read-write_before f zero zero (suc n) d h k = absurd (omega arith)
read-write_before f zero (suc j) n d h k = absurd (omega arith)
read-write_before [] (suc off) j n d h k = absurd (omega arith)
read-write_before (x ∷ f) (suc off) zero zero d h k = refl
read-write_before (x ∷ f) (suc off) zero (suc n) d h k =
    ap (λ l. x ∷ l) (read-write_before f off zero n d (omega arith) (omega arith))
read-write_before (x ∷ f) (suc off) (suc j) n d h k =
    read-write_before f off j n d (omega arith) (omega arith)

drop-write_after :
    (f : List ℕ) (off j : ℕ) (d : List ℕ)
    → off + length d ≤ j
    → drop j (write_at f off d) ≡ drop j f
unfolding write_at
drop-write_after f zero zero [] h = refl
drop-write_after f zero zero (x ∷ d) h = absurd (omega arith)
drop-write_after f zero (suc j) [] h = refl
drop-write_after [] zero (suc j) (x ∷ d) h =
    ap (λ l. drop j (d ++ l)) (sym (drop-nil (length d)))
    ∙ drop-write_after [] zero j d (omega arith)
    ∙ drop-nil j
drop-write_after (y ∷ f) zero (suc j) (x ∷ d) h = drop-write_after f zero j d (omega arith)
drop-write_after f (suc off) zero d h = absurd (omega arith)
drop-write_after [] (suc off) (suc j) d h = drop-write_after [] off j d (omega arith) ∙ drop-nil j
drop-write_after (x ∷ f) (suc off) (suc j) d h = drop-write_after f off j d (omega arith)

-- A read that starts behind the write is unchanged.
pub read-write_after :
    (f : List ℕ) (off j n : ℕ) (d : List ℕ)
    → off + length d ≤ j
    → read_at (write_at f off d) j n ≡ read_at f j n
unfolding read_at
read-write_after f off j n d h = ap (λ l. take n l) (drop-write_after f off j d h)

pub length-write_at :
    (f : List ℕ) (off : ℕ) (d : List ℕ)
    → off ≤ length f
    → length (write_at f off d) ≡ length f + (off + length d - length f)
unfolding write_at
length-write_at f zero d h =
    omega (arith, length-append d (drop (length d) f), length-drop (length d) f)
length-write_at [] (suc off) d h = absurd (omega arith)
length-write_at (x ∷ f) (suc off) d h = omega (arith, length-write_at f off d (omega arith))
