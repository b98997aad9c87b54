-- ===== src/MultiProcess/CopyLoop.antt =====
-- The loop that copies one file, in the copier of several processes.
use apue_learning.Common.{
  ℕ, zero, suc, ◌<◌, ◌≡◌, refl, ap, ◌∙◌, sym, Bool, true, false, List, [], ◌∷◌, ◌++◌, ◌==◌,
  if◌then◌else◌, take, drop, length, ltb, arith, append_assoc, append-nil, length-drop, ==_refl,
}
use apue_learning.MultiProcess.Disk.{copy_loop}

-- The copy loop: a success means that all was copied, and a system that takes every piece lets it.
split_take : (n : ℕ) (a : List ℕ) → take n a ++ drop n a ≡ a
split_take zero a = refl
split_take (suc n) [] = refl
split_take (suc n) (x ∷ a) = ap (λ l. x ∷ l) (split_take n a)

round-true :
    (more whole : Bool) (rest fail stop : Bool × List ℕ) (t : List ℕ)
    → fail.0 ≡ false
    → (more ≡ true → rest.0 ≡ true → rest.1 ≡ t)
    → (more ≡ false → stop.1 ≡ t)
    → (if more then (if whole then rest else fail) else stop).0 ≡ true
    → (if more then (if whole then rest else fail) else stop).1 ≡ t
round-true true true rest fail stop t n h k e = h refl e
round-true true false rest fail stop t n h k e = absurd cc
round-true false whole rest fail stop t n h k e = k refl

round-full :
    (more whole : Bool) (rest fail stop : Bool × List ℕ)
    → whole ≡ true
    → rest.0 ≡ true
    → stop.0 ≡ true
    → (if more then (if whole then rest else fail) else stop).0 ≡ true
round-full true true rest fail stop w h k = h
round-full true false rest fail stop w h k = absurd cc
round-full false whole rest fail stop w h k = k

at_end :
    (n : ℕ) (source out : List ℕ)
    → 0 < n
    → ltb 0 (length (take n source)) ≡ false
    → out ≡ out ++ source
at_end n [] out p e = sym (append-nil out)
at_end zero (x ∷ a) out p e = absurd (omega arith)
at_end (suc n) (x ∷ a) out p e = absurd (ground arith)

some_left : (n : ℕ) (source : List ℕ) → ltb 0 (length (take n source)) ≡ true → 0 < length source
some_left zero source e = absurd (ground arith)
some_left (suc n) [] e = absurd (ground arith)
some_left (suc n) (x ∷ a) e = omega arith

pub copy_loop-true :
    (n f : ℕ) (accepts : List ℕ → ℕ) (source out : List ℕ)
    → 0 < n
    → length source < f
    → (copy_loop n f accepts source out).0 ≡ true
    → (copy_loop n f accepts source out).1 ≡ out ++ source
unfolding copy_loop
copy_loop-true n zero accepts source out p h = absurd (omega arith)
copy_loop-true n (suc f) accepts source out p h =
    let piece = take n source in
    round-true (ltb 0 (length piece)) (accepts piece == length piece)
      (copy_loop n f accepts (drop n source) (out ++ piece))
      (false, out ++ take (accepts piece) piece) (true, out) (out ++ source) refl
      (λ m k.
        copy_loop-true n f accepts (drop n source) (out ++ piece) p
          (omega (arith, length-drop n source, some_left n source m)) k
        ∙ append_assoc out piece (drop n source)
        ∙ ap (λ l. out ++ l) (split_take n source))
      (λ e. at_end n source out p e)

pub copy_loop-full :
    (n f : ℕ) (accepts : List ℕ → ℕ) (source out : List ℕ)
    → ((piece : List ℕ) → accepts piece ≡ length piece)
    → (copy_loop n f accepts source out).0 ≡ true
unfolding copy_loop
copy_loop-full n zero accepts source out h = refl
copy_loop-full n (suc f) accepts source out h =
    let piece = take n source in
    round-full (ltb 0 (length piece)) (accepts piece == length piece)
      (copy_loop n f accepts (drop n source) (out ++ piece))
      (false, out ++ take (accepts piece) piece) (true, out)
      (ap (λ m. m == length piece) (h piece) ∙ ==_refl (length piece))
      (copy_loop-full n f accepts (drop n source) (out ++ piece) h) refl
