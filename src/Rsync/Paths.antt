-- ===== src/Rsync/Paths.antt =====
-- The paths of sync_util.c: `get_relative_path` and the paths that `snprintf` joins.
use apue_learning.Common.{
  ℕ, zero, suc, ◌+◌, ◌≤◌, ◌≡◌, refl, ap, ◌∙◌, List, [], ◌∷◌, ◌++◌, Option, none, some, arith, ◌==◌,
  ==_refl, if◌then◌else◌, length, take, length-append,
}
use apue_learning.Rsync.{copy_path}

-- `strncmp` against the whole of a prefix: what follows it.
unfoldable pub strip_prefix : List ℕ → List ℕ → Option (List ℕ)
strip_prefix [] s = some s
strip_prefix (c ∷ p) [] = none
strip_prefix (c ∷ p) (d ∷ s) = let rest = strip_prefix p s in if c == d then rest else none

abbrev pub skip_slash : List ℕ → List ℕ
skip_slash [] = []
skip_slash (c ∷ s) = if c == b'/' then s else c ∷ s

abbrev pub relative_to : List ℕ → Option (List ℕ) → List ℕ
relative_to full none = copy_path full
relative_to full (some rest) = copy_path (skip_slash rest)

unfoldable pub get_relative_path : List ℕ → List ℕ → List ℕ
unfolding strip_prefix
get_relative_path base full_path = relative_to full_path (strip_prefix base full_path)

-- `snprintf(buf, sizeof(buf) - 1, "%s/%s", a, b)`: at most 1,022 bytes and the null byte.
unfoldable pub join_path : List ℕ → List ℕ → List ℕ
join_path a b = take 1022 (a ++ b'/' ∷ b)

pub take_le : (n : ℕ) (s : List ℕ) → length s ≤ n → take n s ≡ s
take_le zero [] h = refl
take_le zero (c ∷ s) h = absurd (omega arith)
take_le (suc n) [] h = refl
take_le (suc n) (c ∷ s) h = ap (λ l. c ∷ l) (take_le n s (omega arith))

strip_prefix-append : (p s : List ℕ) → strip_prefix p (p ++ s) ≡ some s
unfolding strip_prefix
strip_prefix-append [] s = refl
strip_prefix-append (c ∷ p) s =
    ap (λ b. if b then strip_prefix p (p ++ s) else none) (==_refl c) ∙ strip_prefix-append p s

-- A path that `join_path` made from a directory and a name is, relative to that directory, the name,
-- when both fit in the buffer of 1,022 bytes.
pub get_relative_path-join_path :
    (base name : List ℕ)
    → length base + suc (length name) ≤ 1022
    → get_relative_path base (join_path base name) ≡ name
unfolding get_relative_path join_path
get_relative_path-join_path base name h =
    ap (get_relative_path base)
      (take_le 1022 (base ++ b'/' ∷ name) (omega (arith, length-append base (b'/' ∷ name))))
    ∙ ap (relative_to (base ++ b'/' ∷ name)) (strip_prefix-append base (b'/' ∷ name))
    ∙ take_le 1023 name (omega arith)
