-- ===== src/Rsync/Compare.antt =====
-- `compare_files` of sync_util.c: whether a file has to be copied, and its loop over two contents.
use apue_learning.Common.{
  ℕ, zero, suc, ◌*◌, ◌<◌, ◌≡◌, ◌≢◌, refl, ap, ◌∙◌, sym, Bool, true, false, ◌&&◌, not, List, [], ◌∷◌,
  ◌++◌, Option, none, some, arith, ltb, lt→ltb, ==_iff, ◌==◌, ==_refl, if◌then◌else◌, length, take,
  drop, bytes_eq, bytes_eq_refl, bytes_eq→eq, Bool-cases, inl, inr, length-drop,
}

abbrev pub buffer_size : ℕ
buffer_size = 8192

-- A regular file: its bytes, its modification time, and whether `fopen` for reading succeeds.
pub record File : Type 0 where
  pub content : List ℕ
  pub mtime : ℕ
  pub readable : Bool

-- The do-while loop on the two streams; a round reads at most `size` bytes of each.
unfoldable pub compare_contents : ℕ → ℕ → List ℕ → List ℕ → Bool
compare_contents size zero a b = true
compare_contents size (suc f) a b =
    let rest = compare_contents size f (drop size a) (drop size b) in
    if not (length (take size a) == length (take size b))
    then false
    else if not (bytes_eq (take size a) (take size b))
    then false
    else if ltb 0 (length (take size a))
    then rest
    else true

-- Two files that both exist.
unfoldable pub compare_existing : File → File → Bool
unfolding compare_contents
compare_existing x y =
    if not (length x.content == length y.content)
    then false
    else if x.mtime == y.mtime
    then true
    else if ltb (length x.content) (1024 * 1024)
    then (if x.readable && y.readable
        then compare_contents buffer_size (suc (length x.content)) x.content y.content
        else false)
    else false

-- `none` is a path at which there is no file: its size would be -1, which no file has.
abbrev pub compare_found : Option File → Option File → Bool
compare_found _ none = false
compare_found none (some y) = false
compare_found (some x) (some y) = compare_existing x y

unfoldable pub compare_files : (List ℕ → Option File) → List ℕ → List ℕ → Bool
unfolding compare_existing
compare_files disk file1 file2 = compare_found (disk file1) (disk file2)

split_take : (n : ℕ) (a : List ℕ) → a ≡ take n a ++ drop n a
split_take zero a = refl
split_take (suc n) [] = refl
split_take (suc n) (x ∷ a) = ap (λ l. x ∷ l) (split_take n a)

take-nonempty : (n x : ℕ) (a : List ℕ) → 0 < n → 0 < length (take n (x ∷ a))
take-nonempty zero x a h = absurd (omega arith)
take-nonempty (suc n) x a h = omega arith

-- Equality of byte strings, one piece after the other.
bytes_eq-take :
    (n : ℕ) (a b : List ℕ)
    → (length (take n a) == length (take n b)) ≡ true
    → bytes_eq (take n a) (take n b) ≡ true
    → bytes_eq a b ≡ bytes_eq (drop n a) (drop n b)
bytes_eq-take zero a b h k = refl
bytes_eq-take (suc n) [] [] h k = refl
bytes_eq-take (suc n) [] (y ∷ b) h k = cc
bytes_eq-take (suc n) (x ∷ a) [] h k = cc
bytes_eq-take (suc n) (x ∷ a) (y ∷ b) h k = ground (arith, bytes_eq-take n a b)

bytes_eq-differ :
    (n : ℕ) (a b : List ℕ) → bytes_eq (take n a) (take n b) ≡ false → bytes_eq a b ≡ false
bytes_eq-differ n a b h = elim (Bool-cases (bytes_eq a b)) [
  | inl e ↦
      let q : a ≡ b = bytes_eq→eq a b e in
      let k : bytes_eq (take n a) (take n b) ≡ true =
        ap (λ z. bytes_eq (take n z) (take n b)) q ∙ bytes_eq_refl (take n b) in
      cc
  | inr e ↦ e
]

bytes_eq-length :
    (n : ℕ) (a b : List ℕ) → (length (take n a) == length (take n b)) ≡ false → bytes_eq a b ≡ false
bytes_eq-length n a b h = elim (Bool-cases (bytes_eq a b)) [
  | inl e ↦
      let q : a ≡ b = bytes_eq→eq a b e in
      let k : (length (take n a) == length (take n b)) ≡ true =
        ap (λ z. length (take n z) == length (take n b)) q ∙ ==_refl (length (take n b)) in
      cc
  | inr e ↦ e
]

abbrev round : Bool → Bool → Bool → Bool → Bool
round same_length same more rest =
    if not same_length then false else if not same then false else if more then rest else true

take-empty : (n : ℕ) (a : List ℕ) → 0 < n → ltb 0 (length (take n a)) ≡ false → a ≡ []
take-empty n [] h k = refl
take-empty n (x ∷ a) h k =
    let p : 0 < length (take n (x ∷ a)) = take-nonempty n x a h in
    let q : ltb 0 (length (take n (x ∷ a))) ≡ true = lt→ltb 0 (length (take n (x ∷ a))) p in cc

take-empty_pair :
    (n : ℕ) (a b : List ℕ)
    → 0 < n
    → (length (take n a) == length (take n b)) ≡ true
    → ltb 0 (length (take n a)) ≡ false
    → true ≡ bytes_eq a b
take-empty_pair n a b h e k =
    let p : length (take n a) ≡ length (take n b) =
      (==_iff (length (take n a)) (length (take n b))).0 e in
    let q : ltb 0 (length (take n b)) ≡ false = ap (ltb 0) (sym p) ∙ k in
    ap (λ z. bytes_eq z []) (sym (take-empty n a h k)) ∙ ap (bytes_eq a) (sym (take-empty n b h q))

-- A round that finds a piece in both goes on with the rest; one that finds none is at both ends.
round_lem :
    (n : ℕ) (a b : List ℕ) (rest : Bool)
    → 0 < n
    → rest ≡ bytes_eq (drop n a) (drop n b)
    → round
        (length (take n a) == length (take n b))
        (bytes_eq (take n a) (take n b))
        (ltb 0 (length (take n a)))
        rest
      ≡ bytes_eq a b
round_lem n a b rest p h = elim (Bool-cases (length (take n a) == length (take n b))) [
  | inr e ↦ rw e (sym (bytes_eq-length n a b e))
  | inl e ↦ elim (Bool-cases (bytes_eq (take n a) (take n b))) [
    | inr e' ↦ rw (e, e') (sym (bytes_eq-differ n a b e'))
    | inl e' ↦ elim (Bool-cases (ltb 0 (length (take n a)))) [
      | inl m ↦
          ap (λ z. round z (bytes_eq (take n a) (take n b)) (ltb 0 (length (take n a))) rest) e
          ∙ ap (λ z. round true z (ltb 0 (length (take n a))) rest) e'
          ∙ ap (λ z. round true true z rest) m
          ∙ h
          ∙ sym (bytes_eq-take n a b e e')
      | inr m ↦
          ap (λ z. round z (bytes_eq (take n a) (take n b)) (ltb 0 (length (take n a))) rest) e
          ∙ ap (λ z. round true z (ltb 0 (length (take n a))) rest) e'
          ∙ ap (λ z. round true true z rest) m
          ∙ take-empty_pair n a b p e m
    ]
  ]
]

drop-shorter :
    (n f x : ℕ) (a : List ℕ) → 0 < n → length (x ∷ a) < suc f → length (drop n (x ∷ a)) < f
drop-shorter n f x a p h = omega (arith, length-drop n (x ∷ a))

nil_length : (n y : ℕ) (b : List ℕ) → 0 < n → (0 == length (take n (y ∷ b))) ≡ false
nil_length n y b h =
    let k : 0 < length (take n (y ∷ b)) = take-nonempty n y b h in ground (arith, k)

compare_nil : (n f : ℕ) (b : List ℕ) → 0 < n → compare_contents n (suc f) [] b ≡ bytes_eq [] b
unfolding compare_contents
compare_nil zero f b p = absurd (omega arith)
compare_nil (suc n) f [] p = refl
compare_nil (suc n) f (y ∷ b) p =
    ap
      (λ z.
        round z (bytes_eq [] (take (suc n) (y ∷ b))) false
          (compare_contents (suc n) f [] (drop (suc n) (y ∷ b))))
      (nil_length (suc n) y b p)

-- With fuel for one round more than there are bytes, and a buffer that is not empty, the loop decides
-- whether two contents are equal.
pub compare_contents-bytes_eq :
    (n f : ℕ) (a b : List ℕ) → 0 < n → length a < f → compare_contents n f a b ≡ bytes_eq a b
unfolding compare_contents
compare_contents-bytes_eq n zero a b p h = absurd (omega arith)
compare_contents-bytes_eq n (suc f) [] b p h = compare_nil n f b p
compare_contents-bytes_eq n (suc f) (x ∷ a) b p h =
    round_lem n (x ∷ a) b (compare_contents n f (drop n (x ∷ a)) (drop n b)) p
      (compare_contents-bytes_eq n f (drop n (x ∷ a)) (drop n b) p (drop-shorter n f x a p h))

abbrev sized : Bool → Bool → Bool → Bool → Bool → Bool
sized same_size same_time small can_read result =
    if not same_size
    then false
    else if same_time
    then true
    else if small
    then (if can_read then result else false)
    else false

-- For two different modification times, equal sizes below 1 MiB and two files that can be opened,
-- `compare_files` reports equality exactly when the two contents are equal.
pub compare_files-bytes_eq :
    (disk : List ℕ → Option File) (file1 file2 : List ℕ) (x y : File)
    → disk file1 ≡ some x
    → disk file2 ≡ some y
    → length x.content ≡ length y.content
    → x.mtime ≢ y.mtime
    → length x.content < 1024 * 1024
    → x.readable ≡ true
    → y.readable ≡ true
    → compare_files disk file1 file2 ≡ bytes_eq x.content y.content
unfolding compare_files compare_existing
compare_files-bytes_eq disk file1 file2 x y e1 e2 l m small r1 r2 =
    ap (λ o. compare_found o (disk file2)) e1
    ∙ ap (compare_found (some x)) e2
    ∙ ap
        (λ z.
          sized z (x.mtime == y.mtime) (ltb (length x.content) (1024 * 1024))
            (x.readable && y.readable) result)
        ((==_iff (length x.content) (length y.content)).1 l)
    ∙ ap
        (λ z. sized true z (ltb (length x.content) (1024 * 1024)) (x.readable && y.readable) result)
        {y = false} (ground (arith, m))
    ∙ ap (λ z. sized true false z (x.readable && y.readable) result)
        (lt→ltb (length x.content) (1024 * 1024) small)
    ∙ ap (λ z. sized true false true (z && y.readable) result) r1
    ∙ ap (λ z. sized true false true z result) r2
    ∙ compare_contents-bytes_eq buffer_size (suc (length x.content)) x.content y.content
        (omega arith) (omega arith)
  where
    result : Bool
    result = compare_contents buffer_size (suc (length x.content)) x.content y.content
