-- ===== src/Rsync/Progress.antt =====
-- Sums over the threads' stages, and how one step of `worker_thread` changes them.
pub mod Counts
pub mod Termination
use apue_learning.Common.{
  ℕ, zero, suc, ◌+◌, ◌≤◌, ◌<◌, ◌≡◌, refl, ap, ◌∙◌, sym, subst, Bool, true, false, List, [], ◌∷◌,
  ◌++◌, Option, none, some, arith, length, take, set, get_elem?, replicate, All,
}
use apue_learning.Rsync.{FileInfo, FileList, Stage, idle, taken, counted, tried, stopped}

abbrev pub sum : {A : Type 0} → (A → ℕ) → List A → ℕ
sum w [] = 0
sum w (x ∷ xs) = w x + sum w xs

pub sum-append : {A : Type 0} (w : A → ℕ) (xs ys : List A) → sum w (xs ++ ys) ≡ sum w xs + sum w ys
sum-append w [] ys = omega arith
sum-append w (x ∷ xs) ys = omega (arith, sum-append w xs ys)

-- One element is replaced.
pub sum-set :
    {A : Type 0} (w : A → ℕ) (xs : List A) (i : ℕ) (a b : A)
    → get_elem? xs i ≡ some a
    → sum w (set xs i b) + w a ≡ sum w xs + w b
sum-set w [] i a b e = cc
sum-set w (x ∷ xs) zero a b e = let q : x ≡ a = cc in rw q (omega arith)
sum-set w (x ∷ xs) (suc i) a b e = omega (arith, sum-set w xs i a b e)

pub sum_zero : {A : Type 0} (w : A → ℕ) (xs : List A) → All (λ x. w x ≡ 0) xs → sum w xs ≡ 0
sum_zero w [] h = refl
sum_zero w (x ∷ xs) (k, h) = omega (arith, sum_zero w xs h)

pub All-set :
    {A : Type 0} (P : A → Type 0) (xs : List A) (i : ℕ) (b : A)
    → P b
    → All P xs
    → All P (set xs i b)
All-set P [] i b k h = tt
All-set P (x ∷ xs) zero b k h = (k, h.1)
All-set P (x ∷ xs) (suc i) b k h = (h.0, All-set P xs i b k h.1)

pub All-get :
    {A : Type 0} (P : A → Type 0) (xs : List A) (i : ℕ) (a : A)
    → All P xs
    → get_elem? xs i ≡ some a
    → P a
All-get P [] i a h e = cc
All-get P (x ∷ xs) zero a h e = let q : x ≡ a = cc in subst P q h.0
All-get P (x ∷ xs) (suc i) a h e = All-get P xs i a h.1 e

pub All-map :
    {A : Type 0} (P Q : A → Type 0) (xs : List A) → ((a : A) → P a → Q a) → All P xs → All Q xs
All-map P Q [] f h = tt
All-map P Q (x ∷ xs) f h = (f x h.0, All-map P Q xs f h.1)

pub sum-take-suc :
    {A : Type 0} (w : A → ℕ) (n : ℕ) (xs : List A) (a : A)
    → get_elem? xs n ≡ some a
    → sum w (take (suc n) xs) ≡ sum w (take n xs) + w a
sum-take-suc w n [] a e = cc
sum-take-suc w zero (x ∷ xs) a e = let q : x ≡ a = cc in rw q (omega arith)
sum-take-suc w (suc n) (x ∷ xs) a e = omega (arith, sum-take-suc w n xs a e)

-- A file that a thread has taken and not yet handed to `sync_file`.
abbrev pub pending : (FileInfo → ℕ) → Stage → ℕ
pending w (taken f) = w f
pending w (counted f) = w f
pending w _ = 0

-- A result of `sync_file` that is not yet counted.
abbrev pub uncounted : Stage → ℕ
uncounted (tried _) = 1
uncounted _ = 0

-- A file that is not yet counted as processed.
abbrev pub unprocessed : Stage → ℕ
unprocessed (taken _) = 1
unprocessed _ = 0

-- The steps that a thread still has to take before it asks for the next file, or stops.
abbrev pub rank : Stage → ℕ
rank idle = 1
rank (taken _) = 4
rank (counted _) = 3
rank (tried _) = 2
rank stopped = 0
