-- ===== src/Opend/Args.antt =====
-- lib/bufargs.c: the words of a request; a string is its bytes without the final null byte.
use apue_learning.Common.{
  ℕ, zero, suc, ◌≡◌, refl, ap, ◌∙◌, Bool, false, ◌||◌, List, [], ◌∷◌, ◌++◌, Option, none, some, leb,
  ◌==◌, if◌then◌else◌, All,
}

abbrev pub maxargc : ℕ
maxargc = 50

-- A byte of WHITE.
unfoldable pub is_white : ℕ → Bool
is_white c = c == 32 || (c == 9 || c == 10)

unfoldable pub skip_white : List ℕ → List ℕ
skip_white [] = []
skip_white (c ∷ cs) = let rest = skip_white cs in if is_white c then rest else c ∷ cs

-- The white space in front.
unfoldable pub lead : List ℕ → List ℕ
lead [] = []
lead (c ∷ cs) = let rest = lead cs in if is_white c then c ∷ rest else []

-- The bytes in front of the first white space.
unfoldable pub word : List ℕ → List ℕ
word [] = []
word (c ∷ cs) = let rest = word cs in if is_white c then [] else c ∷ rest

-- What follows the first white space, which `strtok` overwrites with a null byte.
unfoldable pub after_word : List ℕ → List ℕ
after_word [] = []
after_word (c ∷ cs) = let rest = after_word cs in if is_white c then cs else rest

abbrev pub first_token : List ℕ → Option (List ℕ × List ℕ)
first_token [] = none
first_token (c ∷ cs) = some (word (c ∷ cs), after_word (c ∷ cs))

-- `strtok`: a token and the text in which the next call goes on.
unfoldable pub strtok : List ℕ → Option (List ℕ × List ℕ)
strtok s = first_token (skip_white s)

abbrev pub cons_arg : List ℕ → Option (List (List ℕ)) → Option (List (List ℕ))
cons_arg t none = none
cons_arg t (some ts) = some (t ∷ ts)

-- The loop of `buf_args`; `none` is the -1 for too many arguments. Each token that is stored makes
-- `argc` larger, so that `maxargc` rounds are enough.
unfoldable pub more_args : ℕ → ℕ → List ℕ → Option (List (List ℕ))
more_args zero argc s = none
more_args (suc f) argc s = elim (strtok s) [
  | none ↦ some []
  | some (t, rest) ↦
      let more = more_args f (suc argc) rest in if leb 49 (suc argc) then none else cons_arg t more
]

-- `argv[0]` is `buf` itself, with the white space that `strtok` has passed over.
unfoldable pub argv0 : List ℕ → List ℕ
argv0 s = lead s ++ word (skip_white s)

abbrev pub parsed :
    {A : Type 0} → List ℕ → (List (List ℕ) → Option A) → Option (List (List ℕ)) → Option A
parsed a optfunc none = none
parsed a optfunc (some args) = optfunc (a ∷ args)

-- `none` is the -1, also that of `optfunc`.
unfoldable pub buf_args : {A : Type 0} → (List (List ℕ) → Option A) → List ℕ → Option A
buf_args optfunc s = elim (strtok s) [
  | none ↦ none
  | some (_, rest) ↦ parsed (argv0 s) optfunc (more_args maxargc 0 rest)
]

abbrev pub Solid : ℕ → Type 0
Solid c = is_white c ≡ false

skip_white-Solid : (c : ℕ) (cs : List ℕ) → Solid c → skip_white (c ∷ cs) ≡ c ∷ cs
unfolding skip_white
skip_white-Solid c cs h = rw h refl

pub word-append : (w rest : List ℕ) → All Solid w → word (w ++ 32 ∷ rest) ≡ w
unfolding word is_white
word-append [] rest h = refl
word-append (c ∷ w) rest (k, h) = rw (word-append w rest h) (rw k refl)

pub word-All : (w : List ℕ) → All Solid w → word w ≡ w
unfolding word
word-All [] h = refl
word-All (c ∷ w) (k, h) = rw (word-All w h) (rw k refl)

pub after_word-append : (w rest : List ℕ) → All Solid w → after_word (w ++ 32 ∷ rest) ≡ rest
unfolding after_word is_white
after_word-append [] rest h = refl
after_word-append (c ∷ w) rest (k, h) = rw k (after_word-append w rest h)

pub after_word-All : (w : List ℕ) → All Solid w → after_word w ≡ []
unfolding after_word
after_word-All [] h = refl
after_word-All (c ∷ w) (k, h) = rw k (after_word-All w h)

-- A word and what follows its separator.
pub strtok-append :
    (c : ℕ) (w rest : List ℕ) → All Solid (c ∷ w) → strtok (c ∷ w ++ 32 ∷ rest) ≡ some (c ∷ w, rest)
unfolding strtok
strtok-append c w rest h =
    ap first_token (skip_white-Solid c (w ++ 32 ∷ rest) h.0)
    ∙ ap (λ a. some (a, after_word (c ∷ w ++ 32 ∷ rest))) (word-append (c ∷ w) rest h)
    ∙ ap (λ a. some (c ∷ w, a)) (after_word-append (c ∷ w) rest h)

-- The last word.
pub strtok_last : (c : ℕ) (w : List ℕ) → All Solid (c ∷ w) → strtok (c ∷ w) ≡ some (c ∷ w, [])
unfolding strtok
strtok_last c w h =
    ap first_token (skip_white-Solid c w h.0)
    ∙ ap (λ a. some (a, after_word (c ∷ w))) (word-All (c ∷ w) h)
    ∙ ap (λ a. some (c ∷ w, a)) (after_word-All (c ∷ w) h)

pub strtok_nil : strtok [] ≡ none
unfolding strtok skip_white
strtok_nil = refl

-- A word in front takes no white space with it.
pub argv0-Solid : (c : ℕ) (w rest : List ℕ) → All Solid (c ∷ w) → argv0 (c ∷ w ++ 32 ∷ rest) ≡ c ∷ w
unfolding argv0 lead
argv0-Solid c w rest h =
    rw (h.0) (ap word (skip_white-Solid c (w ++ 32 ∷ rest) h.0) ∙ word-append (c ∷ w) rest h)

more_args_nil : (f argc : ℕ) → more_args (suc f) argc [] ≡ some []
unfolding more_args strtok skip_white
more_args_nil f argc = refl

buf_args_first :
    {A : Type 0} (optfunc : List (List ℕ) → Option A) (s t rest : List ℕ)
    → strtok s ≡ some (t, rest)
    → buf_args optfunc s ≡ parsed (argv0 s) optfunc (more_args maxargc 0 rest)
unfolding buf_args more_args
buf_args_first optfunc s t rest e = rw (e, buf_args) refl

more_args_word :
    (f argc : ℕ) (s t rest : List ℕ)
    → leb 49 (suc argc) ≡ false
    → strtok s ≡ some (t, rest)
    → more_args (suc f) argc s ≡ cons_arg t (more_args f (suc argc) rest)
unfolding more_args
more_args_word f argc s t rest h e = rw (e, more_args) (rw h refl)

-- Three words that single blanks separate.
pub three_words :
    {A : Type 0} (optfunc : List (List ℕ) → Option A) (a : ℕ) (xs : List ℕ) (b : ℕ) (ys : List ℕ)
    (c : ℕ) (zs : List ℕ)
    → All Solid (a ∷ xs)
    → All Solid (b ∷ ys)
    → All Solid (c ∷ zs)
    → buf_args optfunc ((a ∷ xs) ++ 32 ∷ ((b ∷ ys) ++ 32 ∷ c ∷ zs))
      ≡ optfunc ((a ∷ xs) ∷ (b ∷ ys) ∷ (c ∷ zs) ∷ [])
three_words optfunc a xs b ys c zs ha hb hc =
    buf_args_first optfunc ((a ∷ xs) ++ 32 ∷ ((b ∷ ys) ++ 32 ∷ c ∷ zs)) (a ∷ xs)
      ((b ∷ ys) ++ 32 ∷ c ∷ zs) (strtok-append a xs ((b ∷ ys) ++ 32 ∷ c ∷ zs) ha)
    ∙ ap (λ w. parsed w optfunc (more_args maxargc 0 ((b ∷ ys) ++ 32 ∷ c ∷ zs)))
        (argv0-Solid a xs ((b ∷ ys) ++ 32 ∷ c ∷ zs) ha)
    ∙ ap (parsed (a ∷ xs) optfunc) (
        more_args_word 49 0 ((b ∷ ys) ++ 32 ∷ c ∷ zs) (b ∷ ys) (c ∷ zs) refl
          (strtok-append b ys (c ∷ zs) hb)
        ∙ ap (cons_arg (b ∷ ys)) (
            more_args_word 48 1 (c ∷ zs) (c ∷ zs) [] refl (strtok_last c zs hc)
            ∙ ap (cons_arg (c ∷ zs)) (more_args_nil 47 2)))
