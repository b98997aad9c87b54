-- ===== src/Opend/PollLoop/Polled.antt =====
-- The descriptors in the first entries of the array that is polled.
use apue_learning.Common.{
  ℕ, zero, suc, ◌+◌, ◌≤◌, ◌<◌, ◌≡◌, refl, ap, ◌∙◌, sym, subst, List, [], ◌∷◌, ◌++◌, Option, none,
  some, length, get_elem?, set, arith, if◌then◌else◌,
}
use apue_learning.Opend.{same_fd}
use apue_learning.Opend.PollLoop.{PollFd, Event, reported, poll}

abbrev pub hit : Option ℕ → ℕ → ℕ
hit f x = if same_fd f x then 1 else 0

-- How often descriptor `x` is in the first `n` entries.
abbrev pub polls : ℕ → ℕ → List PollFd → ℕ
polls x zero es = 0
polls x (suc n) [] = 0
polls x (suc n) (e ∷ es) = hit e.fd x + polls x n es

abbrev pub IsUsed : Option ℕ → Type 0
IsUsed none = ⊥
IsUsed (some fd) = Unit

-- The first `n` entries are there, and have a descriptor.
abbrev pub Named : ℕ → List PollFd → Type 0
Named zero es = Unit
Named (suc n) [] = ⊥
Named (suc n) (e ∷ es) = IsUsed e.fd × Named n es

pub Named-length : (n : ℕ) (es : List PollFd) → Named n es → n ≤ length es
Named-length zero es h = omega arith
Named-length (suc n) [] h = absurd h
Named-length (suc n) (e ∷ es) h = omega (arith, Named-length n es h.1)

pub used : (f : Option ℕ) → IsUsed f → (fd : ℕ) × (f ≡ some fd)
used none h = absurd h
used (some fd) h = (fd, refl)

pub Named-get :
    (n i : ℕ) (es : List PollFd)
    → Named n es
    → i < n
    → (e : PollFd) × (get_elem? es i ≡ some e) × IsUsed e.fd
Named-get zero i es h lt = absurd (omega arith)
Named-get (suc n) i [] h lt = absurd h
Named-get (suc n) zero (e ∷ es) h lt = (e, refl, h.0)
Named-get (suc n) (suc i) (e ∷ es) h lt = Named-get n i es h.1 (omega arith)

pub Named-fewer : (n : ℕ) (es : List PollFd) → Named (suc n) es → Named n es
Named-fewer zero es h = tt
Named-fewer (suc n) [] h = h
Named-fewer (suc n) (e ∷ es) h = (h.0, Named-fewer n es h.1)

pub Named-set :
    (n i : ℕ) (es : List PollFd) (v : PollFd) → Named n es → IsUsed v.fd → Named n (set es i v)
Named-set zero i es v h u = tt
Named-set (suc n) i [] v h u = absurd h
Named-set (suc n) zero (e ∷ es) v h u = (u, h.1)
Named-set (suc n) (suc i) (e ∷ es) v h u = (h.0, Named-set n i es v h.1 u)

pub Named-more :
    (n : ℕ) (es : List PollFd) (v : PollFd)
    → Named n es
    → n < length es
    → IsUsed v.fd
    → Named (suc n) (set es n v)
Named-more n [] v h lt u = absurd (omega arith)
Named-more zero (e ∷ es) v h lt u = (u, tt)
Named-more (suc n) (e ∷ es) v h lt u = (h.0, Named-more n es v h.1 (omega arith) u)

pub Named-append : (n : ℕ) (es fs : List PollFd) → Named n es → Named n (es ++ fs)
Named-append zero es fs h = tt
Named-append (suc n) [] fs h = absurd h
Named-append (suc n) (e ∷ es) fs h = (h.0, Named-append n es fs h.1)

pub polls-append :
    (x n : ℕ) (es fs : List PollFd) → Named n es → polls x n (es ++ fs) ≡ polls x n es
polls-append x zero es fs h = refl
polls-append x (suc n) [] fs h = absurd h
polls-append x (suc n) (e ∷ es) fs h = ap (λ k. hit e.fd x + k) (polls-append x n es fs h.1)

pub polls-last :
    (x n : ℕ) (es : List PollFd) (e : PollFd)
    → get_elem? es n ≡ some e
    → polls x (suc n) es ≡ polls x n es + hit e.fd x
polls-last x n [] e q = absurd cc
polls-last x zero (d ∷ es) e q = let z : d ≡ e = cc in omega (arith, ap (λ w. hit w.fd x) z)
polls-last x (suc n) (d ∷ es) e q = omega (arith, polls-last x n es e q)

pub polls-set :
    (x n i : ℕ) (es : List PollFd) (old v : PollFd)
    → get_elem? es i ≡ some old
    → i < n
    → polls x n (set es i v) + hit old.fd x ≡ polls x n es + hit v.fd x
polls-set x zero i es old v q lt = absurd (omega arith)
polls-set x (suc n) i [] old v q lt = absurd cc
polls-set x (suc n) zero (d ∷ es) old v q lt =
    let z : d ≡ old = cc in omega (arith, ap (λ w. hit w.fd x) z)
polls-set x (suc n) (suc i) (d ∷ es) old v q lt =
    omega (arith, polls-set x n i es old v q (omega arith))

pub polls-more :
    (x n : ℕ) (es : List PollFd) (v : PollFd)
    → n < length es
    → polls x (suc n) (set es n v) ≡ polls x n es + hit v.fd x
polls-more x n [] v lt = absurd (omega arith)
polls-more x zero (d ∷ es) v lt = omega arith
polls-more x (suc n) (d ∷ es) v lt = omega (arith, polls-more x n es v (omega arith))

pub length-set : (es : List PollFd) (i : ℕ) (v : PollFd) → length (set es i v) ≡ length es
length-set [] i v = refl
length-set (e ∷ es) zero v = refl
length-set (e ∷ es) (suc i) v = ap suc (length-set es i v)

-- `poll` changes no descriptor.
reported-fd : (input : ℕ → Event) (f : Option ℕ) → (reported input f).fd ≡ f
reported-fd input none = refl
reported-fd input (some fd) = refl

pub polls-poll :
    (input : ℕ → Event) (x n : ℕ) (es : List PollFd) → polls x n (poll input n es) ≡ polls x n es
unfolding poll
polls-poll input x zero es = refl
polls-poll input x (suc n) [] = refl
polls-poll input x (suc n) (e ∷ es) =
    ap (λ f. hit f x + polls x n (poll input n es)) (reported-fd input e.fd)
    ∙ ap (λ k. hit e.fd x + k) (polls-poll input x n es)

pub Named-poll :
    (input : ℕ → Event) (n : ℕ) (es : List PollFd) → Named n es → Named n (poll input n es)
unfolding poll
Named-poll input zero es h = tt
Named-poll input (suc n) [] h = absurd h
Named-poll input (suc n) (e ∷ es) h =
    (subst IsUsed (sym (reported-fd input e.fd)) h.0, Named-poll input n es h.1)

pub length-poll :
    (input : ℕ → Event) (n : ℕ) (es : List PollFd) → length (poll input n es) ≡ length es
unfolding poll
length-poll input zero es = refl
length-poll input (suc n) [] = refl
length-poll input (suc n) (e ∷ es) = ap suc (length-poll input n es)
