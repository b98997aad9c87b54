-- ===== src/Opend/Disconnect.antt =====
-- What `client_del` does to the table of clients, also after a `client_add`.
use apue_learning.Common.{
  ℕ, ◌≡◌, ◌≢◌, refl, ap, List, [], ◌∷◌, ◌++◌, Option, none, some, true, false, arith, All,
  Bool-cases, inl, inr, ◌⊎◌, replicate, map, Bool,
}
use apue_learning.Opend.{Client, client_del, same_fd}

abbrev pub Lacks : ℕ → Client → Type 0
Lacks fd c = c.fd ≢ some fd

abbrev pub fds : List Client → List (Option ℕ)
fds t = map (λ c. c.fd) t

-- How a search for a descriptor's entry ends: the first one is made available.
pub data Deleted (fd : ℕ) : List Client → Option (List Client) → Type 0 where
  absent : {t : List Client} → All (Lacks fd) t → Deleted fd t none
  freed :
      (before : List Client) (old : Client) (after : List Client)
      → All (Lacks fd) before
      → old.fd ≡ some fd
      → Deleted fd
          (before ++ old ∷ after)
          (some (before ++ record { fd = none; uid = old.uid } ∷ after))

abbrev keep : Client → Option (List Client) → Option (List Client)
keep c r = elim r [ none ↦ none | some t ↦ some (c ∷ t) ]

keep-Deleted :
    {fd : ℕ} (c : Client) {t : List Client} {r : Option (List Client)}
    → Lacks fd c
    → Deleted fd t r
    → Deleted fd (c ∷ t) (keep c r)
keep-Deleted c k (absent all) = absent (k, all)
keep-Deleted c k (freed before old after all e) = freed (c ∷ before) old after (k, all) e

same_fd→eq : (f : Option ℕ) (fd : ℕ) → same_fd f fd ≡ true → f ≡ some fd
same_fd→eq none fd h = cc
same_fd→eq (some n) fd h = ground arith

same_fd→ne : (f : Option ℕ) (fd : ℕ) → same_fd f fd ≡ false → f ≢ some fd
same_fd→ne none fd h = λ e. cc
same_fd→ne (some n) fd h = ground arith

abbrev del_step : ℕ → Client → List Client → Bool → Option (List Client)
del_step fd c t true = some (record { fd = none; uid = c.uid } ∷ t)
del_step fd c t false = keep c (client_del fd t)

client_del_lem :
    (fd : ℕ) (c : Client) (t : List Client)
    → client_del fd (c ∷ t) ≡ del_step fd c t (same_fd c.fd fd)
unfolding client_del
client_del_lem fd c t = elim (Bool-cases (same_fd c.fd fd)) [
  | inl e ↦ rw (e, client_del, del_step) refl
  | inr e ↦ rw (e, client_del, del_step) refl
]

pub client_del-Deleted : (fd : ℕ) (t : List Client) → Deleted fd t (client_del fd t)
unfolding client_del
client_del-Deleted fd [] = absent tt
client_del-Deleted fd (c ∷ t) = rw (client_del_lem fd c t) (elim (Bool-cases (same_fd c.fd fd)) [
  | inl e ↦ rw e (freed [] c t tt (same_fd→eq c.fd fd e))
  | inr e ↦ rw e (keep-Deleted c (same_fd→ne c.fd fd e) (client_del-Deleted fd t))
])

pub fds-append : (a b : List Client) → fds (a ++ b) ≡ fds a ++ fds b
fds-append [] b = refl
fds-append (c ∷ a) b = ap (λ l. c.fd ∷ l) (fds-append a b)

-- The table after a client has come and gone: the old descriptors, or ten more free entries.
abbrev Restored : List Client → List Client → Type 0
Restored t t' = (fds t' ≡ fds t) ⊎ (fds t' ≡ fds t ++ replicate 10 none)

abbrev pub Returns : ℕ → List Client → Option (ℕ × List Client) → Type 0
Returns fd t r =
    (i : ℕ) × (t' : List Client) × (t'' : List Client) × (r ≡ some (i, t'))
    × (client_del fd t' ≡ some t'')
    × Restored t t''
