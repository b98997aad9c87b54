-- ===== src/Opend/Clients.antt =====
-- What `client_add` and `client_del` do to the table of clients.
use apue_learning.Common.{
  ℕ, suc, ◌≡◌, ◌≢◌, refl, ap, ◌∙◌, List, [], ◌∷◌, ◌++◌, Option, none, some, length, All,
  Option-cases, inl, inr, replicate,
}
use apue_learning.Opend.{Client, claim, client_add, client_alloc, or_else}

abbrev pub Taken : Client → Type 0
Taken c = c.fd ≢ none

abbrev pub entry : ℕ → ℕ → Client
entry fd uid = record { fd = some fd; uid = uid }

-- How a search for an available entry ends: it takes the first one and changes no other.
pub data Claimed (fd uid : ℕ) : List Client → Option (ℕ × List Client) → Type 0 where
  full : {t : List Client} → All Taken t → Claimed fd uid t none
  took :
      (before : List Client) (old : Client) (after : List Client)
      → All Taken before
      → old.fd ≡ none
      → Claimed fd uid
          (before ++ old ∷ after)
          (some (length before, before ++ entry fd uid ∷ after))

abbrev push : Client → Option (ℕ × List Client) → Option (ℕ × List Client)
push c r = elim r [ none ↦ none | some (i, t') ↦ some (suc i, c ∷ t') ]

push-Claimed :
    {fd uid : ℕ} (c : Client) {t : List Client} {r : Option (ℕ × List Client)}
    → Taken c
    → Claimed fd uid t r
    → Claimed fd uid (c ∷ t) (push c r)
push-Claimed c k (full all) = full (k, all)
push-Claimed c k (took before old after all e) = took (c ∷ before) old after (k, all) e

claim_entry-Claimed :
    (fd uid : ℕ) (f : Option ℕ) (u : ℕ) (t : List Client)
    → Claimed fd uid t (claim fd uid t)
    → Claimed fd uid
        (record { fd = f; uid = u } ∷ t)
        (claim fd uid (record { fd = f; uid = u } ∷ t))
unfolding claim
claim_entry-Claimed fd uid none u t d = took [] (record { fd = none; uid = u }) t tt refl
claim_entry-Claimed fd uid (some n) u t d =
    push-Claimed (record { fd = some n; uid = u }) (λ e. cc) d

claim-Claimed : (fd uid : ℕ) (t : List Client) → Claimed fd uid t (claim fd uid t)
unfolding claim
claim-Claimed fd uid [] = full tt
claim-Claimed fd uid (c ∷ t) = claim_entry-Claimed fd uid c.fd c.uid t (claim-Claimed fd uid t)

-- The entries that `client_alloc` leaves after the one that is taken.
abbrev pub fresh : ℕ → List Client
fresh junk = replicate 9 (record { fd = none; uid = junk })

claim_skip :
    (fd uid : ℕ) (f : Option ℕ) (u : ℕ) (t : List Client)
    → f ≢ none
    → claim fd uid (record { fd = f; uid = u } ∷ t)
      ≡ push (record { fd = f; uid = u }) (claim fd uid t)
unfolding claim
claim_skip fd uid none u t k = absurd (k refl)
claim_skip fd uid (some n) u t k = refl

claim-client_alloc :
    (junk fd uid : ℕ) (t : List Client)
    → All Taken t
    → claim fd uid (client_alloc junk t) ≡ some (length t, t ++ entry fd uid ∷ fresh junk)
unfolding client_alloc claim
claim-client_alloc junk fd uid [] all = refl
claim-client_alloc junk fd uid (c ∷ t) (k, all) = elim (Option-cases c.fd) [
  | inl e ↦ absurd (k e)
  | inr (n, e) ↦
      claim_skip fd uid c.fd c.uid (client_alloc junk t) k
      ∙ ap (push c) (claim-client_alloc junk fd uid t all)
]

-- The two ways in which `client_add` ends.
pub data Added (junk fd uid : ℕ) (t : List Client) : Option (ℕ × List Client) → Type 0 where
  grown : All Taken t → Added junk fd uid t (some (length t, t ++ entry fd uid ∷ fresh junk))
  reused :
      (before : List Client) (old : Client) (after : List Client)
      → All Taken before
      → old.fd ≡ none
      → t ≡ before ++ old ∷ after
      → Added junk fd uid t (some (length before, before ++ entry fd uid ∷ after))

nonempty_add :
    (junk fd uid : ℕ) (t : List Client) (r : Option (ℕ × List Client))
    → Claimed fd uid t r
    → Added junk fd uid t (or_else r (claim fd uid (client_alloc junk t)))
nonempty_add junk fd uid t r (full all) = rw (claim-client_alloc junk fd uid t all) (grown all)
nonempty_add junk fd uid t r (took before old after all e) = reused before old after all e refl

pub client_add-Added :
    (junk fd uid : ℕ) (t : List Client) → Added junk fd uid t (client_add junk fd uid t)
unfolding client_add
client_add-Added junk fd uid [] = rw (claim-client_alloc junk fd uid [] tt) (grown tt)
client_add-Added junk fd uid (c ∷ t) =
    nonempty_add junk fd uid (c ∷ t) (claim fd uid (c ∷ t)) (claim-Claimed fd uid (c ∷ t))
