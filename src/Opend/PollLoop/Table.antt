-- ===== src/Opend/PollLoop/Table.antt =====
-- How often a descriptor is in the table of clients, and how many entries are taken.
use apue_learning.Common.{
  ℕ, suc, ◌+◌, ◌≤◌, ◌<◌, ◌≡◌, refl, ap, List, [], ◌∷◌, ◌++◌, Option, none, some, length, arith, All,
}
use apue_learning.Opend.{Client, client_add, client_del}
use apue_learning.Opend.Clients.{entry, Added, grown, reused, fresh, client_add-Added}
use apue_learning.Opend.Disconnect.{Lacks, Deleted, absent, freed, client_del-Deleted}
use apue_learning.Opend.PollLoop.Polled.{hit}

abbrev pub holds : ℕ → List Client → ℕ
holds x [] = 0
holds x (c ∷ t) = hit c.fd x + holds x t

abbrev pub taken_one : Option ℕ → ℕ
taken_one none = 0
taken_one (some fd) = 1

-- The entries that are not available.
abbrev pub taken : List Client → ℕ
taken [] = 0
taken (c ∷ t) = taken_one c.fd + taken t

one_at_most : (f : Option ℕ) → taken_one f ≤ 1
one_at_most none = omega arith
one_at_most (some fd) = omega arith

pub taken-length : (t : List Client) → taken t ≤ length t
taken-length [] = omega arith
taken-length (c ∷ t) = omega (arith, taken-length t, one_at_most c.fd)

holds-append : (x : ℕ) (a b : List Client) → holds x (a ++ b) ≡ holds x a + holds x b
holds-append x [] b = omega arith
holds-append x (c ∷ a) b = omega (arith, holds-append x a b)

taken-append : (a b : List Client) → taken (a ++ b) ≡ taken a + taken b
taken-append [] b = omega arith
taken-append (c ∷ a) b = omega (arith, taken-append a b)

-- One entry more for a descriptor.
pub data AddedTo (fd : ℕ) (t : List Client) : Option (ℕ × List Client) → Type 0 where
  added_to :
      (i : ℕ) (t' : List Client)
      → ((x : ℕ) → holds x t' ≡ holds x t + hit (some fd) x)
      → taken t' ≡ suc (taken t)
      → AddedTo fd t (some (i, t'))

-- One entry less.
pub data DeletedFrom (fd : ℕ) (t : List Client) : Option (List Client) → Type 0 where
  deleted_from :
      (t' : List Client)
      → ((x : ℕ) → holds x t' + hit (some fd) x ≡ holds x t)
      → suc (taken t') ≡ taken t
      → DeletedFrom fd t (some t')

Added-AddedTo :
    (junk fd uid : ℕ) (t : List Client) (r : Option (ℕ × List Client))
    → Added junk fd uid t r
    → AddedTo fd t r
Added-AddedTo junk fd uid t _ (grown _) =
    added_to _ _ (λ x. omega (arith, holds-append x t (entry fd uid ∷ fresh junk)))
      (omega (arith, taken-append t (entry fd uid ∷ fresh junk)))
Added-AddedTo junk fd uid t _ (reused before old after _ e q) =
    added_to _ _
      (λ x. omega (
        arith,
        ap (holds x) q,
        holds-append x before (old ∷ after),
        holds-append x before (entry fd uid ∷ after),
        ap (λ f. hit f x) e,
      ))
      (omega (
        arith,
        ap taken q,
        taken-append before (old ∷ after),
        taken-append before (entry fd uid ∷ after),
        ap taken_one e,
      ))

pub client_add-AddedTo :
    (junk fd uid : ℕ) (t : List Client) → AddedTo fd t (client_add junk fd uid t)
client_add-AddedTo junk fd uid t =
    Added-AddedTo junk fd uid t (client_add junk fd uid t) (client_add-Added junk fd uid t)

not_hit : (f : Option ℕ) (fd : ℕ) → (f ≡ some fd → ⊥) → hit f fd ≡ 0
not_hit none fd n = refl
not_hit (some g) fd n = let k : g ≡ fd → ⊥ = λ e. n (ap some e) in ground (arith, k)

Lacks-holds : (fd : ℕ) (t : List Client) → All (Lacks fd) t → holds fd t ≡ 0
Lacks-holds fd [] h = refl
Lacks-holds fd (c ∷ t) h = omega (arith, not_hit c.fd fd h.0, Lacks-holds fd t h.1)

Deleted-DeletedFrom :
    (fd : ℕ) (t : List Client) (r : Option (List Client))
    → 0 < holds fd t
    → Deleted fd t r
    → DeletedFrom fd t r
Deleted-DeletedFrom fd t _ lt (absent h) = absurd (omega (arith, Lacks-holds fd t h))
Deleted-DeletedFrom fd _ _ lt (freed before old after _ e) =
    deleted_from _
      (λ x. omega (
        arith,
        holds-append x before (old ∷ after),
        holds-append x before (record { fd = none; uid = old.uid } ∷ after),
        ap (λ f. hit f x) e,
      ))
      (omega (
        arith,
        taken-append before (old ∷ after),
        taken-append before (record { fd = none; uid = old.uid } ∷ after),
        ap taken_one e,
      ))

pub client_del-DeletedFrom :
    (fd : ℕ) (t : List Client) → 0 < holds fd t → DeletedFrom fd t (client_del fd t)
client_del-DeletedFrom fd t lt =
    Deleted-DeletedFrom fd t (client_del fd t) lt (client_del-Deleted fd t)
