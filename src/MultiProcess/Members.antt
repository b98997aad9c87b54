-- ===== src/MultiProcess/Members.antt =====
-- The files that children have still to do, and one child's first file among them.
use apue_learning.Common.{
  In, Once, ℕ, zero, suc, append_assoc, ◌≡◌, refl, ap, ◌∙◌, sym, subst, Bool, List, [], ◌∷◌, ◌++◌,
  some, ◌⊎◌, inl, inr, set, get_elem?, map,
}

-- What the children have still to do.
abbrev pub all_left : List (List (List ℕ)) → List (List ℕ)
all_left [] = []
all_left (w ∷ ws) = w ++ all_left ws

abbrev pub reported : List (List ℕ × Bool) → List (List ℕ)
reported rs = map (λ r. r.0) rs

-- One element among others.
pub In-other : (q p : List ℕ) (a b : List (List ℕ)) → In q (a ++ b) → In q (a ++ p ∷ b)
In-other q p [] b h = inr h
In-other q p (x ∷ a) b (inl h) = inl h
In-other q p (x ∷ a) b (inr h) = inr (In-other q p a b h)

pub In-this : (p : List ℕ) (a b : List (List ℕ)) → In p (a ++ p ∷ b)
In-this p [] b = inl refl
In-this p (x ∷ a) b = inr (In-this p a b)

pub In-split : (q p : List ℕ) (a b : List (List ℕ)) → In q (a ++ p ∷ b) → (q ≡ p) ⊎ In q (a ++ b)
In-split q p [] b h = h
In-split q p (x ∷ a) b (inl h) = inr (inl h)
In-split q p (x ∷ a) b (inr h) = elim (In-split q p a b h) [ inl k ↦ inl k | inr k ↦ inr (inr k) ]

pub Once-split :
    (p : List ℕ) (a b : List (List ℕ)) → Once (a ++ p ∷ b) → Once (a ++ b) × (In p (a ++ b) → ⊥)
Once-split p [] b h = (h.1, h.0)
Once-split p (x ∷ a) b h =
    let r = Once-split p a b h.1 in
    (
      (λ k. h.0 (In-other x p a b k), r.0),
      λ k. elim k [
        | inl e ↦ h.0 (subst (λ z. In z (a ++ p ∷ b)) e (In-this p a b))
        | inr j ↦ r.1 j
      ],
    )

-- The child `who` takes its first file.
pub left-split :
    (ws : List (List (List ℕ))) (who : ℕ) (p : List ℕ) (rest : List (List ℕ))
    → get_elem? ws who ≡ some (p ∷ rest)
    → (a : List (List ℕ)) × (b : List (List ℕ)) × (all_left ws ≡ a ++ p ∷ b)
      × (all_left (set ws who rest) ≡ a ++ b)
left-split [] who p rest h = absurd cc
left-split (w ∷ ws) zero p rest h =
    let e : w ≡ p ∷ rest = cc in ([], rest ++ all_left ws, ap (λ z. z ++ all_left ws) e, refl)
left-split (w ∷ ws) (suc who) p rest h =
    let (a, b, q, r) = left-split ws who p rest h in
    (
      w ++ a,
      b,
      ap (λ z. w ++ z) q ∙ sym (append_assoc w a (p ∷ b)),
      ap (λ z. w ++ z) r ∙ sym (append_assoc w a b),
    )
