-- ===== src/MultiProcess/Turns.antt =====
-- How many steps a child gets in an order of steps, and what is left for it behind them.
use apue_learning.Common.{
  ℕ, zero, suc, ◌+◌, ◌-◌, ◌≤◌, ◌≡◌, refl, ap, ◌∙◌, sym, subst, Bool, true, false, List, [], ◌∷◌,
  ◌++◌, Option, none, some, inl, inr, ◌==◌, ==_iff, arith, length, set, get_elem?, Bool-cases,
  if◌then◌else◌,
}
use apue_learning.MultiProcess.{SyncConfig, target_file}
use apue_learning.MultiProcess.Disk.{Disk, Os, sync_file}
use apue_learning.MultiProcess.Run.{System, synced, worker_next, worker_step, run, all_finished}
use apue_learning.MultiProcess.Members.{all_left}

unfoldable pub turns : ℕ → List ℕ → ℕ
turns z [] = 0
turns z (who ∷ order) = let rest = turns z order in if who == z then suc rest else rest

abbrev pub left_of : List (List (List ℕ)) → ℕ → ℕ
left_of [] z = 0
left_of (w ∷ ws) zero = length w
left_of (w ∷ ws) (suc z) = left_of ws z

pub left_of-finished :
    (ws : List (List (List ℕ))) → ((z : ℕ) → left_of ws z ≡ 0) → all_finished ws ≡ true
unfolding all_finished
left_of-finished [] h = refl
left_of-finished ([] ∷ ws) h = left_of-finished ws (λ z. h (suc z))
left_of-finished ((p ∷ ps) ∷ ws) h = absurd (omega (arith, h 0))

pub left_of-behind : (ws : List (List (List ℕ))) (z : ℕ) → length ws ≤ z → left_of ws z ≡ 0
left_of-behind [] z h = refl
left_of-behind (w ∷ ws) zero h = absurd (omega arith)
left_of-behind (w ∷ ws) (suc z) h = left_of-behind ws z (omega arith)

length-++ : (a b : List (List ℕ)) → length (a ++ b) ≡ length a + length b
length-++ [] b = omega arith
length-++ (x ∷ a) b = omega (arith, length-++ a b)

pub left_of-all_left : (ws : List (List (List ℕ))) (z : ℕ) → left_of ws z ≤ length (all_left ws)
left_of-all_left [] z = omega arith
left_of-all_left (w ∷ ws) zero = omega (arith, length-++ w (all_left ws))
left_of-all_left (w ∷ ws) (suc z) = omega (arith, length-++ w (all_left ws), left_of-all_left ws z)

left_of-get :
    (ws : List (List (List ℕ))) (z : ℕ) (w : List (List ℕ))
    → get_elem? ws z ≡ some w
    → left_of ws z ≡ length w
left_of-get [] z w h = absurd cc
left_of-get (v ∷ ws) zero w h = let e : v ≡ w = cc in ap length e
left_of-get (v ∷ ws) (suc z) w h = left_of-get ws z w h

left_of-none : (ws : List (List (List ℕ))) (z : ℕ) → get_elem? ws z ≡ none → left_of ws z ≡ 0
left_of-none [] z h = refl
left_of-none (v ∷ ws) zero h = absurd cc
left_of-none (v ∷ ws) (suc z) h = left_of-none ws z h

left_of-set :
    (ws : List (List (List ℕ))) (who z : ℕ) (w : List (List ℕ))
    → left_of (set ws who w) z ≤ (if who == z then length w else left_of ws z)
left_of-set [] who z w = omega arith
left_of-set (v ∷ ws) zero zero w = omega arith
left_of-set (v ∷ ws) zero (suc z) w = ground arith
left_of-set (v ∷ ws) (suc who) zero w = ground arith
left_of-set (v ∷ ws) (suc who) (suc z) w =
    subst (λ b. left_of (set ws who w) z ≤ (if b then length w else left_of ws z))
      (elim (Bool-cases (who == z)) [
        | inl e ↦ e ∙ sym ((==_iff (suc who) (suc z)).1 (ap suc ((==_iff who z).0 e)))
        | inr e ↦ e ∙ sym (ground (arith, e))
      ])
      (left_of-set ws who z w)

-- One file less for the child whose step it is, if it has one.
abbrev Less : ℕ → ℕ → System → System → Type 0
Less who z s t = left_of t.workers z ≤ left_of s.workers z - (if who == z then 1 else 0)

module _ (os : Os) (config : SyncConfig) where
  idle : (who z : ℕ) (s : System) → left_of s.workers who ≡ 0 → Less who z s s
  idle who z s e = elim (Bool-cases (who == z)) [
    | inl q ↦ rw q (omega (arith, e, ap (left_of s.workers) ((==_iff who z).0 q)))
    | inr q ↦ rw q (omega arith)
  ]

  synced-Less :
      (who z : ℕ) (p : List ℕ) (rest : List (List ℕ)) (s t : System) (r : Option (Bool × Disk))
      → get_elem? s.workers who ≡ some (p ∷ rest)
      → synced who p rest s r ≡ some t
      → Less who z s t
  synced-Less who z p rest s t none g e = absurd cc
  synced-Less who z p rest s t (some (ok, d)) g e =
      let q : set s.workers who rest ≡ t.workers =
        ap (λ o. elim o [ none ↦ [] | some y ↦ y.workers ]) e in
      let had = left_of-get s.workers who (p ∷ rest) g in
      let has = left_of-set s.workers who z rest in
      subst (λ w. left_of w z ≤ left_of s.workers z - (if who == z then 1 else 0)) q
        (elim (Bool-cases (who == z)) [
          | inl k ↦ rw k (
              omega (
                arith,
                had,
                ap (left_of s.workers) ((==_iff who z).0 k),
                subst
                    (λ b.
                      left_of (set s.workers who rest) z
                      ≤ (if b then length rest else left_of s.workers z))
                    k has,
              ))
          | inr k ↦ rw k (
              omega (
                arith,
                subst
                    (λ b.
                      left_of (set s.workers who rest) z
                      ≤ (if b then length rest else left_of s.workers z))
                    k has,
              ))
        ])

  same_some : {s t : System} → some s ≡ some t → s ≡ t
  same_some e = cc

  next-Less :
      (who z : ℕ) (s t : System) (o : Option (List (List ℕ)))
      → get_elem? s.workers who ≡ o
      → worker_next os config who s o ≡ some t
      → Less who z s t
  next-Less who z s t none g e =
      subst (Less who z s) (same_some e) (idle who z s (left_of-none s.workers who g))
  next-Less who z s t (some []) g e =
      subst (Less who z s) (same_some e) (idle who z s (left_of-get s.workers who [] g))
  next-Less who z s t (some (p ∷ rest)) g e =
      synced-Less who z p rest s t (sync_file os p (target_file config p) s.disk) g e

  pub run-left :
      (order : List ℕ) (s t : System) (z : ℕ)
      → run os config order s ≡ some t
      → left_of t.workers z ≤ left_of s.workers z - turns z order
  unfolding run worker_step turns
  run-left [] s t z e =
      subst (λ y. left_of y.workers z ≤ left_of s.workers z - 0) (same_some e) (omega arith)
  run-left (who ∷ order) s t z e =
      onward (worker_next os config who s (get_elem? s.workers who))
        (λ u q. next-Less who z s u (get_elem? s.workers who) refl q)
        (λ u q. run-left order u t z q) e
    where
      fewer :
          (b : Bool) (l m n k : ℕ)
          → m ≤ l - (if b then 1 else 0)
          → n ≤ m - k
          → n ≤ l - (if b then suc k else k)
      fewer true l m n k h h' = omega arith
      fewer false l m n k h h' = omega arith

      onward :
          (r : Option System)
          → ((u : System) → r ≡ some u → Less who z s u)
          → ((u : System)
              → run os config order u ≡ some t
              → left_of t.workers z ≤ left_of u.workers z - turns z order)
          → (elim r [ none ↦ none | some u ↦ run os config order u ]) ≡ some t
          → left_of t.workers z
            ≤ left_of s.workers z - (if who == z then suc (turns z order) else turns z order)
      onward none h k q = absurd cc
      onward (some u) h k q =
          fewer (who == z) (left_of s.workers z) (left_of u.workers z) (left_of t.workers z)
            (turns z order) (h u refl) (k u q)
