-- ===== src/Process/Ensures.antt =====
-- What a run that returns leaves behind, whatever else may happen; and the rule for a bind.
use Prim.Native.String.{String}
use apue_learning.Common.{◌≡◌, refl, ap, subst, Bool, true, false, if◌then◌else◌}
use apue_learning.Process.{Run, Prog, done, ended, out_of_fuel, and_then}

-- If the run returns, its result and its state satisfy `P`.
pub data Ensures {S A : Type 0} (P : A → S → Type 0) : Run S A → Type 0 where
  returned : {a : A} {s : S} → P a s → Ensures P (done a s)
  stopped : {m : String} {s : S} → Ensures P (ended m s)
  unfinished : Ensures P out_of_fuel

module _ {S A : Type 0} {P : A → S → Type 0} where
  pub Ensures-bind :
      {B : Type 0} {Q : B → S → Type 0} {r : Run S A} {k : A → Prog S B}
      → Ensures P r
      → ((a : A) (s : S) → P a s → Ensures Q (k a s))
      → Ensures Q (and_then r k)
  Ensures-bind (returned p) next = next _ _ p
  Ensures-bind stopped next = stopped
  Ensures-bind unfinished next = unfinished

  pub Ensures-mono :
      {Q : A → S → Type 0} {r : Run S A}
      → Ensures P r
      → ((a : A) (s : S) → P a s → Q a s)
      → Ensures Q r
  Ensures-mono (returned p) weaken = returned (weaken _ _ p)
  Ensures-mono stopped weaken = stopped
  Ensures-mono unfinished weaken = unfinished

  pub Ensures-if :
      (b : Bool) {r t : Run S A}
      → (b ≡ true → Ensures P r)
      → (b ≡ false → Ensures P t)
      → Ensures P (if b then r else t)
  Ensures-if true yes_case no_case = yes_case refl
  Ensures-if false yes_case no_case = no_case refl

-- What the fact says of a run that is known to return.
module _ {S A : Type 0} where
  abbrev pub result_or : A → Run S A → A
  result_or d (done a s) = a
  result_or d _ = d

  abbrev pub state_or : S → Run S A → S
  state_or d (done a s) = s
  state_or d _ = d

  pub of_done :
      {P : A → S → Type 0} {r : Run S A} {a : A} {s : S} → Ensures P r → r ≡ done a s → P a s
  of_done {P} {a = a} {s = s} (returned {a = b} {s = t} p) e =
      subst (λ x. P x s) (ap (result_or a) e) (subst (λ y. P b y) (ap (state_or s) e) p)
  of_done stopped e = cc
  of_done unfinished e = cc

  pub ensures :
      {P : A → S → Type 0} (r : Run S A) → ((a : A) (s : S) → r ≡ done a s → P a s) → Ensures P r
  ensures (done a s) h = returned (h a s refl)
  ensures (ended m s) h = stopped
  ensures out_of_fuel h = unfinished
