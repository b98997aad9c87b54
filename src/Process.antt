-- ===== src/Process.antt =====
-- A run of code that changes a state and may end the process: `err_dump`, `err_quit` and
-- `log_quit` print their message and do not return.
pub mod Ensures
use Prim.Native.String.{String}
use apue_learning.Common.{Bool, true, false}

pub data Run (S A : Type 0) : Type 0 where
  done : A → S → Run S A
  -- the process ended with this message; the state is what it left behind
  ended : String → S → Run S A
  -- a loop used up its rounds
  out_of_fuel : Run S A

abbrev pub Prog : Type 0 → Type 0 → Type 0
Prog S A = S → Run S A

abbrev pub and_then : {S A B : Type 0} → Run S A → (A → Prog S B) → Run S B
and_then (done a s) k = k a s
and_then (ended m s) k = ended m s
and_then out_of_fuel k = out_of_fuel

infixl 5 ◌>>=◌ ◌>>◌
abbrev pub ◌>>=◌ : {S A B : Type 0} → Prog S A → (A → Prog S B) → Prog S B
◌>>=◌ m k s = and_then (m s) k

abbrev pub ◌>>◌ : {S B : Type 0} → Prog S (Unit {0}) → Prog S B → Prog S B
m >> k = m >>= λ _. k

abbrev pub pure : {S A : Type 0} → A → Prog S A
pure a s = done a s

abbrev pub modify : {S : Type 0} → (S → S) → Prog S (Unit {0})
modify f s = done tt (f s)

abbrev pub end_with : {S A : Type 0} → String → Prog S A
end_with m s = ended m s

-- A guard whose failure ends the process.
abbrev pub check : {S : Type 0} → Bool → String → Prog S (Unit {0})
check true m s = done tt s
check false m s = ended m s
