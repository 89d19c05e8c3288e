-- ===== src/Base/Returns.antt =====
-- Total correctness of a run.
use mathlib.Core.Path.{◌≡◌, subst}
use textbooks.Base.Process.{Run, ok, Cmd, and_then}

-- Total correctness: the run returns, and the value and the state satisfy `P`.
pub data Returns {S A : Type 0} (P : A → S → Type 0) : Run S A → Type 0 where
  returns : {a : A} {s : S} → P a s → Returns P (ok a s)

abbrev Post : {S A : Type 0} → (A → S → Type 0) → Run S A → Type 0
Post P (ok a s) = P a s
Post P _ = Unit

module _ {S A : Type 0} {P : A → S → Type 0} where
  pub bind :
      {B : Type 0} {Q : B → S → Type 0} {r : Run S A} {k : A → Cmd S B}
      → Returns P r
      → ((a : A) (s : S) → P a s → Returns Q (k a s))
      → Returns Q (and_then r k)
  bind (returns p) next = next _ _ p

  pub mono :
      {Q : A → S → Type 0} {r : Run S A}
      → Returns P r
      → ((a : A) (s : S) → P a s → Q a s)
      → Returns Q r
  mono (returns p) weaken = returns (weaken _ _ p)

  -- What a run that returns has is what its result has.
  pub holds : {r : Run S A} {a : A} {s : S} → Returns P r → r ≡ ok a s → P a s
  holds (returns p) e = subst (Post P) e p
