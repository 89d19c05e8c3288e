-- ===== src/Base/Ends.antt =====
-- How a program may end: it returns, it exits with status 0, or it exits with status 1, for which there
-- is a reason in `F`. A run that faults or that uses up its fuel does not end.
use mathlib.Core.Path.{◌≡◌, refl}
use mathlib.Core.Logic.{◌⊎◌, inl, inr}
use textbooks.Base.Returns.{Returns, returns}
use textbooks.Base.Process.{Run, ok, exit, Cmd, and_then}

pub data Ends {S A : Type 0} (F : Type 0) (P : A → S → Type 0) (Q : S → Type 0)
    : Run S A → Type 0 where
  returned : {a : A} {s : S} → P a s → Ends F P Q (ok a s)
  succeeded : {s : S} → Q s → Ends F P Q (exit 0 s)
  failed : {s : S} → F → Ends F P Q (exit 1 s)

module _ {S A F : Type 0} {P : A → S → Type 0} {Q : S → Type 0} where
  pub bind :
      {B : Type 0} {P' : B → S → Type 0} {r : Run S A} {k : A → Cmd S B}
      → Ends F P Q r
      → ((a : A) (s : S) → P a s → Ends F P' Q (k a s))
      → Ends F P' Q (and_then r k)
  bind (returned p) next = next _ _ p
  bind (succeeded q) next = succeeded q
  bind (failed f) next = failed f

  pub mono :
      {P' : A → S → Type 0} {r : Run S A}
      → Ends F P Q r
      → ((a : A) (s : S) → P a s → P' a s)
      → Ends F P' Q r
  mono (returned p) weaken = returned (weaken _ _ p)
  mono (succeeded q) weaken = succeeded q
  mono (failed f) weaken = failed f

  pub success :
      {Q' : S → Type 0} {r : Run S A} → Ends F P Q r → ((s : S) → Q s → Q' s) → Ends F P Q' r
  success (returned p) weaken = returned p
  success (succeeded q) weaken = succeeded (weaken _ q)
  success (failed f) weaken = failed f

  -- For another reason.
  pub because : {G : Type 0} {r : Run S A} → (F → G) → Ends F P Q r → Ends G P Q r
  because weaken (returned p) = returned p
  because weaken (succeeded q) = succeeded q
  because weaken (failed f) = failed (weaken f)

  pub ends : {r : Run S A} → Returns P r → Ends F P Q r
  ends (returns p) = returned p

-- A run that does not exit with status 0 returns, or there is a reason.
pub outcome :
    {S A F : Type 0} {P : A → S → Type 0} {r : Run S A}
    → Ends F P (λ _. ⊥) r
    → F ⊎ ((a : A) × (s : S) × (r ≡ ok a s) × P a s)
outcome (returned p) = inr (_, _, refl, p)
outcome (succeeded q) = absurd q
outcome (failed f) = inl f
