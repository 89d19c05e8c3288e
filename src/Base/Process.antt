-- ===== src/Base/Process.antt =====
-- Runs of a C program over a state: a value is returned, the process exits with a status, the
-- behaviour is undefined (an address that is not mapped, an index out of bounds, an overflow of an
-- int), or the fuel of a loop is used up.
use Prim.Native.Nat.{ℕ, ◌-◌, ◌^◌}

pub data Run (S A : Type 0) : Type 0 where
  ok : A → S → Run S A
  exit : ℕ → S → Run S A
  fault : Run S A
  out_of_fuel : Run S A

abbrev pub Cmd : Type 0 → Type 0 → Type 0
Cmd S A = S → Run S A

module _ {S A : Type 0} where
  abbrev pub pure : A → Cmd S A
  pure a s = ok a s

  -- `exit(status)`, as the error functions of the library call it.
  abbrev pub exits : ℕ → Cmd S A
  exits status s = exit status s

module _ {S A B : Type 0} where
  abbrev pub and_then : Run S A → (A → Cmd S B) → Run S B
  and_then (ok a s) k = k a s
  and_then (exit c s) k = exit c s
  and_then fault k = fault
  and_then out_of_fuel k = out_of_fuel

  infixl 5 ◌>>=◌ ◌>>◌
  abbrev pub ◌>>=◌ : Cmd S A → (A → Cmd S B) → Cmd S B
  m >>= k = λ s. and_then (m s) k

  abbrev pub ◌>>◌ : Cmd S A → Cmd S B → Cmd S B
  m >> n = m >>= λ _. n

abbrev pub exit_success : ℕ
exit_success = 0

abbrev pub exit_failure : ℕ
exit_failure = 1

-- INT_MAX
abbrev pub int_max : ℕ
int_max = 2 ^ 31 - 1

-- EINVAL
abbrev pub einval : ℕ
einval = 22
