-- ===== src/Squares/Defs.antt =====
-- `square`, `doCalc` and `main` of tlpi/c6/6.1.c. The state of a run is what was printed.
use textbooks.Base.{
  ℕ, zero, suc, ◌*◌, ◌^◌, Bool, ltb, List, [], ◌∷◌, ◌++◌, if◌then◌else◌, Cmd, ok, fault, pure,
  exits, exit_success, ◌>>=◌, ◌>>◌,
}
use textbooks.Base.Int.{ℤ, pos, negsuc, ltb_ℤ}

-- -n
abbrev pub minus : ℕ → ℤ
minus zero = pos 0
minus (suc n) = negsuc n

infixl 60 ◌*ℤ◌
abbrev pub ◌*ℤ◌ : ℤ → ℤ → ℤ
pos a *ℤ pos b = pos (a * b)
pos a *ℤ negsuc b = minus (a * suc b)
negsuc a *ℤ pos b = minus (suc a * b)
negsuc a *ℤ negsuc b = pos (suc a * suc b)

-- From INT_MIN to INT_MAX.
abbrev pub is_int : ℤ → Bool
is_int (pos n) = ltb n (2 ^ 31)
is_int (negsuc n) = ltb n (2 ^ 31)

pub data Line : Type 0 where
  the_square : ℤ → ℤ → Line
  the_cube : ℤ → ℤ → Line

-- The product of two ints; where it is none, the behaviour is undefined.
abbrev pub int_mul : ℤ → ℤ → Cmd (List Line) ℤ
int_mul x y = if is_int (x *ℤ y) then pure (x *ℤ y) else (λ out. fault)

abbrev pub say : Line → Cmd (List Line) (Unit {0})
say line out = ok tt (out ++ (line ∷ []))

unfoldable pub square : ℤ → Cmd (List Line) ℤ
square x = int_mul x x

-- The part of `doCalc` for a value below 1000.
unfoldable pub cube : ℤ → Cmd (List Line) (Unit {0})
cube val = do val2 ← int_mul val val; t ← int_mul val2 val; say (the_cube val t)

unfoldable pub do_calc : ℤ → Cmd (List Line) (Unit {0})
do_calc val = do
  squared ← square val
  say (the_square val squared)
  if ltb_ℤ val (pos 1000) then cube val else pure tt

-- The block that `malloc` gives is not used.
unfoldable pub main : Cmd (List Line) (Unit {0})
main = do do_calc (pos 9973); exits exit_success
