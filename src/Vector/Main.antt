-- ===== src/Vector/Main.antt =====
-- `createTempFile` and `main` of tlpi/c5/5_7.c. An int has four bytes, the lowest first.
use textbooks.Base.{
  ℕ, ◌+◌, ◌*◌, Option, none, some, List, [], ◌∷◌, set, Cmd, ok, pure, exits, exit_failure, ◌>>=◌,
  ◌>>◌,
}
use textbooks.Base.Int.{pos}
use textbooks.Base.Text.{up_to_null}
use textbooks.Posix.{Posix, call, seek_set}
use textbooks.Shared.Defs.{Descriptors}
use textbooks.Vector.Defs.{Iostrt, readv, write_to_file}

-- The int 1000, "abcde" with its null byte, and "hw" without it.
abbrev pub int_a : List ℕ
int_a = 232 ∷ (3 ∷ (0 ∷ (0 ∷ [])))

abbrev pub buf_arr : List ℕ
buf_arr = 97 ∷ (98 ∷ (99 ∷ (100 ∷ (101 ∷ (0 ∷ [])))))

abbrev pub buf_p : List ℕ
buf_p = 104 ∷ (119 ∷ [])

-- What `%d` prints of these bytes, where the int is not negative.
abbrev pub int_of : List ℕ → ℕ
int_of [] = 0
int_of (b ∷ bs) = b + 256 * int_of bs

-- What the three calls of `printf` print; `none` where no null byte ends the text.
pub record Printed : Type 0 where
  pub number : ℕ
  pub first_text : Option (List ℕ)
  pub second_text : Option (List ℕ)

-- The prints of the buffers that `readv` filled, behind `buf_p2[2] = 0` and `buf_arr2[5] = 0`.
abbrev pub print_buffers : List Iostrt → Option Printed
print_buffers (i1 ∷ (i2 ∷ (i3 ∷ []))) = some (record {
  number = int_of i1.iop;
  first_text = up_to_null (set i2.iop 5 0);
  second_text = up_to_null (set i3.iop 2 0);
})
print_buffers _ = none

module _ (k : Posix) (c : Descriptors k) where
  unfoldable pub create_temp_file : Cmd k.State ℕ
  create_temp_file = do
    source ← call (c.open_new "hellow")
    (λ s. ok tt (c.unlink "hellow" s))
    elim source [ none ↦ exits exit_failure | some fd ↦ pure fd ]

  -- `b`, `buf_arr2` and `buf_p2` are what the memory of these variables holds at first.
  unfoldable pub vector_main : List ℕ → List ℕ → List ℕ → Cmd k.State (Option Printed)
  vector_main b buf_arr2 buf_p2 = do
    source ← create_temp_file
    write_to_file k source int_a
    write_to_file k source buf_arr
    write_to_file k source buf_p
    sought ← call (k.lseek source (pos 0) seek_set)
    elim sought [
      | none ↦ exits exit_failure
      | some _ ↦ do
        r ← readv k source (
            record { nbytes = 4; iop = b }
            ∷ (record { nbytes = 6; iop = buf_arr2 } ∷ (record { nbytes = 3; iop = buf_p2 } ∷ [])))
        closed ← call (k.close source)
        pure (print_buffers r.1)
    ]
