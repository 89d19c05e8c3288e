-- ===== src/Writes/Mains.antt =====
-- `main` of tlpi/c5/5_3.c and of tlpi/c13/13.2.c, from the reading of the arguments on.
use Prim.Native.String.{String}
use text.Mathlib.Text.{◌==◌ as str_eq, starts_with}
use textbooks.Base.{
  ℕ, ◌-◌, ◌^◌, Bool, true, false, Option, none, some, List, [], ◌∷◌, if◌then◌else◌, Cmd, fault,
  exits, exit_failure, ◌>>=◌, ◌>>◌,
}
use textbooks.Base.Int.{ℤ, pos, negsuc}
use textbooks.Posix.{Posix, call}
use textbooks.Writes.Defs.{append_flags, append_loop, append_file, write_bytes}

module _ (k : Posix) where
  -- A negative count goes on down to LLONG_MIN, and then the `long long` overflows.
  unfoldable pub append_down : Bool → String → ℕ → Cmd k.State (Unit {0})
  append_down atomic filename n = do
    fd ← call (k.open_file filename (append_flags atomic))
    append_loop k fd atomic (2 ^ 63 - 1 - n)
    (λ s. fault)

  unfoldable pub append_count : Bool → String → ℤ → Cmd k.State (Unit {0})
  append_count atomic filename (pos n) = append_file k atomic filename n
  append_count atomic filename (negsuc n) = append_down atomic filename n

  -- 5_3.c; `atoll` is that of the C library.
  unfoldable pub append_args : (String → ℤ) → List String → Cmd k.State (Unit {0})
  append_args atoll argv = elim argv [
    | argv0 ∷ (filename ∷ (nbytes ∷ [])) ↦ append_count true filename (atoll nbytes)
    | argv0 ∷ (filename ∷ (nbytes ∷ (mode ∷ []))) ↦
        if starts_with mode "x"
        then append_count false filename (atoll nbytes)
        else exits exit_failure
    | _ ↦ exits exit_failure
  ]

  -- 13.2.c: `get_long` is that of the library with GN_GT_0, where `none` stands for its exit; `malloc` gives
  -- the bytes of the new block.
  unfoldable pub write_bytes_args :
      (String → Option ℕ)
      → (ℕ → k.State → Option (List ℕ) × k.State)
      → ℕ
      → List String
      → Cmd k.State (Unit {0})
  write_bytes_args get_long malloc fuel argv = elim argv [
    | argv0 ∷ (file ∷ (arg2 ∷ (arg3 ∷ []))) ↦
        if str_eq file "--help" then exits exit_failure else elim (get_long arg2) [
          | none ↦ exits exit_failure
          | some num_bytes ↦ elim (get_long arg3) [
            | none ↦ exits exit_failure
            | some buf_size ↦ do
              block ← call (malloc buf_size)
              elim block [
                | none ↦ exits exit_failure
                | some buf ↦ write_bytes k fuel file num_bytes buf
              ]
          ]
        ]
    | _ ↦ exits exit_failure
  ]
