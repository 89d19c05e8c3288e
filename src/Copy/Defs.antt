-- ===== src/Copy/Defs.antt =====
-- `main` of tlpi/c13/13.1.c and of tlpi/c4/ccp.c. The error functions of the library do not return:
-- they end the process with status 1, `exit_failure`.
use Prim.Native.String.{String}
use text.Mathlib.Text.{◌==◌ as str_eq}
use textbooks.Base.{
  ℕ, zero, suc, ◌==◌, Bool, true, false, not, Option, none, some, List, [], ◌∷◌, if◌then◌else◌,
  length, Cmd, pure, exits, out_of_fuel, exit_success, exit_failure, einval, ◌>>=◌, ◌>>◌,
}
use textbooks.Posix.{Posix, OpenFlags, call, on_fd}

abbrev pub read_only : OpenFlags
read_only = record { create = false; truncate = false; append = false }

-- O_CREAT | O_WRONLY | O_TRUNC
abbrev pub replace : OpenFlags
replace = record { create = true; truncate = true; append = false }

module _ (k : Posix) (buf_size : ℕ) where
  -- The body of the loop of 13.1.c, and its end: what `read` returned goes to `write`, which must
  -- write all of it.
  unfoldable pub copy_chunk : Cmd k.State (Unit {0}) → ℕ → Option (List ℕ) → Cmd k.State (Unit {0})
  copy_chunk rest output none = exits exit_failure
  copy_chunk rest output (some []) = pure tt
  copy_chunk rest output (some (b ∷ bs)) = do
    w ← call (k.write output (b ∷ bs))
    elim w [
      | none ↦ exits exit_failure
      | some n ↦ if n == length (b ∷ bs) then rest else exits exit_failure
    ]

  -- `while ((numRead = read(..)) > 0) if (write(..) != numRead) fatal(..)`, and the test of `numRead`.
  unfoldable pub copy_loop : ℕ → ℕ → ℕ → Cmd k.State (Unit {0})
  copy_loop zero input output = λ _. out_of_fuel
  copy_loop (suc fuel) input output = do
    r ← call (k.read input buf_size)
    copy_chunk (copy_loop fuel input output) output r

  -- The end of `main` of 13.1.c.
  unfoldable pub close_files : ℕ → ℕ → Cmd k.State (Unit {0})
  close_files input output = do
    closed ← call (k.close input)
    if not closed then exits exit_failure else do
      closed ← call (k.close output)
      if not closed then exits exit_failure else exits exit_success

  -- `main` of 13.1.c behind the opening of `argv[1]`.
  unfoldable pub copy_opened_source : ℕ → String → ℕ → Cmd k.State (Unit {0})
  copy_opened_source fuel new input = do
    o ← call (k.open_file new replace)
    elim o [
      | none ↦ exits exit_failure
      | some output ↦ do copy_loop fuel input output; close_files input output
    ]

  -- `main` of 13.1.c behind the test of its arguments.
  unfoldable pub copy_files : ℕ → String → String → Cmd k.State (Unit {0})
  copy_files fuel old new = do
    i ← call (k.open_file old read_only)
    elim i [ none ↦ exits exit_failure | some input ↦ copy_opened_source fuel new input ]

  -- `argc != 3 || strcmp(argv[1], "--help") == 0`
  unfoldable pub copy_main : ℕ → List String → Cmd k.State (Unit {0})
  copy_main fuel (name ∷ (old ∷ (new ∷ []))) =
      if str_eq old "--help" then exits exit_failure else copy_files fuel old new
  copy_main fuel _ = exits exit_failure

  -- The body of the loop of ccp.c, which asks only whether `write` failed.
  unfoldable pub ccp_chunk :
      Cmd k.State (Unit {0}) → Option ℕ → Option (List ℕ) → Cmd k.State (Unit {0})
  ccp_chunk rest dest none = exits exit_failure
  ccp_chunk rest dest (some []) = pure tt
  ccp_chunk rest dest (some (b ∷ bs)) = do
    w ← on_fd dest (λ fd. k.write fd (b ∷ bs))
    elim w [ none ↦ exits exit_failure | some n ↦ rest ]

  unfoldable pub ccp_loop : ℕ → ℕ → Option ℕ → Cmd k.State (Unit {0})
  ccp_loop zero source dest = λ _. out_of_fuel
  ccp_loop (suc fuel) source dest = do
    r ← call (k.read source buf_size)
    ccp_chunk (ccp_loop fuel source dest) dest r

  -- `fsync(dest_fd)` on a descriptor, and on -1, where it fails with EBADF.
  abbrev sync_dest : Option ℕ → Cmd k.State (Option ℕ)
  sync_dest none = pure (some 9)
  sync_dest (some fd) = call (k.fsync fd)

  abbrev close_dest : Option ℕ → Cmd k.State Bool
  close_dest none = pure false
  close_dest (some fd) = call (k.close fd)

  -- The end of `main` of ccp.c, behind the test of `fsync`.
  unfoldable pub ccp_close : ℕ → Option ℕ → Cmd k.State (Unit {0})
  ccp_close source_fd dest = do
    closed ← call (k.close source_fd)
    if not closed then exits exit_failure else do
      closed ← close_dest dest
      if not closed then (do again ← close_dest dest; pure tt) else pure tt

  -- The end of `main` of ccp.c, behind the loop.
  unfoldable pub ccp_finish : ℕ → Option ℕ → Cmd k.State (Unit {0})
  ccp_finish source_fd dest = do
    status ← sync_dest dest
    elim status [
      | none ↦ ccp_close source_fd dest
      | some errno ↦ if not (errno == einval) then exits exit_failure else ccp_close source_fd dest
    ]

  -- `main` of ccp.c behind the test of its arguments. The result of opening the destination is not
  -- tested.
  unfoldable pub ccp_files : ℕ → String → String → Cmd k.State (Unit {0})
  ccp_files fuel source destination = do
    i ← call (k.open_file source read_only)
    elim i [
      | none ↦ exits exit_failure
      | some source_fd ↦ do
        dest ← call (k.open_file destination replace)
        ccp_loop fuel source_fd dest
        ccp_finish source_fd dest
    ]

  unfoldable pub ccp_main : ℕ → List String → Cmd k.State (Unit {0})
  ccp_main fuel (name ∷ (source ∷ (destination ∷ []))) = ccp_files fuel source destination
  ccp_main fuel _ = exits exit_failure
