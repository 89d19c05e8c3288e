-- ===== src/Writes/Defs.antt =====
-- `main` of tlpi/c5/5_3.c behind the reading of its arguments, and of tlpi/c13/13.2.c behind that of
-- the numbers.
use Prim.Native.String.{String}
use textbooks.Base.{
  ℕ, zero, suc, ◌+◌, ◌-◌, Bool, true, false, not, Option, none, some, List, [], ◌∷◌, ltb, ◌==◌, min,
  take, length, if◌then◌else◌, Cmd, pure, exits, exit_failure, exit_success, out_of_fuel, ◌>>=◌,
  ◌>>◌,
}
use textbooks.Base.Int.{pos}
use textbooks.Posix.{Posix, OpenFlags, seek_end, call, on_fd}

-- O_WRONLY | O_CREAT, with O_APPEND where the writes are to be atomic.
abbrev pub append_flags : Bool → OpenFlags
append_flags atomic = record { create = true; truncate = false; append = atomic }

-- O_CREAT | O_WRONLY
abbrev pub create_only : OpenFlags
create_only = record { create = true; truncate = false; append = false }

-- "1"
abbrev pub one : List ℕ
one = 49 ∷ []

module _ (k : Posix) where
  -- What follows a write of `n` bytes that must be whole.
  abbrev pub expect : ℕ → Cmd k.State (Unit {0}) → Option ℕ → Cmd k.State (Unit {0})
  expect n rest none = exits exit_failure
  expect n rest (some m) = if m == n then rest else exits exit_failure

  -- `while (nbytes--)`
  unfoldable pub append_loop : Option ℕ → Bool → ℕ → Cmd k.State (Unit {0})
  append_loop fd atomic zero = pure tt
  append_loop fd atomic (suc nbytes) = do
    moved ← (if atomic then pure (some 0) else on_fd fd (λ f. k.lseek f (pos 0) seek_end))
    elim moved [
      | none ↦ exits exit_failure
      | some _ ↦ do
        wbytes ← on_fd fd (λ f. k.write f one)
        expect 1 (append_loop fd atomic nbytes) wbytes
    ]

  -- The result of `open` is not tested.
  unfoldable pub append_file : Bool → String → ℕ → Cmd k.State (Unit {0})
  append_file atomic filename nbytes = do
    fd ← call (k.open_file filename (append_flags atomic))
    append_loop fd atomic nbytes
    elim fd [ none ↦ pure tt | some f ↦ do closed ← call (k.close f); pure tt ]

  -- The loop of 13.2.c; `buf` is what `malloc` gave.
  unfoldable pub write_loop : ℕ → ℕ → List ℕ → ℕ → ℕ → Cmd k.State (Unit {0})
  write_loop zero fd buf num_bytes tot_written = λ _. out_of_fuel
  write_loop (suc fuel) fd buf num_bytes tot_written =
      if ltb tot_written num_bytes
      then (do
        let this_write = min (length buf) (num_bytes - tot_written)
        w ← call (k.write fd (take this_write buf))
        expect this_write (write_loop fuel fd buf num_bytes (tot_written + this_write)) w)
      else pure tt

  -- `main` of 13.2.c behind the allocation of `buf`.
  unfoldable pub write_bytes : ℕ → String → ℕ → List ℕ → Cmd k.State (Unit {0})
  write_bytes fuel file num_bytes buf = do
    r ← call (k.open_file file create_only)
    elim r [
      | none ↦ exits exit_failure
      | some fd ↦ do
        write_loop fuel fd buf num_bytes 0
        closed ← call (k.close fd)
        if not closed then exits exit_failure else exits exit_success
    ]
