-- ===== src/Seek/Defs.antt =====
-- `main` of tlpi/c5/5_1.c, and `createFile` and `main` of tlpi/c5/5_2.c.
use Prim.Native.String.{String}
use text.Mathlib.Text.{◌==◌ as str_eq}
use textbooks.Base.{
  ℕ, true, false, ◌==◌, none, some, List, [], ◌∷◌, if◌then◌else◌, Cmd, pure, exits, exit_failure,
  exit_success, ◌>>=◌, ◌>>◌,
}
use textbooks.Base.Int.{ℤ, pos}
use textbooks.Posix.{Posix, OpenFlags, seek_set, call}

-- O_CREAT
abbrev pub or_create : OpenFlags
or_create = record { create = true; truncate = false; append = false }

-- O_APPEND
abbrev pub at_end : OpenFlags
at_end = record { create = false; truncate = false; append = true }

-- "test", "djfdf" and "ee"
abbrev pub test_bytes : List ℕ
test_bytes = 116 ∷ (101 ∷ (115 ∷ (116 ∷ [])))

abbrev pub first_bytes : List ℕ
first_bytes = 100 ∷ (106 ∷ (102 ∷ (100 ∷ (102 ∷ []))))

abbrev pub second_bytes : List ℕ
second_bytes = 101 ∷ (101 ∷ [])

module _ (k : Posix) where
  -- 5_1.c behind `open`.
  unfoldable pub seek_and_write : ℕ → ℤ → Cmd k.State (Unit {0})
  seek_and_write fd off = do
    sought ← call (k.lseek fd off seek_set)
    elim sought [
      | none ↦ exits exit_failure
      | some _ ↦ do
        written ← call (k.write fd test_bytes)
        elim written [ none ↦ exits exit_failure | some n ↦ exits exit_success ]
    ]

  -- 5_1.c; `atoll` is that of the C library.
  unfoldable pub offset_main : (String → ℤ) → List String → Cmd k.State (Unit {0})
  offset_main atoll argv = elim argv [
    | argv0 ∷ (pathname ∷ (offset ∷ [])) ↦
        if str_eq pathname "--help" then exits exit_failure else do
          opened ← call (k.open_file pathname or_create)
          elim opened [ none ↦ exits exit_failure | some fd ↦ seek_and_write fd (atoll offset) ]
    | _ ↦ exits exit_failure
  ]

  -- `if (write(..) != size) errExit(..); close(fd);`
  unfoldable pub write_and_close : ℕ → ℕ → List ℕ → Cmd k.State (Unit {0})
  write_and_close fd size bytes = do
    written ← call (k.write fd bytes)
    elim written [
      | none ↦ exits exit_failure
      | some n ↦ if n == size then (do closed ← call (k.close fd); pure tt) else exits exit_failure
    ]

  -- createFile
  unfoldable pub create_file : Cmd k.State (Unit {0})
  create_file = do
    opened ← call (k.open_file "tmp.out" or_create)
    elim opened [ none ↦ exits exit_failure | some expf ↦ write_and_close expf 5 first_bytes ]

  -- `main` of 5_2.c behind `createFile`. The result of `open` is not tested, but `lseek` fails on -1.
  unfoldable pub append_second : Cmd k.State (Unit {0})
  append_second = do
    opened ← call (k.open_file "tmp.out" at_end)
    elim opened [
      | none ↦ exits exit_failure
      | some expf ↦ do
        nseek ← call (k.lseek expf (pos 0) seek_set)
        elim nseek [ none ↦ exits exit_failure | some _ ↦ write_and_close expf 2 second_bytes ]
    ]

  unfoldable pub append_main : Cmd k.State (Unit {0})
  append_main = do create_file; append_second
