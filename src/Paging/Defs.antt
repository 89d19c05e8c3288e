-- ===== src/Paging/Defs.antt =====
-- `main` of tlpi/c49/49.4.c and of tlpi/c49/49.3.c.
use Prim.Native.String.{String}
use textbooks.Base.{
  ℕ, ◌+◌, ◌*◌, none, some, List, [], ◌∷◌, Cmd, ok, fault, pure, exits, exit_failure, ◌>>=◌,
}
use textbooks.Posix.{call}
use textbooks.Paging.Memory.{Memory}

module _ (k : Memory) where
  -- `*(char*) a`
  abbrev pub byte_at : ℕ → Cmd k.State ℕ
  byte_at a s = elim (k.load a s) [ none ↦ fault | some b ↦ ok b s ]

  -- The three characters that a `printf` prints.
  unfoldable pub first_three : ℕ → Cmd k.State (List ℕ)
  first_three a = do
    x ← byte_at a
    y ← byte_at (a + 1)
    z ← byte_at (a + 2)
    pure (x ∷ (y ∷ (z ∷ [])))

  unfoldable pub print_pages : ℕ → ℕ → ℕ → Cmd k.State (List (List ℕ))
  print_pages page0 page1 page2 = do
    line0 ← first_three page0
    line1 ← first_three page1
    line2 ← first_three page2
    pure (line0 ∷ (line1 ∷ (line2 ∷ [])))

  -- 49.4.c from the first fixed mapping on.
  unfoldable pub map_pages : ℕ → ℕ → Cmd k.State (List (List ℕ))
  map_pages fd addr = do
    mapped0 ← call (k.map_fixed addr k.page_size fd (2 * k.page_size))
    elim mapped0 [
      | none ↦ exits exit_failure
      | some page0 ↦ do
        mapped1 ← call (k.map_fixed (addr + k.page_size) k.page_size fd k.page_size)
        elim mapped1 [
          | none ↦ exits exit_failure
          | some page1 ↦ do
            mapped2 ← call (k.map_fixed (addr + 2 * k.page_size) k.page_size fd 0)
            elim mapped2 [ none ↦ exits exit_failure | some page2 ↦ print_pages page0 page1 page2 ]
        ]
    ]

  -- 49.4.c; the value is what it prints of the pages.
  unfoldable pub pages_main : Cmd k.State (List (List ℕ))
  pages_main = do
    opened ← call (k.open_file "49.4.inp")
    elim opened [
      | none ↦ exits exit_failure
      | some fd ↦ do
        mapped ← call (k.map_anonymous (3 * k.page_size))
        elim mapped [ none ↦ exits exit_failure | some addr ↦ map_pages fd addr ]
    ]

  -- 49.3.c; the value is the byte that it prints.
  unfoldable pub larger_main : List String → Cmd k.State ℕ
  larger_main argv = elim argv [
    | argv0 ∷ (inp_file_name ∷ []) ↦ do
      opened ← call (k.open_file inp_file_name)
      elim opened [
        | none ↦ exits exit_failure
        | some src_fd ↦ do
          st_size ← call (k.fstat src_fd)
          elim st_size [
            | none ↦ exits exit_failure
            | some size ↦ do
              mapped ← call (k.map_file (2 * size) src_fd)
              elim mapped [ none ↦ exits exit_failure | some addr ↦ byte_at (addr + 40000) ]
          ]
      ]
    | _ ↦ exits exit_failure
  ]
