-- ===== src/Mapping/Defs.antt =====
-- `main` of tlpi/c49/49.1.c. The calls on mappings are parameters.
use Prim.Native.String.{String}
use textbooks.Base.{
  ℕ, Bool, true, false, not, Option, none, some, List, [], ◌∷◌, if◌then◌else◌, Cmd, pure, exits,
  exit_failure, ◌>>=◌, ◌>>◌,
}
use textbooks.Posix.{Posix, OpenFlags, call}
use textbooks.Copy.{read_only}

-- `mmap fd n shared` maps `n` bytes of the file from its beginning; `none` stands for MAP_FAILED.
-- `memcpy` goes to the first address from the second.
pub record Maps (k : Posix) : Type 0 where
  pub fstat : ℕ → k.State → Option ℕ × k.State
  pub ftruncate : ℕ → ℕ → k.State → Bool × k.State
  pub mmap : ℕ → ℕ → Bool → k.State → Option ℕ × k.State
  pub munmap : ℕ → ℕ → k.State → Bool × k.State
  pub memcpy : ℕ → ℕ → ℕ → Cmd k.State (Unit {0})

-- O_RDWR | O_CREAT
abbrev pub create_or_open : OpenFlags
create_or_open = record { create = true; truncate = false; append = false }

module _ (k : Posix) (m : Maps k) where
  -- From `memcpy` on.
  unfoldable pub copy_mapped : ℕ → ℕ → ℕ → Cmd k.State (Unit {0})
  copy_mapped outmap_addr inpmap_addr size = do
    m.memcpy outmap_addr inpmap_addr size
    unmapped ← call (m.munmap inpmap_addr size)
    if not unmapped then exits exit_failure else do
      unmapped ← call (m.munmap outmap_addr size)
      if unmapped then pure tt else exits exit_failure

  -- From `ftruncate` on, with the output open.
  unfoldable pub map_output : ℕ → ℕ → ℕ → Cmd k.State (Unit {0})
  map_output out_fd inpmap_addr size = do
    cut ← call (m.ftruncate out_fd size)
    if not cut then exits exit_failure else do
      mapped ← call (m.mmap out_fd size true)
      elim mapped [
        | none ↦ exits exit_failure
        | some outmap_addr ↦ do
          closed ← call (k.close out_fd)
          if not closed then exits exit_failure else copy_mapped outmap_addr inpmap_addr size
      ]

  -- From the opening of the output on. Its result is not tested, but `ftruncate` fails on -1.
  unfoldable pub open_output : String → ℕ → ℕ → Cmd k.State (Unit {0})
  open_output out_file inpmap_addr size = do
    opened ← call (k.open_file out_file create_or_open)
    elim opened [ none ↦ exits exit_failure | some out_fd ↦ map_output out_fd inpmap_addr size ]

  -- From `fstat` on, with the input open.
  unfoldable pub map_input : ℕ → String → Cmd k.State (Unit {0})
  map_input inp_fd out_file = do
    st_size ← call (m.fstat inp_fd)
    elim st_size [
      | none ↦ exits exit_failure
      | some size ↦ do
        mapped ← call (m.mmap inp_fd size false)
        elim mapped [
          | none ↦ exits exit_failure
          | some inpmap_addr ↦ do
            closed ← call (k.close inp_fd)
            if not closed then exits exit_failure else open_output out_file inpmap_addr size
        ]
    ]

  unfoldable pub map_files : String → String → Cmd k.State (Unit {0})
  map_files inp_file out_file = do
    opened ← call (k.open_file inp_file read_only)
    elim opened [ none ↦ exits exit_failure | some inp_fd ↦ map_input inp_fd out_file ]

  unfoldable pub map_main : List String → Cmd k.State (Unit {0})
  map_main argv = elim argv [
    | program ∷ (inp_file ∷ (out_file ∷ [])) ↦ map_files inp_file out_file
    | _ ↦ exits exit_failure
  ]
