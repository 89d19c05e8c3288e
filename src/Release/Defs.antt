-- ===== src/Release/Defs.antt =====
-- `main` of tlpi/c7/7.1.c. The allocator is that of the C library.
use Prim.Native.String.{String}
use text.Mathlib.Text.{◌==◌ as str_eq}
use textbooks.Base.{
  ℕ, zero, suc, ◌+◌, ◌-◌, Option, none, some, List, [], ◌∷◌, ◌++◌, if◌then◌else◌, ltb, get_elem?,
  Cmd, ok, fault, pure, exits, exit_failure, exit_success, out_of_fuel, int_max, ◌>>=◌, ◌>>◌,
}
use textbooks.Posix.{call}

-- `report` prints the break, as sbrk(0) gives it.
pub record Heap : Type 1 where
  pub State : Type 0
  pub malloc : ℕ → State → Option ℕ × State
  pub free : ℕ → State → State
  pub report : State → State

abbrev pub max_allocs : ℕ
max_allocs = 1000000

module _ (k : Heap) where
  abbrev pub report_break : Cmd k.State (Unit {0})
  report_break s = ok tt (k.report s)

  -- The loop that allocates, with the elements of `ptr` so far.
  unfoldable pub allocate : ℕ → ℕ → List ℕ → Cmd k.State (List ℕ)
  allocate zero block_size ptr = pure ptr
  allocate (suc left) block_size ptr = do
    block ← call (k.malloc block_size)
    elim block [
      | none ↦ exits exit_failure
      | some p ↦ do report_break; allocate left block_size (ptr ++ (p ∷ []))
    ]

  -- The loop that frees, from `j` on. An element that was not set, and a `j` beyond INT_MAX, are
  -- undefined: a fault.
  unfoldable pub free_from : ℕ → List ℕ → ℕ → ℕ → ℕ → Cmd k.State (Unit {0})
  free_from zero ptr j free_max free_step s = out_of_fuel
  free_from (suc fuel) ptr j free_max free_step s =
      let rest = free_from fuel ptr (j + free_step) free_max free_step in
      if ltb j free_max
      then elim (get_elem? ptr j) [
        | none ↦ fault
        | some p ↦ if ltb int_max (j + free_step) then fault else rest (k.free p s)
      ]
      else ok tt s

  -- `main` behind its arguments.
  unfoldable pub allocate_and_free : ℕ → ℕ → ℕ → ℕ → ℕ → ℕ → Cmd k.State (Unit {0})
  allocate_and_free fuel num_allocs block_size free_step free_min free_max =
      if ltb num_allocs free_max then exits exit_failure else do
        report_break
        ptr ← allocate num_allocs block_size []
        report_break
        free_from fuel ptr (free_min - 1) free_max free_step
        report_break
        exits exit_success

  -- An argument, by getInt, which exits where it refuses it, or the number that stands for it.
  abbrev pub number_or : (String → Option ℕ) → Option String → ℕ → Cmd k.State ℕ
  number_or get_int none default = pure default
  number_or get_int (some text) default = elim (get_int text) [
    | none ↦ exits exit_failure
    | some n ↦ pure n
  ]

  -- `get_positive` is getInt with GN_GT_0, and `get_any_base` with GN_ANY_BASE too.
  unfoldable pub release_main :
      (String → Option ℕ) → (String → Option ℕ) → ℕ → List String → Cmd k.State (Unit {0})
  release_main get_positive get_any_base fuel argv = elim argv [
    | argv0 ∷ (num ∷ (size ∷ rest)) ↦ if str_eq num "--help" then exits exit_failure else do
      num_allocs ← number_or get_positive (some num) 0
      if ltb max_allocs num_allocs then exits exit_failure else do
        block_size ← number_or get_any_base (some size) 0
        free_step ← number_or get_positive (get_elem? rest 0) 1
        free_min ← number_or get_positive (get_elem? rest 1) 1
        free_max ← number_or get_positive (get_elem? rest 2) num_allocs
        allocate_and_free fuel num_allocs block_size free_step free_min free_max
    | _ ↦ exits exit_failure
  ]
