-- ===== src/Tee/Defs.antt =====
-- `tee_up` and `main` of tlpi/c4/tee.c. getopt, printf and fflush are parameters.
use Prim.Native.String.{String}
use textbooks.Base.{
  ℕ, zero, suc, Bool, true, false, not, Option, none, some, List, [], ◌∷◌, if◌then◌else◌, length,
  get_elem?, ltb, Cmd, ok, fault, pure, exits, exit_failure, out_of_fuel, ◌>>=◌, ◌>>◌,
}
use textbooks.Posix.{Posix, OpenFlags, call, on_fd}

-- What getopt returns before it returns -1: `a`, or '?'.
pub data Flag : Type 0 where
  append_flag unknown : Flag

-- printf of `append` and `filename`, and fflush, on the stream stdout.
pub record Console (k : Posix) : Type 0 where
  pub report : Bool → String → k.State → k.State
  pub flush : k.State → k.State

abbrev pub max_bytes : ℕ
max_bytes = 1000

abbrev pub stdin_fileno : ℕ
stdin_fileno = 0

abbrev pub stdout_fileno : ℕ
stdout_fileno = 1

-- O_WRONLY | O_CREAT, and O_APPEND where it is asked for.
abbrev pub tee_flags : Bool → OpenFlags
tee_flags append = record { create = true; truncate = false; append = append }

module _ (k : Posix) (io : Console k) where
  -- The condition of the loop and its body, with what `read` gave. `buffer[nbytes] = 0` is out of
  -- bounds where the buffer is full. `rest` is the next turn.
  unfoldable pub tee_turn :
      Cmd k.State (Unit {0}) → Option ℕ → Option (List ℕ) → Cmd k.State (Unit {0})
  tee_turn rest fd none = pure tt
  tee_turn rest fd (some bs) = do
    wbytes ← on_fd fd (λ f. k.write f bs)
    elim wbytes [
      | none ↦ exits exit_failure
      | some n ↦ if not (ltb (length bs) max_bytes) then (λ _. fault) else do
        wbytes ← call (k.write stdout_fileno bs)
        elim wbytes [ none ↦ exits exit_failure | some m ↦ do (λ s. ok tt (io.flush s)); rest ]
    ]

  -- `while ((nbytes = read(STDIN_FILENO, buffer, MAX_BYTES)) != -1)`
  unfoldable pub tee_loop : ℕ → Option ℕ → Cmd k.State (Unit {0})
  tee_loop zero fd = λ _. out_of_fuel
  tee_loop (suc fuel) fd = do
    nbytes ← call (k.read stdin_fileno max_bytes)
    tee_turn (tee_loop fuel fd) fd nbytes

  abbrev pub close_output : Option ℕ → Cmd k.State (Unit {0})
  close_output none = pure tt
  close_output (some fd) = do closed ← call (k.close fd); pure tt

  -- The result of `open` is not tested.
  unfoldable pub tee_up : ℕ → Bool → String → Cmd k.State (Unit {0})
  tee_up fuel append filename = do
    fd ← call (k.open_file filename (tee_flags append))
    tee_loop fuel fd
    close_output fd

  -- `main` behind its options: `optind` is the index of the first other argument.
  unfoldable pub tee_operand : ℕ → Bool → ℕ → List String → Cmd k.State (Unit {0})
  tee_operand fuel append optind argv = elim (get_elem? argv optind) [
    | none ↦ exits exit_failure
    | some filename ↦ do (λ s. ok tt (io.report append filename s)); tee_up fuel append filename
  ]

  -- The loop over the options.
  unfoldable pub tee_options : ℕ → Bool → List Flag → ℕ → List String → Cmd k.State (Unit {0})
  tee_options fuel append [] optind argv = tee_operand fuel append optind argv
  tee_options fuel append (append_flag ∷ flags) optind argv =
      tee_options fuel true flags optind argv
  tee_options fuel append (unknown ∷ flags) optind argv = exits exit_failure

  -- getopt gives the options of `argv`, and `optind`.
  unfoldable pub tee_main : (List String → List Flag × ℕ) → ℕ → List String → Cmd k.State (Unit {0})
  tee_main getopt fuel argv = tee_options fuel false (getopt argv).0 (getopt argv).1 argv
