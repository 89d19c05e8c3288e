-- ===== src/Signals/Pause.antt =====
-- `handler` and `main` of tlpi/c20/20.2.c.
use textbooks.Base.{ℕ, zero, suc, ◌-◌, ◌==◌, List, [], ◌∷◌, ◌++◌, if◌then◌else◌}
use textbooks.Signals.Defs.{nsig}

pub data Disposition : Type 0 where
  by_default : Disposition
  ignored : Disposition
  handled : Disposition

-- `arrivals` gives the signals for which the kernel calls the handler before the process goes on, and
-- `pause` those for which it does before the call returns.
pub record Pauses : Type 1 where
  pub State : Type 0
  pub arrivals : State → List ℕ × State
  pub sigaction : ℕ → Disposition → State → State
  pub pause : State → List ℕ × State

-- What is printed.
pub data Line : Type 0 where
  pid_is : Line
  pausing : Line
  after_that : Line
  wont_be_detected : Line
  the_signal : ℕ → Line

-- SIGUSR1
abbrev pub sigusr1 : ℕ
sigusr1 = 10

-- What `handler` prints for signals.
abbrev pub shown : List ℕ → List Line
shown [] = []
shown (sig ∷ sigs) = the_signal sig ∷ shown sigs

module _ (k : Pauses) where
  pub record Program : Type 0 where
    pub kernel : k.State
    pub output : List Line

  abbrev pub handle : List ℕ × k.State → Program → Program
  handle (sigs, s) p = record { kernel = s; output = p.output ++ shown sigs }

  -- Signals arrive between two actions of the program.
  unfoldable pub settle : Program → Program
  settle p = handle (k.arrivals p.kernel) p

  unfoldable pub pauses : Program → Program
  pauses p = let q = settle p in handle (k.pause q.kernel) q

  unfoldable pub print_line : Line → Program → Program
  print_line line p =
      let q = settle p in record { kernel = q.kernel; output = q.output ++ (line ∷ []) }

  unfoldable pub act : ℕ → Disposition → Program → Program
  act sig d p =
      let q = settle p in record { kernel = k.sigaction sig d q.kernel; output = q.output }

  -- `for (i = 1; i < NSIG; i++)`, from `i` on.
  unfoldable pub handle_each : ℕ → ℕ → Program → Program
  handle_each zero i p = p
  handle_each (suc left) i p = handle_each left (suc i) (act i handled p)

  -- `while (--i) pause()`, for an `i` that is not 0.
  unfoldable pub pause_while : ℕ → Program → Program
  pause_while zero p = p
  pause_while (suc i) p = let rest = pause_while i (pauses p) in if i == 0 then p else rest

  -- `while (true) pause()`, for a number of rounds.
  unfoldable pub pause_on : ℕ → Program → Program
  pause_on zero p = p
  pause_on (suc rounds) p = pause_on rounds (pauses p)

  -- `main` up to the first loop of pauses.
  unfoldable pub prepare : k.State → Program
  prepare s = print_line after_that (
      print_line pausing
        (print_line pid_is (handle_each (nsig - 1) 1 (record { kernel = s; output = [] }))))

  -- `main`, after so many rounds of its endless loop.
  unfoldable pub ignore_main : ℕ → k.State → Program
  ignore_main rounds s =
      pause_on rounds
        (print_line wont_be_detected (act sigusr1 ignored (pause_while 3 (prepare s))))
