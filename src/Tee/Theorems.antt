-- ===== src/Tee/Theorems.antt =====
-- A run of tee.c, from its arguments on.
use Prim.Native.String.{String}
use textbooks.Base.{
  ℕ, ◌+◌, ◌≡◌, ◌≢◌, ◌≤◌, ◌⊎◌, ap, ◌∙◌, inl, inr, true, false, Bool, Option, none, some, List, [],
  ◌∷◌, get_elem?, arith, length, min, Run, out_of_fuel, and_then, Option-cases,
}
use textbooks.Posix.{Posix, Blames}
use textbooks.Tee.Defs.{
  Flag, append_flag, unknown, Console, max_bytes, stdin_fileno, stdout_fileno, tee_flags, tee_loop,
  close_output, tee_up, tee_operand, tee_options, tee_main,
}
use textbooks.Tee.Turns.{IsStreams, Teed, turns-Teed}

-- Whether the options ask for -a, where there is no other one.
abbrev pub append_from : Bool → List Flag → Option Bool
append_from append [] = some append
append_from append (append_flag ∷ flags) = append_from true flags
append_from append (unknown ∷ flags) = none

module _ (k : Posix) (io : Console k) (law : IsStreams k io) {F : Type 0} (blame : Blames k F)
    (filling : (s : k.State) (bs : List ℕ)
      → (k.read stdin_fileno max_bytes s).0 ≡ some bs
      → max_bytes ≤ length bs
      → F)
    (reports : (append : Bool) (filename : String) (s : k.State)
      → law.incoming (io.report append filename s) ≡ law.incoming s)
    (opens : (filename : String) (append : Bool) (s : k.State)
      → law.incoming (k.open_file filename (tee_flags append) s).1 ≡ law.incoming s)
    (free : (filename : String) (append : Bool) (fd : ℕ) (s : k.State)
      → (k.open_file filename (tee_flags append) s).0 ≡ some fd
      → fd ≢ stdout_fileno)
    (filename : String) (optind : ℕ) (argv : List String)
    (operand : get_elem? argv optind ≡ some filename) where
  -- After `turns` turns of the loop of a run from `s`, which has opened the file by then in state `s0`.
  abbrev pub Running : ℕ → Bool → k.State → (ℕ → Run k.State (Unit {0})) → Type 0
  Running turns append s run =
      let s0 = (k.open_file filename (tee_flags append) (io.report append filename s)).1 in
      (fd : ℕ) × (n : ℕ) × (s' : k.State) × ((k.open_file filename (tee_flags append)
          (io.report append filename s)).0
        ≡ some fd)
      × (n ≤ length (law.incoming s))
      × (min turns (length (law.incoming s)) ≤ n)
      × Teed k io law fd n s0 s'
      × ((fuel : ℕ)
          → run (turns + fuel)
            ≡ and_then (tee_loop k io fuel (some fd) s') (λ _. close_output k io (some fd)))

  tee_operand-Running :
      (turns : ℕ) (append : Bool) (s : k.State)
      → F ⊎ Running turns append s (λ fuel. tee_operand k io fuel append optind argv s)
  unfolding tee_operand tee_up
  tee_operand-Running turns append s =
      let s1 = io.report append filename s in
      let s0 = (k.open_file filename (tee_flags append) s1).1 in
      let same : law.incoming s0 ≡ law.incoming s =
        opens filename append s1 ∙ reports append filename s in
      elim (Option-cases (k.open_file filename (tee_flags append) s1).0) [
        | inl e ↦ inl (blame.opening filename (tee_flags append) s1 e)
        | inr (fd, e) ↦
            elim (turns-Teed k io law blame filling fd (free filename append fd s1 e) turns s0) [
              | inl f ↦ inl f
              | inr (n, s', le, least, teed, steps) ↦
                  let size = ap (λ (l : List ℕ). length l) same in
                  inr (
                    fd,
                    n,
                    s',
                    e,
                    omega (arith, size),
                    omega (arith, size),
                    teed,
                    λ fuel.
                        rw (tee_operand, operand, tee_up, e)
                          (ap (λ r. and_then r (λ _. close_output k io (some fd))) (steps fuel)),
                  )
            ]
      ]

  tee_options-Running :
      (flags : List Flag) (append from : Bool) (turns : ℕ) (s : k.State)
      → append_from from flags ≡ some append
      → F ⊎ Running turns append s (λ fuel. tee_options k io fuel from flags optind argv s)
  unfolding tee_options
  tee_options-Running [] append from turns s e =
      let same : from ≡ append = cc in rw same (tee_operand-Running turns append s)
  tee_options-Running (append_flag ∷ flags) append from turns s e =
      tee_options-Running flags append true turns s e
  tee_options-Running (unknown ∷ flags) append from turns s e = cc

  never_ends :
      (turns : ℕ) (run : ℕ → Run k.State (Unit {0})) (append : Bool) (s : k.State)
      → Running turns append s run
      → run turns ≡ out_of_fuel
  unfolding tee_loop
  never_ends turns run append s (fd, n, s', e, le, least, teed, steps) =
      ap run (omega arith) ∙ steps 0

  -- With opening and printing that leave the standard input alone, and `open` not giving descriptor 1:
  -- a call fails, a write falls short, a read fills the buffer, or `tee_main` with a file name does not
  -- end: after any number of turns its loop is in the next one. Then at least a byte for each turn, or
  -- all that the standard input gives before its end, went in order to the file and to the standard
  -- output.
  pub tee_main-Running :
      (getopt : List String → List Flag × ℕ) (flags : List Flag) (append : Bool) (turns : ℕ)
      (s : k.State)
      → getopt argv ≡ (flags, optind)
      → append_from false flags ≡ some append
      → F
        ⊎ (Running turns append s (λ fuel. tee_main k io getopt fuel argv s)
            × (tee_main k io getopt turns argv s ≡ out_of_fuel))
  unfolding tee_main
  tee_main-Running getopt flags append turns s parsed asked =
      rw parsed (elim (tee_options-Running flags append false turns s asked) [
        | inl f ↦ inl f
        | inr running ↦ inr (
          running,
          never_ends turns (λ fuel. tee_options k io fuel false flags optind argv s) append s
              running,
        )
      ])
