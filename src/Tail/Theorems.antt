-- ===== src/Tail/Theorems.antt =====
-- What a run of 13.5.c prints, from its arguments on.
use Prim.Native.String.{String}
use textbooks.Base.{
  ℕ, ◌≡◌, ◌≢◌, ◌<◌, ◌⊎◌, Option, none, some, List, [], ◌∷◌, ◌++◌, length, drop, get_elem?, Run,
}
use textbooks.Base.Int.{ℤ}
use textbooks.Base.Returns
use textbooks.Base.Returns.{Returns}
use textbooks.Base.Ends
use textbooks.Base.Ends.{Ends}
use textbooks.Posix.{Posix, IsPosix, Reasons}
use textbooks.Tail.Defs.{Opt, lines_of, other, Stdio}
use textbooks.Posix.{WholeReads}
use textbooks.Tail.Stdio.{IsStdio, Disturbs}
use textbooks.Tail.Places.{TailAt}

-- The number of lines that the options ask for.
abbrev pub lines_from : (String → ℤ) → ℤ → List Opt → Option ℤ
lines_from atoi lines [] = some lines
lines_from atoi lines (lines_of optarg ∷ opts) = lines_from atoi (atoi optarg) opts
lines_from atoi lines (other ∷ opts) = none

module _ (k : Posix) (law : IsPosix k) (io : Stdio k) (std : IsStdio k law io)
    (whole : WholeReads k law) {F : Type 0} (blame : Reasons k law F)
    (disturbs : Disturbs k law io std F)
    (opens : (fd : ℕ) (s : k.State) → (io.fdopen fd s).0 ≢ none) where
  -- What was printed since `s` is the part of `c` with the last `n` newlines.
  abbrev Printed : ℕ → List ℕ → k.State → k.State → Type 0
  Printed n c s s' = (o : ℕ) × TailAt n c o × (std.out s' ≡ std.out s ++ drop o c)

  module _ (filename : String) (i : ℕ) (c : List ℕ) (s : k.State)
      (source : (law.view s).named filename ≡ some i) (bytes : (law.view s).file i ≡ c)
      (fuel optind : ℕ) (argv : List String) (operand : get_elem? argv optind ≡ some filename)
      (enough : length c < fuel) where
    abbrev Done : ℕ → Run k.State (Unit {0}) → Type 0
    Done n = Ends F (λ _ s'. (0 < n) × (Printed n c s s' ⊎ F)) (λ s'. (n ≡ 0) × (s' ≡ s))
