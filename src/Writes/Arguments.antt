-- ===== src/Writes/Arguments.antt =====
-- The programs 5_3.c and 13.2.c with their arguments.
use Prim.Native.String.{String}
use text.Mathlib.Text.{◌==◌ as str_eq, starts_with}
use textbooks.Base.{
  ℕ, ◌⊎◌, ◌≡◌, ◌<◌, true, false, Option, none, some, List, [], ◌∷◌, ◌++◌, length, replicate,
}
use textbooks.Base.Int.{ℤ, pos}
use textbooks.Base.Ends
use textbooks.Base.Ends.{Ends, returned, succeeded}
use textbooks.Posix.{Posix, IsPosix, Reasons}
use textbooks.Writes.Mains.{append_count, append_args}
use textbooks.Writes.Append.{append_file-Appended}

-- The arguments of 5_3.c after the count: nothing, or a word.
abbrev pub mode_words : Option String → List String
mode_words none = []
mode_words (some mode) = mode ∷ []

-- There is no word but one that begins with x.
abbrev pub IsMode : Option String → Type 0
IsMode none = Unit
IsMode (some mode) = starts_with mode "x" ≡ true

-- `get_long` gives numbers that are not 0, as GN_GT_0 asks it, and `malloc` blocks of the size asked for; it
-- leaves the files alone.
pub record Gives (k : Posix) (law : IsPosix k) (get_long : String → Option ℕ)
    (malloc : ℕ → k.State → Option (List ℕ) × k.State) : Type 0 where
  pub positive : (arg : String) (n : ℕ) → get_long arg ≡ some n → 0 < n
  pub sized : (n : ℕ) (s : k.State) (buf : List ℕ) → (malloc n s).0 ≡ some buf → length buf ≡ n
  pub quiet : (n : ℕ) (s : k.State) → law.view (malloc n s).1 ≡ law.view s

-- One of the numbers is refused, or there is no block of the size that is asked for.
abbrev pub Refused :
    {S : Type 0}
    → (String → Option ℕ)
    → (ℕ → S → Option (List ℕ) × S)
    → String
    → String
    → S
    → Type 0
Refused get_long malloc arg2 arg3 s =
    (get_long arg2 ≡ none)
    ⊎ ((get_long arg3 ≡ none) ⊎ ((n : ℕ) × (get_long arg3 ≡ some n) × ((malloc n s).0 ≡ none)))

module _ (k : Posix) (law : IsPosix k) {F : Type 0} (blame : Reasons k law F) where
  -- With a file's name, a count that is not negative, and perhaps a word that begins with x, `append_args`
  -- ends: it returns, and so many bytes are behind those that the file had, or it exits with status 1, and
  -- then a call failed or a write fell short.
  pub append_args-Appended :
      (atoll : String → ℤ) (program filename nbytes : String) (mode : Option String) (n i : ℕ)
      (c : List ℕ) (s : k.State)
      → IsMode mode
      → atoll nbytes ≡ pos n
      → (law.view s).named filename ≡ some i
      → (law.view s).file i ≡ c
      → Ends F
          (λ _ s'. (law.view s').file i ≡ c ++ replicate n 49)
          (λ _. ⊥)
          (append_args k atoll (program ∷ (filename ∷ (nbytes ∷ mode_words mode))) s)
  unfolding append_args append_count
  append_args-Appended atoll program filename nbytes none n i c s is_mode number name bytes =
      rw number (append_file-Appended k law blame true filename n i c s name bytes)
  append_args-Appended atoll program filename nbytes (some mode) n i c s is_mode number name bytes =
      rw (is_mode, number) (append_file-Appended k law blame false filename n i c s name bytes)
