-- ===== src/Writes/Tests.antt =====
-- The programs on a disk that holds one file.
use Prim.Native.String.{String}
use textbooks.Base.{
  ℕ, ◌≡◌, refl, false, Option, some, List, ◌++◌, [], ◌∷◌, if◌then◌else◌, ◌==◌, exit, replicate,
}
use textbooks.Base.Int.{pos}
use textbooks.Base.Ends.{Ends}
use textbooks.Posix.Simple.{Disk, simple, simple-IsPosix, simple_reasons}
use textbooks.Writes.Mains.{append_args}
use textbooks.Writes.Arguments.{append_args-Appended}

abbrev old_file : Disk
old_file = record {
  count = 3;
  is_open = λ _. false;
  inode = λ _. 0;
  offset = λ _. 0;
  append = λ _. false;
  file = λ i. if i == 0 then 7 ∷ (0 ∷ (9 ∷ [])) else [];
  names = "a" ∷ [];
}

append_args-Appended_example :
    Ends ⊥
      (λ _ s'. s'.file 0 ≡ (7 ∷ (0 ∷ (9 ∷ []))) ++ (49 ∷ (49 ∷ [])))
      (λ _. ⊥)
      (append_args simple (λ _. pos 2) ("5_3" ∷ ("a" ∷ ("2" ∷ ("x" ∷ [])))) old_file)
unfolding simple-IsPosix
append_args-Appended_example =
    append_args-Appended simple simple-IsPosix simple_reasons (λ _. pos 2) "5_3" "a" "2" (some "x")
      2 0 (7 ∷ (0 ∷ (9 ∷ []))) old_file refl refl refl refl

-- Another word is refused, and nothing is written.
another_word :
    append_args simple (λ _. pos 2) ("5_3" ∷ ("a" ∷ ("2" ∷ ("y" ∷ [])))) old_file ≡ exit 1 old_file
unfolding append_args
another_word = refl

abbrev ones : ℕ → Disk → Option (List ℕ) × Disk
ones n s = (some (replicate n 1), s)

abbrev two : String → Option ℕ
two arg = some 2
