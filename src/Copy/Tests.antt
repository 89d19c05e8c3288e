-- ===== src/Copy/Tests.antt =====
-- The copy programs on a disk that holds one file.
use textbooks.Base.{ℕ, ◌≡◌, refl, false, List, [], ◌∷◌, arith, Run, exit, if◌then◌else◌, ◌==◌}
use textbooks.Base.Ends.{Ends}
use textbooks.Posix.Simple.{Disk, simple, simple-IsPosix, simple_reasons}
use textbooks.Copy.Defs.{
  copy_chunk, copy_loop, close_files, copy_opened_source, copy_files, copy_main,
}
use textbooks.Copy.Theorems.{IsCopied, copy_main-IsCopied}

-- A file "a" of three bytes.
abbrev disk : Disk
disk = record {
  count = 3;
  is_open = λ _. false;
  inode = λ _. 0;
  offset = λ _. 0;
  append = λ _. false;
  file = λ i. if i == 0 then 7 ∷ (0 ∷ (9 ∷ [])) else [];
  names = "a" ∷ [];
}

abbrev outcome : Run Disk (Unit {0}) → ℕ × List ℕ × List ℕ
outcome (exit c s) = (c, s.file 0, s.file 1)
outcome _ = (99, [], [])

-- Two bytes at a time, `copy_main` copies the file.
copied :
    outcome (copy_main simple 2 4 ("copy" ∷ ("a" ∷ ("b" ∷ []))) disk)
    ≡ (0, 7 ∷ (0 ∷ (9 ∷ [])), 7 ∷ (0 ∷ (9 ∷ [])))
unfolding copy_chunk copy_loop close_files copy_opened_source copy_files copy_main
copied = refl

copy_main-IsCopied_example :
    Ends ⊥
      (λ _ _. ⊥)
      (IsCopied simple simple-IsPosix "a" "b" (7 ∷ (0 ∷ (9 ∷ []))))
      (copy_main simple 2 4 ("copy" ∷ ("a" ∷ ("b" ∷ []))) disk)
unfolding simple-IsPosix
copy_main-IsCopied_example =
    copy_main-IsCopied simple simple-IsPosix simple_reasons 2 (omega arith) 4 "copy" "a" "b" 0
      (7 ∷ (0 ∷ (9 ∷ []))) disk refl refl refl (λ e. cc) (omega arith)
