-- ===== src/Sparse/Tests.antt =====
-- The sparse copy on a disk that holds one file.
use textbooks.Base.{ℕ, ◌≡◌, refl, false, List, [], ◌∷◌, arith, ok, Run, if◌then◌else◌, ◌==◌, ◌⊎◌}
use textbooks.Base.Ends.{Ends}
use textbooks.Posix.Simple.{Disk, disk_view, simple, simple-IsPosix, simple_reasons}
use textbooks.Sparse.Defs.{write_segments, sparse_chunk, sparse_loop, sparse_files, sparse_main}
use textbooks.Sparse.Theorems.{IsSparse, sparse_main-IsSparse}

-- A null byte stands inside of the file, and one at its end.
abbrev holes : Disk
holes = record {
  count = 3;
  is_open = λ _. false;
  inode = λ _. 0;
  offset = λ _. 0;
  append = λ _. false;
  file = λ i. if i == 0 then 7 ∷ (0 ∷ (9 ∷ (0 ∷ []))) else [];
  names = "a" ∷ [];
}

abbrev target : Run Disk (Unit {0}) → List ℕ
target (ok _ s) = s.file 1
target _ = []

-- The null byte at the end is lost.
target-holes : target (sparse_main simple 5 ("cp" ∷ ("a" ∷ ("b" ∷ []))) holes) ≡ 7 ∷ (0 ∷ (9 ∷ []))
unfolding write_segments sparse_chunk sparse_loop sparse_files sparse_main
target-holes = refl

sparse_main-IsSparse_example :
    Ends ⊥
      (λ _ s'. IsSparse (disk_view s') "b" (7 ∷ (0 ∷ (9 ∷ (0 ∷ [])))) ⊎ ⊥)
      (λ _. ⊥)
      (sparse_main simple 5 ("cp" ∷ ("a" ∷ ("b" ∷ []))) holes)
unfolding simple-IsPosix
sparse_main-IsSparse_example =
    sparse_main-IsSparse simple simple-IsPosix simple_reasons 5 "cp" "a" "b" 0
      (7 ∷ (0 ∷ (9 ∷ (0 ∷ [])))) holes refl refl (λ e. cc) (λ j e. cc) (omega arith)
