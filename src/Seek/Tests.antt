-- ===== src/Seek/Tests.antt =====
-- 5_1.c and 5_2.c on a disk with one file.
use textbooks.Base.{ℕ, ◌≡◌, refl, false, List, [], ◌∷◌, ◌++◌, if◌then◌else◌, ◌==◌, Run, exit, ok}
use textbooks.Base.Int.{pos, negsuc}
use textbooks.Base.Ends.{Ends}
use textbooks.Posix.{splice}
use textbooks.Posix.Simple.{Disk, simple, simple-IsPosix, simple_reasons}
use textbooks.Seek.Defs.{
  test_bytes, first_bytes, second_bytes, seek_and_write, offset_main, write_and_close, create_file,
  append_second, append_main,
}
use textbooks.Seek.Theorems.{append_main-appended}

abbrev disk : Disk
disk = record {
  count = 3;
  is_open = λ _. false;
  inode = λ _. 0;
  offset = λ _. 0;
  append = λ _. false;
  file = λ i. if i == 0 then 7 ∷ (8 ∷ (9 ∷ [])) else [];
  names = "tmp.out" ∷ [];
}

abbrev content : Run Disk (Unit {0}) → ℕ × List ℕ
content (ok a s) = (7, s.file 0)
content (exit c s) = (c, s.file 0)
content _ = (9, [])

-- Behind the end there is a gap.
gap :
    content (offset_main simple (λ _. pos 4) ("5_1" ∷ ("tmp.out" ∷ ("4" ∷ []))) disk)
    ≡ (0, 7 ∷ (8 ∷ (9 ∷ (0 ∷ test_bytes))))
unfolding seek_and_write offset_main
gap = refl

negative :
    content (offset_main simple (λ _. negsuc 0) ("5_1" ∷ ("tmp.out" ∷ ("-1" ∷ []))) disk)
    ≡ (1, disk.file 0)
unfolding seek_and_write offset_main
negative = refl

appended : content (append_main simple disk) ≡ (7, first_bytes ++ second_bytes)
unfolding write_and_close create_file append_second append_main
appended = refl

append_main-appended_example :
    Ends ⊥
      (λ _ s'. s'.file 0 ≡ splice (7 ∷ (8 ∷ (9 ∷ []))) 0 first_bytes ++ second_bytes)
      (λ _. ⊥)
      (append_main simple disk)
unfolding simple-IsPosix
append_main-appended_example =
    append_main-appended simple simple-IsPosix simple_reasons 0 (7 ∷ (8 ∷ (9 ∷ []))) disk refl refl
