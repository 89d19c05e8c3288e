-- ===== src/Ccp/Tests.antt =====
-- ccp.c on a disk that holds one file.
use textbooks.Base.{false, [], ◌∷◌, if◌then◌else◌, ◌==◌}
use textbooks.Base.Ends.{Ends}
use textbooks.Posix.Simple.{Disk}

abbrev source_disk : Disk
source_disk = record {
  count = 3;
  is_open = λ _. false;
  inode = λ _. 0;
  offset = λ _. 0;
  append = λ _. false;
  file = λ i. if i == 0 then 7 ∷ (0 ∷ (9 ∷ [])) else [];
  names = "a" ∷ [];
}
