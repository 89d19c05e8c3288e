-- ===== src/Vector/Tests.antt =====
-- Two buffers, and the theorems on a disk.
use Prim.Native.String.{String}
use textbooks.Base.{
  ◌≡◌, ℕ, refl, true, false, none, some, List, [], ◌∷◌, arith, if◌then◌else◌, ◌==◌, fault,
}
use textbooks.Base.Ends.{Ends, returned}
use textbooks.Shared.Defs.{Descriptors}
use textbooks.Vector.Defs.{scatter, write_to_file}
use textbooks.Vector.Main.{create_temp_file, vector_main}
use textbooks.Vector.Values.{values}
use textbooks.Posix.{call}
use textbooks.Posix.Simple.{Disk, simple}
use textbooks.Vector.Defs.{Iostrt, gather, writev, readv}
use textbooks.Vector.Gather.{Wide, writev-gathered}

-- Descriptor 0 is open on a file of three bytes.
abbrev one_file : Disk
one_file = record {
  count = 1;
  is_open = λ _. true;
  inode = λ _. 0;
  offset = λ _. 0;
  append = λ _. false;
  file = λ i. if i == 0 then 7 ∷ (0 ∷ (9 ∷ [])) else [];
  names = "a" ∷ [];
}

abbrev two_buffers : List Iostrt
two_buffers =
    record { nbytes = 1; iop = 1 ∷ [] } ∷ (record { nbytes = 2; iop = 2 ∷ (3 ∷ (4 ∷ [])) } ∷ [])

two_buffers-Wide : Wide two_buffers
two_buffers-Wide = (omega arith, omega arith, (omega arith, omega arith, tt))

writev-gathered_example :
    writev simple 0 two_buffers one_file ≡ call (simple.write 0 (1 ∷ (2 ∷ (3 ∷ [])))) one_file
writev-gathered_example =
    writev-gathered simple 0 two_buffers one_file two_buffers-Wide (omega arith)

-- One buffer of nine bytes overruns.
overrun :
    writev simple 0
      (record { nbytes = 9; iop = 1 ∷ (2 ∷ (3 ∷ (4 ∷ (5 ∷ (6 ∷ (7 ∷ (8 ∷ (9 ∷ [])))))))) } ∷ [])
      one_file
    ≡ fault
unfolding writev gather
overrun = refl

-- A new file is made by an open that empties it; there are no duplicates.
abbrev new_files : Descriptors simple
new_files = record {
  open_new =
      λ path. simple.open_file path (record { create = true; truncate = true; append = false });
  unlink = λ path s. s;
  dup = λ fd s. (none, s);
  get_flags = λ fd s. (none, s);
}

abbrev four_bytes : List ℕ
four_bytes = 9 ∷ (9 ∷ (9 ∷ (9 ∷ [])))

abbrev six_bytes : List ℕ
six_bytes = 9 ∷ (9 ∷ four_bytes)

abbrev three_bytes : List ℕ
three_bytes = 9 ∷ (9 ∷ (9 ∷ []))

vector_main_runs :
    Ends ⊥
      (λ printed s. printed ≡ some values)
      (λ _. ⊥)
      (vector_main simple new_files four_bytes six_bytes three_bytes one_file)
unfolding vector_main create_temp_file write_to_file readv scatter
vector_main_runs = returned refl
