-- ===== src/Vector/Values.antt =====
-- What `main` of 5_7.c writes is what it reads and prints.
use Prim.Native.String.{String}
use textbooks.Base.{ℕ, ◌≡◌, none, some, List, [], ◌∷◌, ◌++◌}
use textbooks.Base.Returns.{Returns}
use textbooks.Base.Ends
use textbooks.Base.Ends.{Ends}
use textbooks.Posix.{Posix, IsPosix, Reasons, WholeReads}
use textbooks.Shared.Defs.{Descriptors}
use textbooks.Shared.Offsets.{IsDescriptors, Both}
use textbooks.Vector.Defs.{Iostrt}
use textbooks.Vector.Main.{int_a, buf_arr, buf_p, Printed}

-- "abcde" and "hw"
abbrev pub abcde : List ℕ
abcde = 97 ∷ (98 ∷ (99 ∷ (100 ∷ (101 ∷ []))))

abbrev pub values : Printed
values = record { number = 1000; first_text = some abcde; second_text = some buf_p }

abbrev content : List ℕ
content = int_a ++ (buf_arr ++ buf_p)

abbrev three_buffers : List ℕ → List ℕ → List ℕ → List Iostrt
three_buffers b buf_arr2 buf_p2 =
    record { nbytes = 4; iop = b }
    ∷ (record { nbytes = 6; iop = buf_arr2 } ∷ (record { nbytes = 3; iop = buf_p2 } ∷ []))

module _ (k : Posix) (law : IsPosix k) (c : Descriptors k) (more : IsDescriptors k law c)
    (whole : WholeReads k law) {F : Type 0} (blame : Reasons k law F)
    (no_file : (path : String) (s : k.State) → (c.open_new path s).0 ≡ none → F) where
  -- The descriptor is at the end of its file.
  abbrev AtEnd : ℕ → ℕ → List ℕ → k.State → Type 0
  AtEnd fd d bytes s = Both (law.view s) fd fd d bytes
