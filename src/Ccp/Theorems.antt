-- ===== src/Ccp/Theorems.antt =====
-- What a run of ccp.c does, from its arguments to its end.
use Prim.Native.String.{String}
use text.Mathlib.TextPositions.{eq_refl as str_refl}
use textbooks.Base.{ℕ, ◌≡◌, ◌≢◌, ◌<◌, ◌⊎◌, some, List}
use textbooks.Base.Ends
use textbooks.Base.Ends.{Ends}
use textbooks.Posix.{Posix, View, IsPosix, Reasons, opened}
use textbooks.Copy.{read_only}
use textbooks.Copy.Theorems.{Holds}

module _ (v : View) (old new : String) (i : ℕ) (c : List ℕ) (source : v.named old ≡ some i)
    (bytes : v.file i ≡ c) (differ : v.named new ≢ some i) (fd d : ℕ) where
  abbrev input : View
  input = opened v old read_only fd d i

module _ (k : Posix) (law : IsPosix k) {F : Type 0} (blame : Reasons k law F) (buf_size : ℕ)
    (pos_size : 0 < buf_size) where
  abbrev Result : String → List ℕ → k.State → Type 0
  Result new c s = Holds (law.view s) new c ⊎ F
