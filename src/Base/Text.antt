-- ===== src/Base/Text.antt =====
-- Strings of C in memory.
use Prim.Native.Nat.{ℕ}
use mathlib.Core.List.{List, [], ◌∷◌}
use mathlib.Core.Option.{Option, none, some}
use textbooks.Base.Tests.{◌==◌, if◌then◌else◌}

-- What `printf("%s")` reads of a buffer that has these bytes: `none` where no null byte is among them.
abbrev pub up_to_null : List ℕ → Option (List ℕ)
up_to_null [] = none
up_to_null (b ∷ bs) =
    let rest = up_to_null bs in
    if b == 0 then some [] else elim rest [ none ↦ none | some text ↦ some (b ∷ text) ]
