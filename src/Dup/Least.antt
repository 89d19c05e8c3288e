-- ===== src/Dup/Least.antt =====
-- `using_dup` of 5_4.c gets the least free descriptors.
use textbooks.Base.{ℕ, ◌≡◌, ◌≤◌, ◌==◌, false, Option, none, some, if◌then◌else◌}
use textbooks.Base.Ends
use textbooks.Base.Ends.{Ends, succeeded}
use textbooks.Dup.Defs.{Fcntl}
use textbooks.Dup.Table.{IsFcntl}
use textbooks.Dup.Main.{Opening}
use textbooks.Dup.Runs.{IsOpening, Refuses}

module _ (k : Fcntl) (law : IsFcntl k) (o : Opening k) (more : IsOpening k law o)
    (leftover : ℕ → ℕ → Option ℕ) {F : Type 0} (refuse : Refuses k o leftover F) where
  -- From the table `t` on both `tfd` and `tfd2` are closed and `c`, not above `tfd`, is opened for `d2`.
  abbrev pub Placed : ℕ → ℕ → ℕ → ℕ → (ℕ → Option ℕ) → k.State → Type 0
  Placed tfd tfd2 c d2 t s' =
      (c ≤ tfd)
      × ((c == tfd2) ≡ false)
      × (t tfd2 ≡ none)
      × ((x : ℕ)
          → law.table s' x ≡ (
              if x == tfd2
              then none
              else if x == c
              then some d2
              else if x == tfd
              then none
              else t x))
