-- ===== src/Release/Tests.antt =====
-- 7.1.c on an allocator that counts its blocks.
use Prim.Native.String.{String}
use textbooks.Base.{
  ℕ, ◌+◌, ◌*◌, ◌≡◌, ◌<◌, refl, inr, Option, some, List, [], ◌∷◌, ◌++◌, arith, length, get_or,
  get_elem?, Run, exit, fault,
}
use mathlib.Core.List.{map}
use textbooks.Base.Ends.{Ends}
use textbooks.Release.Defs.{Heap, allocate, free_from, allocate_and_free, release_main}
use textbooks.Release.Theorems.{IsHeap, EverySo, allocate_and_free-EverySo}

record Blocks : Type 0 where
  pub given : List ℕ
  pub freed : List ℕ

abbrev counting : Heap
counting = record {
  State = Blocks;
  malloc = λ n s.
      (some (length s.given), record { given = s.given ++ (length s.given ∷ []); freed = s.freed });
  free = λ p s. record { given = s.given; freed = s.freed ++ (p ∷ []) };
  report = λ s. s;
}

counting-IsHeap : IsHeap counting
counting-IsHeap = record {
  given = λ s. s.given;
  freed = λ s. s.freed;
  gives = λ n s. (refl, inr (length s.given, refl, refl));
  frees = λ p s. (refl, refl);
  reports = λ s. (refl, refl);
}

abbrev no_blocks : Blocks
no_blocks = record { given = []; freed = [] }

abbrev freed_blocks : Run Blocks (Unit {0}) → List ℕ
freed_blocks (exit c s) = s.freed
freed_blocks _ = []

-- Of six blocks, every second one from the second to the fifth.
every_second : freed_blocks (allocate_and_free counting 6 6 10 2 2 5 no_blocks) ≡ 1 ∷ (3 ∷ [])
unfolding allocate free_from allocate_and_free
every_second = refl

abbrev six : String → Option ℕ
six text = some 6

-- With six as every number, the last of six blocks is freed.
last_block :
    freed_blocks (
      release_main counting six six 7
        ("7.1" ∷ ("6" ∷ ("6" ∷ ("6" ∷ ("6" ∷ ("6" ∷ []))))))
        no_blocks)
    ≡ 5 ∷ []
unfolding allocate free_from allocate_and_free release_main
last_block = refl

-- A step that takes `j` beyond INT_MAX, behind the second block.
beyond_int : allocate_and_free counting 6 2 10 2147483647 2 2 no_blocks ≡ fault
unfolding allocate free_from allocate_and_free
beyond_int = refl

allocate_and_free-EverySo_example :
    Ends ⊥
      (λ _ _. ⊥)
      (λ s'.
        (blocks : List ℕ) × (js : List ℕ) × (length blocks ≡ 6)
        × (s'.given ≡ [] ++ blocks)
        × EverySo 2 5 1 js
        × ((t : ℕ) → 1 + t * 2 < 5 → get_elem? js t ≡ some (1 + t * 2))
        × (s'.freed ≡ [] ++ map (λ i. get_or blocks i 0) js))
      (allocate_and_free counting 6 6 10 2 2 5 no_blocks)
unfolding counting-IsHeap
allocate_and_free-EverySo_example =
    allocate_and_free-EverySo counting counting-IsHeap (λ n s e. cc) 6 6 10 2 2 5 no_blocks
      (omega arith) (omega arith) (omega arith) (omega arith)
