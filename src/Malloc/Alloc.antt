-- ===== src/Malloc/Alloc.antt =====
-- `c_malloc` keeps the blocks apart, and returns a best fit or a block from the break.
use textbooks.Base.{
  ℕ, ◌+◌, ◌-◌, ◌%◌, ◌^◌, ◌≤◌, ◌<◌, ◌≡◌, [], refl, ◌≢◌, ◌⊎◌, inl, inr, Bool, true, false, ◌==◌,
  arith, Bool-cases, List, pure, ◌>>◌, length, ◌&&◌, ltb, leb,
}
use textbooks.Base.Returns
use textbooks.Base.Returns.{Returns, returns}
use textbooks.Base.Int.{pos, signed64}
use textbooks.Malloc.Defs.{
  Kernel, Heap, word, program_break, new_block, c_malloc, load, store, pop_from_free_list, long_max,
}
use textbooks.Malloc.Chain.{has, after, head-nil, Chain-has, IsSbrk}
use textbooks.Malloc.Invariant.{
  IsHeap, insert, chunk_of, IsHeap-grow, IsHeap-pop, pop_lem, IsHeap-AllMapped, IsHeap-AllSmall,
}
use textbooks.Malloc.BestFit.{IsBestFit, pick-IsBestFit}
use textbooks.Malloc.FreeList.{pick, best_fit-pick}

pub signed64-pos : (n : ℕ) → n < 2 ^ 63 → signed64 n ≡ pos n
signed64-pos n h = ground arith

-- What a new block changes: the break and the header at the old break.
abbrev Grown : {k : Kernel} → Heap k → ℕ → ℕ → Heap k → Type 0
Grown h n p h' =
    (p ≡ program_break h + 8)
    × (h'.head ≡ h.head)
    × (program_break h' ≡ program_break h + 8 + n)
    × ((a : ℕ) → a ≢ program_break h → h'.nodes a ≡ h.nodes a)
    × (chunk_of h'.nodes (program_break h) ≡ n)

module _ {k : Kernel} {base : ℕ} (law : IsSbrk k base) where
  new_block-Grown :
      (h : Heap k) (n : ℕ) (clear : Bool)
      → (k.sbrk (pos (n + 8)) h.os).0 ≢ word - 1
      → 0 < program_break h
      → program_break h + n + 8 < 2 ^ 63
      → 16 ≤ n
      → Returns (Grown h n) (new_block (n + 8) clear h)
  unfolding new_block load store
  new_block-Grown h n clear good z room lo = elim (law.grows (n + 8) h.os) [
    | inl bad ↦ absurd (good bad.0)
    | inr (at, grown) ↦
        let nz : (program_break h == 0) ≡ false = ground arith in
        let s = (k.sbrk (pos (n + 8)) h.os).1 in
        let m : (ltb 0 (program_break h) && leb (program_break h + 24) (k.sbrk (pos 0) s).0)
            ≡ true =
          ground arith in
        let wrap : (program_break h + 8) % word ≡ program_break h + 8 = omega arith in
        let chunk : (n + 8 + word - 8) % word ≡ n = omega arith in
        rw (signed64-pos (n + 8) (omega arith), at, nz, m, m)
          (elim (Bool-cases clear) [
            | inl c ↦
                rw (c, m, m, m, m)
                  (returns (wrap, refl, omega arith, λ a ne. ground arith, ground arith))
            | inr c ↦ rw c (returns (wrap, refl, omega arith, λ a ne. ground arith, ground arith))
          ])
  ]

-- What `c_malloc` does to the state `h`: it takes a best fit off the list, with all that stands before
-- it, or, if no entry fits, a block at the break.
abbrev pub Allocated : {k : Kernel} → ℕ → Heap k → (ℕ → Bool) → List ℕ → ℕ → ℕ → Heap k → Type 0
Allocated base h live xs size p h' =
    ((e : ℕ) × IsBestFit h.nodes size xs e
      × (p ≡ e + 8)
      × (program_break h' ≡ program_break h)
      × IsHeap base h' (insert live e) (after e xs))
    ⊎ (((x : ℕ) → has x xs ≡ true → chunk_of h.nodes x < size)
        × (p ≡ program_break h + 8)
        × (chunk_of h'.nodes (program_break h) ≡ size + 16)
        × (program_break h' ≡ program_break h + size + 24)
        × IsHeap base h' (insert live (program_break h)) xs)

module _ {k : Kernel} {base : ℕ} (law : IsSbrk k base) where
  new_block-Allocated :
      (h : Heap k) {live : ℕ → Bool} {xs : List ℕ} (size : ℕ) (clear : Bool)
      → IsHeap base h live xs
      → ((x : ℕ) → has x xs ≡ true → chunk_of h.nodes x < size)
      → size + 24 < 2 ^ 31
      → program_break h + size + 24 < 2 ^ 63
      → (k.sbrk (pos (size + 24)) h.os).0 ≢ word - 1
      → Returns (Allocated base h live xs size) (new_block (size + 24) clear h)
  new_block-Allocated h size clear i none_fits small room good =
      let e : size + 24 ≡ size + 16 + 8 = omega arith in
      let good' = rw e at good in
      rw e (
        Returns.mono
          (new_block-Grown law h (size + 16) clear good' (omega (arith, i.above, i.based))
            (omega arith) (omega arith))
          λ p h' (at, eh, eb, same, chunk). inr (
            none_fits,
            at,
            chunk,
            omega arith,
            IsHeap-grow i h' (size + 16) eh eb same chunk (omega arith) (omega arith),
          ))

  -- After the search: a block for the best fit `r`.
  take_best :
      (h : Heap k) {live : ℕ → Bool} {xs : List ℕ} (size r : ℕ)
      → IsHeap base h live xs
      → IsBestFit h.nodes size xs r
      → program_break h < 2 ^ 63
      → Returns (Allocated base h live xs size) ((pop_from_free_list r >> pure ((r + 8) % word)) h)
  take_best h size r i fit room =
      let wrap : (r + 8) % word ≡ r + 8 =
        omega (arith, i.layout.bounds r (ground (arith, fit.0))) in
      rw (pop_lem i r fit.0, wrap) (returns (inl (r, fit, refl, refl, IsHeap-pop i r fit.0)))

  -- With room below the break's limit, and if `sbrk` does not fail, a request that with its header is less than 2 GiB
  -- returns a best fit of the free list or, if no entry is large enough, a new block; the blocks of
  -- the client and those left on the list then are apart and in bounds, the new one among them.
  pub c_malloc_lem :
      (h : Heap k) (live : ℕ → Bool) (xs : List ℕ) (fuel size : ℕ)
      → IsHeap base h live xs
      → size + 24 < 2 ^ 31
      → program_break h + size + 24 < 2 ^ 63
      → (k.sbrk (pos (size + 24)) h.os).0 ≢ word - 1
      → length xs < fuel
      → Returns (Allocated base h live xs size) (c_malloc fuel size h)
  unfolding c_malloc
  c_malloc_lem h live xs fuel size i small room good enough =
      let blob : (size + 24) % word ≡ size + 24 = omega arith in
      rw blob (elim (Bool-cases (h.head == 0)) [
        | inl z ↦ rw z (
            new_block-Allocated h size true i
              (λ x m. cc (rw (head-nil h.nodes h.head xs i.chain (ground arith)) at m)) small room
              good)
        | inr z ↦
            rw
              (
                z,
                best_fit-pick h fuel size h.head 0 long_max xs i.chain (IsHeap-AllMapped i) enough,
              )
              (elim (pick-IsBestFit h.nodes size xs (omega arith) (IsHeap-AllSmall i)) [
                | inl (none_picked, none_fits) ↦
                    rw none_picked (new_block-Allocated h size false i none_fits small room good)
                | inr fit ↦
                    let pos : 0 < pick h.nodes size xs 0 long_max =
                      (Chain-has h.nodes _ h.head xs i.chain fit.0).0 in
                    let nz : (pick h.nodes size xs 0 long_max == 0) ≡ false = ground arith in
                    rw nz (take_best h size _ i fit (omega arith))
              ])
      ])

  -- On an empty list the block is new, and the other headers are as they were.
  pub c_malloc-new :
      (h : Heap k) (live : ℕ → Bool) (fuel size : ℕ)
      → IsHeap base h live []
      → size + 24 < 2 ^ 31
      → program_break h + size + 24 < 2 ^ 63
      → (k.sbrk (pos (size + 24)) h.os).0 ≢ word - 1
      → Returns
          (λ p h'.
            (p ≡ program_break h + 8)
            × IsHeap base h' (insert live (program_break h)) []
            × (program_break h' ≡ program_break h + size + 24)
            × ((a : ℕ) → a ≢ program_break h → h'.nodes a ≡ h.nodes a)
            × (chunk_of h'.nodes (program_break h) ≡ size + 16))
          (c_malloc fuel size h)
  unfolding c_malloc
  c_malloc-new h live fuel size i small room good =
      let blob : (size + 24) % word ≡ size + 16 + 8 = omega arith in
      let e : size + 24 ≡ size + 16 + 8 = omega arith in
      let good' = rw e at good in
      let empty : (h.head == 0) ≡ true = ground (arith, i.chain) in
      rw (blob, empty)
        (Returns.mono
          (new_block-Grown law h (size + 16) true good' (omega (arith, i.above, i.based))
            (omega arith) (omega arith))
          λ p h' (at, eh, eb, same, chunk). (
            at,
            IsHeap-grow i h' (size + 16) eh eb same chunk (omega arith) (omega arith),
            omega arith,
            same,
            chunk,
          ))
