-- ===== src/Malloc/Course.antt =====
-- The course of `main` of tlpi/c7/7.2.c, whose blocks are all given back.
use textbooks.Base.{ℕ, ◌+◌, ◌<◌, ◌^◌, ◌≡◌, refl, inl, inr, Bool, true, [], arith}
use textbooks.Base.Returns
use textbooks.Base.Returns.{Returns, returns}
use textbooks.Malloc.Defs.{Kernel, program_break}
use textbooks.Malloc.Main.{Program, main, first_blocks, last_block}
use textbooks.Malloc.Chain.{IsSbrk}
use textbooks.Malloc.Invariant.{IsHeap, insert, mapped}
use textbooks.Malloc.Stages.{
  Stage, NeverFails, resume-Returns, On-own, below, c_malloc-ch, c_malloc-arr, c_free-arr,
  c_free-ch, c_free-arr2,
}
use textbooks.Malloc.OwnWrites.{use_ch-Wrote, use_arr-Wrote, use_arr2-Wrote}

module _ {k : Kernel} {base : ℕ} (law : IsSbrk k base) (start : Program k) (live : ℕ → Bool)
    (i : IsHeap base start.heap live []) (room : program_break start.heap + 69 < 2 ^ 63)
    (good : NeverFails k) where
  abbrev b : ℕ
  b = program_break start.heap

  first_blocks_lem :
      Returns
        (λ (ch, letter, arr, ints) s.
          (ch ≡ b + 8)
          × (letter ≡ 82)
          × (arr ≡ b + 33)
          × (ints ≡ (1, 101))
          × Stage base b start.heap (insert live b) [] (b + 25) 36 s.heap)
        (first_blocks start)
  unfolding first_blocks
  first_blocks_lem =
      Returns.bind (resume-Returns start (c_malloc-ch law start.heap live i room good))
        λ ch s1 (at_ch, (n, t1)). rw at_ch (
          Returns.bind (use_ch-Wrote s1 b (omega arith) (mapped t1.heap b (ground arith)))
            λ letter s2 (is_r, own2).
              let t2 =
                On-own law start.heap live i room good s1 s2 b t1 (ground arith) (inl refl) own2 in
              Returns.bind
                (resume-Returns s2 (
                  c_malloc-arr law start.heap live i room good 20 n (b + 69) s2.heap t2
                    (omega arith) (omega arith)))
                λ arr s3 (at_arr, t3). rw at_arr (
                  Returns.bind
                    (use_arr-Wrote s3 (b + 25) (omega arith)
                      (mapped t3.heap (b + 25) (ground arith)) (omega (arith, t3.at)))
                    λ ints s4 (one, last, own4).
                      let t4 =
                        On-own law start.heap live i room good s3 s4 (b + 25) t3 (ground arith)
                          (inr refl) own4 in
                      Returns.bind
                        (resume-Returns s4 (c_free-arr law start.heap live i room good s4.heap t4))
                        λ _ s5 t5.
                          returns (refl, is_r, omega arith, ground (arith, one, last), t5)))

  last_block_lem :
      (s : Program k)
      → Stage base b start.heap (insert live b) [] (b + 25) 36 s.heap
      → Returns
          (λ (arr2, longs) s'.
            (arr2 ≡ b + 33) × (longs ≡ (34, 33)) × Stage base b start.heap live [] b 32 s'.heap)
          (last_block (b + 8) s)
  unfolding last_block
  last_block_lem s t =
      Returns.bind
        (resume-Returns s (
          c_malloc-arr law start.heap live i room good 16 36 (b + 65) s.heap t (omega arith)
            (omega arith)))
        λ arr2 s1 (at, t1). rw at (
          Returns.bind
            (use_arr2-Wrote s1 (b + 25) (omega arith) (mapped t1.heap (b + 25) (ground arith)))
            λ longs s2 (x, y, own).
              let t2 =
                On-own law start.heap live i room good s1 s2 (b + 25) t1 (ground arith) (inr refl)
                  own in
              Returns.bind
                (resume-Returns s2 (c_free-ch law start.heap live i room good s2.heap t2))
                λ _ s3 t3.
                  Returns.bind
                    (resume-Returns s3 (c_free-arr2 law start.heap live i room good s3.heap t3))
                    λ _ s4 t4. returns (omega arith, ground (arith, x, y), t4))

  -- From a heap with an empty list, with room and memory for its blocks, `main` returns: it prints R,
  -- 1 and 101, 34 and 33, and the third block at the address of the second; then the list is empty,
  -- the break is where it was, and what was there before is as it was.
  pub main_lem :
      Returns
        (λ out s.
          (out ≡ record {
            ch = b + 8;
            letter = 82;
            arr = b + 33;
            ints = (1, 101);
            arr2 = b + 33;
            longs = (34, 33);
          })
          × (program_break s.heap ≡ b)
          × IsHeap base s.heap live []
          × ((a : ℕ) → live a ≡ true → s.heap.nodes a ≡ start.heap.nodes a))
        (main start)
  unfolding main
  main_lem =
      Returns.bind first_blocks_lem λ (ch, letter, arr, ints) s (at, is_r, at_arr, is_ints, t).
        rw at (
          Returns.bind (last_block_lem s t) λ (arr2, longs) s' (at_arr2, is_longs, t').
            let low = below law start.heap live i room good in
            returns (
              rw (is_r, at_arr, is_ints, at_arr2, is_longs) refl,
              t'.at,
              t'.heap,
              λ a u. t'.others a (omega (arith, low a u)) (omega (arith, low a u)),
            ))
