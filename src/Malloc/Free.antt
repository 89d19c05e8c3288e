-- ===== src/Malloc/Free.antt =====
-- `c_free` keeps the blocks apart, and gives back every free block at the break.
use textbooks.Base.{
  ℕ, ◌+◌, ◌-◌, ◌%◌, ◌^◌, ◌≤◌, ◌<◌, ◌≡◌, refl, ◌≢◌, Bool, true, false, ◌==◌, ◌∷◌, arith, List,
  length, ap, ◌∙◌,
}
use textbooks.Base.Returns
use textbooks.Base.Returns.{Returns, returns}
use textbooks.Malloc.Defs.{Kernel, FreeL, Heap, word, program_break, c_free, load, store}
use textbooks.Malloc.Chain.{IsSbrk, IsSuffix}
use textbooks.Malloc.Invariant.{IsHeap, IsHeap-push, mapped, remove, chunk_of}
use textbooks.Malloc.GiveBack.{Settled, Lowered, release-Released}

module _ {k : Kernel} {base : ℕ} (law : IsSbrk k base) where
  -- With the break below 2 ^ 63 and fuel for the list, `c_free` of a block of the client's returns.
  -- The block joins the list. Either the list then stays and the break too, or the break is at the last
  -- entry given back, and what followed that entry is left of the list; no entry of it is at the break.
  -- The blocks stay apart and in bounds, the other blocks of the client's stay theirs, the block keeps
  -- its size, and the headers other than the block's are unchanged.
  pub c_free_lem :
      (h : Heap k) (live : ℕ → Bool) (xs : List ℕ) (fuel e : ℕ)
      → IsHeap base h live xs
      → live e ≡ true
      → program_break h < 2 ^ 63
      → length xs + 1 < fuel
      → Returns
          (λ _ h'.
            (ys : List ℕ) × IsSuffix ys (e ∷ xs)
            × IsHeap base h' (remove live e) ys
            × Settled h' ys
            × (program_break h' ≤ program_break h)
            × ((a : ℕ) → a ≢ e → h'.nodes a ≡ h.nodes a)
            × (chunk_of h'.nodes e ≡ chunk_of h.nodes e)
            × Lowered h (e ∷ xs) h' ys)
          (c_free fuel (e + 8) h)
  unfolding c_free load store
  c_free_lem h live xs fuel e i l room enough =
      let m = mapped i e (ground arith) in
      let nz : (e + 8 == 0) ≡ false = ground arith in
      let b = i.layout.bounds e (ground arith) in
      let entry : (e + 8 + word - 8) % word ≡ e = omega arith in
      rw (nz, entry, m, m, m, m)
        (Returns.mono
          (release-Released law fuel fuel _ (remove live e) (e ∷ xs)
            (IsHeap-push i _ e l refl refl (λ a ne. ground arith) (ground arith)) room (omega arith)
            (omega arith))
          λ _ h' (ys, suffix, ih, settled, same, le, low). (
            ys,
            suffix,
            ih,
            settled,
            le,
            λ a ne. ap (λ (f : ℕ → FreeL). f a) same ∙ ground arith,
            ap (λ (f : ℕ → FreeL). chunk_of f e) same ∙ ground arith,
            low,
          ))
