-- ===== src/Malloc/OwnWrites.antt =====
-- The writes of `main` of tlpi/c7/7.2.c into its blocks, and what it reads back.
use textbooks.Base.{ℕ, ◌+◌, ◌-◌, ◌%◌, ◌^◌, ◌≤◌, ◌<◌, ◌≡◌, refl, ◌≢◌, true, arith}
use textbooks.Base.Returns.{Returns, returns}
use textbooks.Malloc.Defs.{Kernel, word, is_mapped, program_break, load, store}
use textbooks.Malloc.Main.{
  Program, put_int, int_of, set_char, get_char, set_int, get_int, use_ch, use_arr, use_arr2, within,
}
use textbooks.Malloc.Invariant.{chunk_of}

module _ {k : Kernel} where
  -- From `s` to `s'` nothing of the heap has changed but the links in the header at `e`.
  abbrev pub Wrote : Program k → ℕ → Program k → Type 0
  Wrote s e s' =
      (s'.heap.head ≡ s.heap.head)
      × (s'.heap.os ≡ s.heap.os)
      × ((a : ℕ) → a ≢ e → s'.heap.nodes a ≡ s.heap.nodes a)
      × (chunk_of s'.heap.nodes e ≡ chunk_of s.heap.nodes e)

  module _ (s : Program k) (e : ℕ) (small : e + 24 < 2 ^ 64) (m : is_mapped s.heap e ≡ true) where
    entry : (e + 8 + word - 8) % word ≡ e
    entry = omega arith

    pub use_ch-Wrote : Returns (λ c s'. (c ≡ 82) × Wrote s e s') (use_ch (e + 8) s)
    unfolding use_ch set_char get_char load store
    use_ch-Wrote =
        rw (entry, m, m, m)
          (returns (ground arith, (refl, refl, λ a ne. ground arith, ground arith)))

    pub use_arr2-Wrote :
        Returns (λ (x, y) s'. (x ≡ 34) × (y ≡ 33) × Wrote s e s') (use_arr2 (e + 8) s)
    unfolding use_arr2 load store
    use_arr2-Wrote =
        rw (entry, m, m, m, m, m)
          (returns (ground arith, ground arith, (refl, refl, λ a ne. ground arith, ground arith)))

    pub use_arr-Wrote :
        e + 28 ≤ program_break s.heap
        → Returns (λ (x, y) s'. (x ≡ 1) × (y ≡ 101) × Wrote s e s') (use_arr (e + 8) s)
    unfolding use_arr set_int get_int put_int int_of load store
    use_arr-Wrote room =
        let w : within s (e + 8 + 16) ≡ true = ground arith in
        rw (entry, m, m, m, m, m, m, m, m, w, m, w)
          (returns (ground arith, ground arith, (refl, refl, λ a ne. ground arith, ground arith)))
