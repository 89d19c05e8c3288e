-- ===== src/Malloc/Limits.antt =====
-- Where `c_malloc` does not keep to its purpose: a failure of `sbrk`, and requests of 2 GiB and more.
use textbooks.Base.{
  ℕ, suc, ◌+◌, ◌-◌, ◌%◌, ◌^◌, ◌<◌, ◌≡◌, inl, inr, Bool, true, false, ◌&&◌, ◌==◌, ◌∷◌, [], ltb, leb,
  arith, Bool-cases, List, ok, fault, length,
}
use textbooks.Base.Int.{pos}
use textbooks.Malloc.Defs.{
  Kernel, FreeL, Heap, word, program_break, hole_sz, long_max, new_block, c_malloc, load,
}
use textbooks.Malloc.Chain.{has, IsSbrk}
use textbooks.Malloc.Invariant.{IsHeap, IsHeap-AllMapped, IsHeap-AllSmall, chunk_of, pop_lem}
use textbooks.Malloc.FreeList.{pick, best_fit-pick}
use textbooks.Malloc.BestFit.{pick-IsBestFit}
use textbooks.Malloc.Alloc.{signed64-pos}

module _ {k : Kernel} {base : ℕ} (law : IsSbrk k base) where
  new_block-fault :
      (h : Heap k) (blob : ℕ) (clear : Bool)
      → (k.sbrk (pos blob) h.os).0 ≡ word - 1
      → blob < 2 ^ 63
      → program_break h < 2 ^ 63
      → new_block blob clear h ≡ fault
  unfolding new_block load
  new_block-fault h blob clear bad small room = elim (law.grows blob h.os) [
    | inl (_, same) ↦
        let m : (ltb 0 (word - 1)
              && leb (word - 1 + 24) (k.sbrk (pos 0) (k.sbrk (pos blob) h.os).1).0)
            ≡ false =
          ground arith in
        rw (signed64-pos blob small, bad, m)
    | inr (at, grown) ↦ absurd (ground arith)
  ]

  -- A failure of `sbrk` is not noticed: it returns (void *) -1, which is not NULL, and the write of the
  -- header faults. So a request that no entry fits faults instead of returning NULL.
  pub c_malloc_exhausted :
      (h : Heap k) (live : ℕ → Bool) (xs : List ℕ) (fuel size : ℕ)
      → IsHeap base h live xs
      → ((x : ℕ) → has x xs ≡ true → chunk_of h.nodes x < size)
      → size + 24 < 2 ^ 31
      → program_break h < 2 ^ 63
      → (k.sbrk (pos (size + 24)) h.os).0 ≡ word - 1
      → length xs < fuel
      → c_malloc fuel size h ≡ fault
  unfolding c_malloc
  c_malloc_exhausted h live xs fuel size i none_fits small room bad enough =
      let blob : (size + 24) % word ≡ size + 24 = omega arith in
      rw blob (elim (Bool-cases (h.head == 0)) [
        | inl z ↦ rw z (new_block-fault h (size + 24) true bad (omega arith) room)
        | inr z ↦
            rw
              (
                z,
                best_fit-pick h fuel size h.head 0 long_max xs i.chain (IsHeap-AllMapped i) enough,
              )
              (elim (pick-IsBestFit h.nodes size xs (omega arith) (IsHeap-AllSmall i)) [
                | inl (none_picked, _) ↦
                    rw none_picked (new_block-fault h (size + 24) false bad (omega arith) room)
                | inr (m, fits, _) ↦ absurd (omega (arith, none_fits _ m))
              ])
      ])

hole_sz-wraps :
    (chunk d : ℕ) → chunk < 2 ^ 31 → 0 < d → d < 2 ^ 31 → hole_sz chunk (chunk + 2 ^ 32 - d) ≡ pos d
unfolding hole_sz
hole_sz-wraps chunk d c z h =
    let w : (chunk + word - (chunk + 2 ^ 32 - d)) % word % 2 ^ 32 ≡ d = omega arith in
    rw w (ground arith)

pick_one :
    (m : ℕ → FreeL) (size e d : ℕ)
    → hole_sz (m e).chunk_size size ≡ pos d
    → d < 2 ^ 31
    → pick m size (e ∷ []) 0 long_max ≡ e
unfolding pick
pick_one m size e d hole small = rw hole (ground arith)

module _ {k : Kernel} {base : ℕ} where
  -- The size of a hole is cut to an `int`, so a block on the list also serves a request that exceeds it
  -- by between 2 GiB and 4 GiB.
  pub c_malloc_truncates :
      (h : Heap k) (live : ℕ → Bool) (e fuel d : ℕ)
      → IsHeap base h live (e ∷ [])
      → 0 < d
      → d < 2 ^ 31
      → program_break h < 2 ^ 63
      → c_malloc (suc (suc fuel)) (chunk_of h.nodes e + 2 ^ 32 - d) h
        ≡ ok (e + 8) (record h { head = (h.nodes e).next })
  unfolding c_malloc
  c_malloc_truncates h live e fuel d i z small room =
      let b = i.layout.bounds e (ground arith) in
      let size = chunk_of h.nodes e + 2 ^ 32 - d in
      let nz : (h.head == 0) ≡ false = ground (arith, i.chain) in
      let nz' : (e == 0) ≡ false = ground (arith, i.chain) in
      let at : (e + 8) % word ≡ e + 8 = omega arith in
      let picked =
        pick_one h.nodes size e d (hole_sz-wraps (chunk_of h.nodes e) d (omega arith) z small)
          small in
      rw (
        nz,
        best_fit-pick h (suc (suc fuel)) size h.head 0 long_max (e ∷ []) i.chain
            (IsHeap-AllMapped i) (omega arith),
        picked,
        nz',
        pop_lem i e (ground arith),
        at,
      )
