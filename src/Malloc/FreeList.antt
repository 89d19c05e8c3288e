-- ===== src/Malloc/FreeList.antt =====
-- `pop_from_free_list`, and the searches of `c_malloc` and `c_free` through the list.
use mathlib.Core.Path.{fun_ext}
use textbooks.Base.{
  ℕ, zero, suc, ◌+◌, ◌%◌, ◌<◌, ◌≡◌, ◌≢◌, inl, inr, true, false, ◌&&◌, List, [], ◌∷◌, ◌==◌,
  if◌then◌else◌, arith, ok, Bool-cases, length,
}
use textbooks.Base.Int.{ℤ, pos, ltb_ℤ, leb_ℤ}
use textbooks.Malloc.Defs.{
  Kernel, FreeL, Heap, word, is_mapped, load, store, set_previous, update, pop_from_free_list,
  hole_sz, best_fit, find_top,
}
use textbooks.Malloc.Chain.{Chain}

update_self :
    (m : ℕ → FreeL) (a : ℕ) → (m a).previous ≡ 0 → update m a (record (m a) { previous = 0 }) ≡ m
update_self m a e = fun_ext λ b. ground arith

module _ {k : Kernel} where
  set_previous_self :
      (h : Heap k) (a : ℕ)
      → is_mapped h a ≡ true
      → (h.nodes a).previous ≡ 0
      → set_previous a 0 h ≡ ok tt h
  unfolding load store
  set_previous_self h a m e = rw (m, m, update_self h.nodes a e)

  -- An entry whose `previous` is NULL is taken for the head: the list becomes what follows it.
  pub pop_to_next :
      (h : Heap k) (e : ℕ)
      → is_mapped h e ≡ true
      → (h.nodes e).previous ≡ 0
      → ((h.nodes e).next ≢ 0 → is_mapped h (h.nodes e).next ≡ true)
      → ((h.nodes e).next ≢ 0 → (h.nodes (h.nodes e).next).previous ≡ 0)
      → pop_from_free_list e h ≡ ok tt (record h { head = (h.nodes e).next })
  unfolding pop_from_free_list load
  pop_to_next h e m p n q = elim (Bool-cases ((h.nodes e).next == 0)) [
    | inl z ↦ rw (m, p, m, z)
    | inr z ↦
        rw (m, p, m, z, p)
          (set_previous_self (record h { head = (h.nodes e).next }) _ (n (ground arith))
            (q (ground arith)))
  ]

-- Every entry can be accessed.
abbrev pub AllMapped : {k : Kernel} → Heap k → List ℕ → Type 0
AllMapped h [] = Unit
AllMapped h (x ∷ xs) = (is_mapped h x ≡ true) × AllMapped h xs

-- The entry that the loop of `c_malloc` ends with.
unfoldable pub pick : (ℕ → FreeL) → ℕ → List ℕ → ℕ → ℤ → ℕ
pick m size [] best gap = best
pick m size (x ∷ xs) best gap =
    let hole = hole_sz (m x).chunk_size size in
    let better = ltb_ℤ hole gap && leb_ℤ (pos 0) hole in
    pick m size xs (if better then x else best) (if better then hole else gap)

-- The first entry that ends at `top`.
unfoldable pub first_top : (ℕ → FreeL) → ℕ → List ℕ → ℕ
first_top m top [] = 0
first_top m top (x ∷ xs) =
    if top == (x + 8 + (m x).chunk_size) % word then x else first_top m top xs

module _ {k : Kernel} (h : Heap k) where
  pub best_fit-pick :
      (fuel size p best : ℕ) (gap : ℤ) (xs : List ℕ)
      → Chain h.nodes p xs
      → AllMapped h xs
      → length xs < fuel
      → best_fit fuel size p best gap h ≡ ok (pick h.nodes size xs best gap) h
  unfolding best_fit load pick
  best_fit-pick zero size p best gap xs c m f = absurd (omega arith)
  best_fit-pick (suc fuel) size p best gap [] c m f = rw c
  best_fit-pick (suc fuel) size p best gap (x ∷ xs) (e, z, _, c) (m, ms) f =
      let nz : (x == 0) ≡ false = ground arith in
      rw (e, nz, m) (best_fit-pick fuel size (h.nodes x).next _ _ xs c ms (omega arith))

  pub find_top-first_top :
      (fuel top p : ℕ) (xs : List ℕ)
      → Chain h.nodes p xs
      → AllMapped h xs
      → length xs < fuel
      → find_top fuel top p h ≡ ok (first_top h.nodes top xs) h
  unfolding find_top load first_top
  find_top-first_top zero top p xs c m f = absurd (omega arith)
  find_top-first_top (suc fuel) top p [] c m f = rw c
  find_top-first_top (suc fuel) top p (x ∷ xs) (e, z, _, c) (m, ms) f =
      let nz : (x == 0) ≡ false = ground arith in
      rw (e, nz, m)
        (elim (Bool-cases (top == (x + 8 + (h.nodes x).chunk_size) % word)) [
          | inl t ↦ rw t
          | inr t ↦ rw t (find_top-first_top fuel top (h.nodes x).next xs c ms (omega arith))
        ])
