-- ===== src/Malloc/BestFit.antt =====
-- What the search of `c_malloc` through the free list finds.
use mathlib.Core.Path.{subst}
use textbooks.Base.{
  ℕ, ◌+◌, ◌-◌, ◌^◌, ◌≤◌, ◌<◌, ◌≡◌, refl, sym, ◌⊎◌, inl, inr, Bool, true, false, ◌&&◌, List, [], ◌∷◌,
  arith, Bool-cases,
}
use textbooks.Base.Int.{pos, sub_ℕ, ltb_ℤ, leb_ℤ}
use textbooks.Malloc.Defs.{FreeL, hole_sz, long_max}
use textbooks.Malloc.Chain.{has}
use textbooks.Malloc.FreeList.{pick}

-- Below 2 GiB the difference is not truncated.
pub hole_sz-sub_ℕ :
    (chunk size : ℕ) → chunk < 2 ^ 31 → size < 2 ^ 31 → hole_sz chunk size ≡ sub_ℕ chunk size
unfolding hole_sz
hole_sz-sub_ℕ chunk size c s = ground arith

abbrev pub AllSmall : (ℕ → FreeL) → List ℕ → Type 0
AllSmall m [] = Unit
AllSmall m (x ∷ xs) = ((m x).chunk_size < 2 ^ 31) × AllSmall m xs

-- `r` is an entry whose chunk holds `size` bytes, and no smaller one does.
abbrev pub IsBestFit : (ℕ → FreeL) → ℕ → List ℕ → ℕ → Type 0
IsBestFit m size xs r =
    (has r xs ≡ true)
    × (size ≤ (m r).chunk_size)
    × ((x : ℕ) → has x xs ≡ true → size ≤ (m x).chunk_size → (m r).chunk_size ≤ (m x).chunk_size)

-- `r` improves on a gap of `g`, or is `best` and nothing improves on it.
abbrev Picked : (ℕ → FreeL) → ℕ → List ℕ → ℕ → ℕ → ℕ → Type 0
Picked m size xs best g r =
    ((r ≡ best)
      × ((x : ℕ) → has x xs ≡ true → size ≤ (m x).chunk_size → size + g ≤ (m x).chunk_size))
    ⊎ (IsBestFit m size xs r × ((m r).chunk_size < size + g))

better : ℕ → ℕ → ℕ → Bool
better chunk size g = ltb_ℤ (hole_sz chunk size) (pos g) && leb_ℤ (pos 0) (hole_sz chunk size)

better-true :
    (chunk size g : ℕ)
    → chunk < 2 ^ 31
    → size < 2 ^ 31
    → better chunk size g ≡ true
    → (size ≤ chunk) × (chunk < size + g) × (hole_sz chunk size ≡ pos (chunk - size))
unfolding better
better-true chunk size g c s =
    rw (hole_sz-sub_ℕ chunk size c s) (λ h. (ground arith, ground arith, ground arith))

better-false :
    (chunk size g : ℕ)
    → chunk < 2 ^ 31
    → size < 2 ^ 31
    → better chunk size g ≡ false
    → size ≤ chunk
    → size + g ≤ chunk
unfolding better
better-false chunk size g c s = rw (hole_sz-sub_ℕ chunk size c s) (λ h l. ground arith)

module _ (m : ℕ → FreeL) (size x best g r : ℕ) (xs : List ℕ) where
  Picked-improve :
      size ≤ (m x).chunk_size
      → (m x).chunk_size < size + g
      → Picked m size xs x ((m x).chunk_size - size) r
      → Picked m size (x ∷ xs) best g r
  Picked-improve fits under (inl (e, rest)) =
      inr ((ground arith, rw e fits, λ y h l. rw e (ground (arith, rest y))), rw e under)
  Picked-improve fits under (inr ((i, f, best_of), less)) =
      inr ((ground arith, f, λ y h l. ground (arith, best_of y)), omega arith)

  Picked-keep :
      (size ≤ (m x).chunk_size → size + g ≤ (m x).chunk_size)
      → Picked m size xs best g r
      → Picked m size (x ∷ xs) best g r
  Picked-keep no_better (inl (e, rest)) = inl (e, λ y h l. ground (arith, rest y))
  Picked-keep no_better (inr ((i, f, best_of), less)) =
      inr ((ground arith, f, λ y h l. ground (arith, best_of y)), less)

pick-better :
    (m : ℕ → FreeL) (size x : ℕ) (xs : List ℕ) (best g g' : ℕ)
    → better (m x).chunk_size size g ≡ true
    → hole_sz (m x).chunk_size size ≡ pos g'
    → pick m size (x ∷ xs) best (pos g) ≡ pick m size xs x (pos g')
unfolding pick better
pick-better m size x xs best g g' b e = rw (b, e)

pick_worse :
    (m : ℕ → FreeL) (size x : ℕ) (xs : List ℕ) (best g : ℕ)
    → better (m x).chunk_size size g ≡ false
    → pick m size (x ∷ xs) best (pos g) ≡ pick m size xs best (pos g)
unfolding pick better
pick_worse m size x xs best g b = rw b

pick-Picked :
    (m : ℕ → FreeL) (size : ℕ) (xs : List ℕ) (best g : ℕ)
    → size < 2 ^ 31
    → AllSmall m xs
    → Picked m size xs best g (pick m size xs best (pos g))
unfolding pick
pick-Picked m size [] best g s a = inl (refl, λ x h. ground arith)
pick-Picked m size (x ∷ xs) best g s (a, as') = elim (Bool-cases (better (m x).chunk_size size g)) [
  | inl b ↦
      let (fits, under, hole) = better-true (m x).chunk_size size g a s b in
      subst (Picked m size (x ∷ xs) best g) (sym (pick-better m size x xs best g _ b hole)) (
        Picked-improve m size x best g _ xs fits under
          (pick-Picked m size xs x ((m x).chunk_size - size) s as'))
  | inr b ↦ subst (Picked m size (x ∷ xs) best g) (sym (pick_worse m size x xs best g b)) (
      Picked-keep m size x best g _ xs (better-false (m x).chunk_size size g a s b)
        (pick-Picked m size xs best g s as'))
]

small_of_has :
    (m : ℕ → FreeL) (xs : List ℕ) (x : ℕ)
    → AllSmall m xs
    → has x xs ≡ true
    → (m x).chunk_size < 2 ^ 31
small_of_has m [] x a h = cc
small_of_has m (y ∷ xs) x (a, as') h = ground (arith, small_of_has m xs x as')

-- The loop of `c_malloc` ends with a best fit, or with NULL if no entry fits.
pub pick-IsBestFit :
    (m : ℕ → FreeL) (size : ℕ) (xs : List ℕ)
    → size < 2 ^ 31
    → AllSmall m xs
    → ((pick m size xs 0 long_max ≡ 0) × ((x : ℕ) → has x xs ≡ true → (m x).chunk_size < size))
      ⊎ IsBestFit m size xs (pick m size xs 0 long_max)
pick-IsBestFit m size xs s a = elim (pick-Picked m size xs 0 (2 ^ 63 - 1) s a) [
  | inl (e, rest) ↦ inl (e, λ x h. ground (arith, small_of_has m xs x a h, rest x h))
  | inr (b, less) ↦ inr b
]
