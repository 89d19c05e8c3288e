-- ===== src/Malloc/Left.antt =====
-- What is left of a list of one or two entries after `c_free` has given back what ends at the break.
use textbooks.Base.{
  ℕ, ◌+◌, ◌<◌, ◌≡◌, ◌≢◌, ◌∙◌, inl, inr, true, ◌==◌, [], ◌∷◌, List, arith, Bool-cases,
}
use mathlib.Core.Path.{subst, sym}
use textbooks.Malloc.Defs.{Kernel, Heap, program_break}
use textbooks.Malloc.Chain.{has, after}
use textbooks.Malloc.Invariant.{chunk_of}
use textbooks.Malloc.GiveBack.{Settled, Lowered}

after-first : (e : ℕ) (xs : List ℕ) → after e (e ∷ xs) ≡ xs
unfolding after
after-first e xs = ground arith

after-other : (e x : ℕ) (xs : List ℕ) → e ≢ x → after e (x ∷ xs) ≡ after e xs
unfolding after
after-other e x xs ne = ground arith

has-one : (a e : ℕ) → has a (e ∷ []) ≡ true → a ≡ e
has-one a e m = ground arith

module _ {k : Kernel} (s s' : Heap k) (ys : List ℕ) (settled : Settled s' ys) where
  unsettled :
      (e : ℕ) (xs : List ℕ)
      → ys ≡ xs
      → has e xs ≡ true
      → e + 8 + chunk_of s'.nodes e ≢ program_break s'
  unsettled e xs q m = settled e (subst (λ l. has e l ≡ true) (sym q) m)

  -- An entry that ended at the break is given back.
  pub left_none :
      (e : ℕ)
      → Lowered s (e ∷ []) s' ys
      → e + 8 + chunk_of s'.nodes e ≡ program_break s
      → (ys ≡ []) × (program_break s' ≡ e)
  left_none e (inl (q, at)) top = absurd (unsettled e (e ∷ []) q (ground arith) (omega arith))
  left_none e (inr (a, m, q, at)) top =
      let same = has-one a e m in
      (q ∙ subst (λ x. after x (e ∷ []) ≡ []) (sym same) (after-first e []), at ∙ same)

  -- An entry below the break stays.
  pub left_one :
      (e : ℕ)
      → Lowered s (e ∷ []) s' ys
      → e < program_break s'
      → (ys ≡ e ∷ []) × (program_break s' ≡ program_break s)
  left_one e (inl low) above = low
  left_one e (inr (a, m, q, at)) above = absurd (omega (arith, has-one a e m))

  -- An entry at the break is given back, and then the one below it.
  pub left_two :
      (e x : ℕ)
      → Lowered s (e ∷ x ∷ []) s' ys
      → e + 8 + chunk_of s'.nodes e ≡ program_break s
      → x + 8 + chunk_of s'.nodes x ≡ e
      → (ys ≡ []) × (program_break s' ≡ x)
  left_two e x (inl (q, at)) top below =
      absurd (unsettled e (e ∷ x ∷ []) q (ground arith) (omega arith))
  left_two e x (inr (a, m, q, at)) top below = elim (Bool-cases (a == e)) [
    | inl z ↦
        let same : a ≡ e = ground arith in
        let rest =
          q ∙ subst (λ y. after y (e ∷ x ∷ []) ≡ x ∷ []) (sym same) (after-first e (x ∷ [])) in
        absurd (unsettled x (x ∷ []) rest (ground arith) (omega arith))
    | inr z ↦
        let ne : a ≢ e = ground arith in
        let same : a ≡ x = ground arith in
        let rest = subst (λ y. after y (x ∷ []) ≡ []) (sym same) (after-first x []) in
        (q ∙ after-other a e (x ∷ []) ne ∙ rest, at ∙ same)
  ]
