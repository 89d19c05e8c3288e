-- ===== src/Malloc/GiveBack.antt =====
-- The loops of `c_free` of tlpi/c7/7.2.c, which give back every free block at the break.
use mathlib.Core.Path.{subst}
use textbooks.Base.{
  ℕ, zero, suc, ◌+◌, ◌%◌, ◌^◌, ◌≤◌, ◌<◌, ◌≡◌, refl, ◌≢◌, ◌⊎◌, inl, inr, Bool, true, false, ◌==◌,
  ◌∷◌, [], if◌then◌else◌, arith, Bool-cases, List, length, sym, ◌∙◌,
}
use textbooks.Base.Returns
use textbooks.Base.Returns.{Returns, returns}
use textbooks.Base.Int.{negsuc, signed32, neg_ℤ}
use textbooks.Malloc.Defs.{Kernel, FreeL, Heap, word, program_break, release, load}
use textbooks.Malloc.Chain.{
  has, after, Nodup, has-after, after-after, IsSbrk, IsSuffix, after-IsSuffix, IsSuffix-trans,
  length-after,
}
use textbooks.Malloc.FreeList.{first_top, find_top-first_top}
use textbooks.Malloc.Invariant.{IsHeap, IsHeap-release, IsHeap-AllMapped, pop_lem, mapped, chunk_of}

-- `r` is an entry that ends at `top`, or NULL where none does.
abbrev TopOf : (ℕ → FreeL) → ℕ → List ℕ → ℕ → Type 0
TopOf m top xs r =
    ((r ≡ 0) × ((a : ℕ) → has a xs ≡ true → top ≢ (a + 8 + chunk_of m a) % word))
    ⊎ ((has r xs ≡ true) × (top ≡ (r + 8 + chunk_of m r) % word))

TopOf-cons :
    (m : ℕ → FreeL) (top x r : ℕ) (xs : List ℕ)
    → top ≢ (x + 8 + chunk_of m x) % word
    → TopOf m top xs r
    → TopOf m top (x ∷ xs) r
TopOf-cons m top x r xs ne (inl (e, rest)) = inl (e, λ a h. ground (arith, rest a))
TopOf-cons m top x r xs ne (inr (h, e)) = inr (ground arith, e)

first_top-cons :
    (m : ℕ → FreeL) (top x : ℕ) (xs : List ℕ) (b : Bool)
    → (top == (x + 8 + chunk_of m x) % word) ≡ b
    → first_top m top (x ∷ xs) ≡ (if b then x else first_top m top xs)
unfolding first_top
first_top-cons m top x xs b e = rw e

first_top-TopOf : (m : ℕ → FreeL) (top : ℕ) (xs : List ℕ) → TopOf m top xs (first_top m top xs)
unfolding first_top
first_top-TopOf m top [] = inl (refl, λ a h. cc)
first_top-TopOf m top (x ∷ xs) = elim (Bool-cases (top == (x + 8 + chunk_of m x) % word)) [
  | inl t ↦
      subst (TopOf m top (x ∷ xs)) (sym (first_top-cons m top x xs true t))
        (inr (ground arith, ground arith))
  | inr t ↦
      subst (TopOf m top (x ∷ xs)) (sym (first_top-cons m top x xs false t))
        (TopOf-cons m top x (first_top m top xs) xs (ground arith) (first_top-TopOf m top xs))
]

-- No entry of the list ends at the break.
abbrev pub Settled : {k : Kernel} → Heap k → List ℕ → Type 0
Settled h ys = (a : ℕ) → has a ys ≡ true → a + 8 + chunk_of h.nodes a ≢ program_break h

-- The break is where it was and the list is `xs` still, or the break is at the last entry given back.
abbrev pub Lowered : {k : Kernel} → Heap k → List ℕ → Heap k → List ℕ → Type 0
Lowered h xs h' ys =
    ((ys ≡ xs) × (program_break h' ≡ program_break h))
    ⊎ ((e : ℕ) × (has e xs ≡ true) × (ys ≡ after e xs) × (program_break h' ≡ e))

-- `xs` has become its suffix `ys`; the break has not grown; headers are as they were.
abbrev pub Released : {k : Kernel} → ℕ → Heap k → (ℕ → Bool) → List ℕ → Heap k → Type 0
Released base h live xs h' =
    (ys : List ℕ) × IsSuffix ys xs
    × IsHeap base h' live ys
    × Settled h' ys
    × (h'.nodes ≡ h.nodes)
    × (program_break h' ≤ program_break h)
    × Lowered h xs h' ys

Lowered-after :
    {k : Kernel} (h : Heap k) (xs : List ℕ) (e : ℕ) (h1 h' : Heap k) (ys : List ℕ)
    → Nodup xs
    → has e xs ≡ true
    → program_break h1 ≡ e
    → Lowered h1 (after e xs) h' ys
    → Lowered h xs h' ys
Lowered-after h xs e h1 h' ys n m top (inl (same, at)) = inr (e, m, same, at ∙ top)
Lowered-after h xs e h1 h' ys n m top (inr (a, in_rest, same, at)) =
    inr (a, has-after e xs a in_rest, same ∙ after-after a e xs n in_rest, at)

shrink_by : (c : ℕ) → c + 8 < 2 ^ 31 → neg_ℤ (signed32 (8 + c)) ≡ negsuc (c + 7)
shrink_by c h = ground arith

-- The entry `e` is off the list and the break lowered by its size.
abbrev given_back : {k : Kernel} → Heap k → ℕ → Heap k
given_back {k} h e = record h {
  head = (h.nodes e).next;
  os = (k.sbrk (negsuc (chunk_of h.nodes e + 7)) h.os).1;
}

module _ {k : Kernel} {base : ℕ} (law : IsSbrk k base) where
  -- One round of `release` that finds the entry `e`.
  IsHeap-give_back :
      (h : Heap k) (live : ℕ → Bool) (xs : List ℕ) (e : ℕ)
      → IsHeap base h live xs
      → has e xs ≡ true
      → e + 8 + chunk_of h.nodes e ≡ program_break h
      → IsHeap base (given_back h e) live (after e xs)
  IsHeap-give_back h live xs e i m top =
      let b = i.layout.bounds e (ground arith) in
      IsHeap-release i _ e m top refl refl
        (omega (arith, law.shrinks (chunk_of h.nodes e + 7) h.os (omega arith)))

  pub release-Released :
      (rounds fuel : ℕ) (h : Heap k) (live : ℕ → Bool) (xs : List ℕ)
      → IsHeap base h live xs
      → program_break h < 2 ^ 63
      → length xs < rounds
      → length xs < fuel
      → Returns (λ _. Released base h live xs) (release rounds fuel h)
  unfolding release load
  release-Released zero fuel h live xs i room r f = absurd (omega arith)
  release-Released (suc rounds) fuel h live xs i room r f =
      rw
        (
          law.asks,
          find_top-first_top h fuel (program_break h) h.head xs i.chain (IsHeap-AllMapped i) f,
        )
        (elim (first_top-TopOf h.nodes (program_break h) xs) [
          | inl (e, rest) ↦ rw e (
              returns (
                xs,
                ([], refl),
                i,
                λ a m q. ground (arith, rest a m),
                refl,
                omega arith,
                inl (refl, refl),
              ))
          | inr (m, top) ↦
              let e = first_top h.nodes (program_break h) xs in
              let b = i.layout.bounds e (ground arith) in
              let nz : (e == 0) ≡ false = ground (arith, i.based) in
              let down = law.shrinks (chunk_of h.nodes e + 7) h.os (omega arith) in
              let i' = IsHeap-give_back h live xs e i m (omega arith) in
              rw (nz, pop_lem i e m, mapped i e (ground arith), shrink_by (chunk_of h.nodes e) b.2)
                (Returns.mono
                  (release-Released rounds fuel _ live (after e xs) i' (omega arith)
                    (omega (arith, length-after e xs m)) (omega (arith, length-after e xs m)))
                  λ _ h' (ys, suffix, ih, settled, same, le, low). (
                    ys,
                    IsSuffix-trans ys suffix (after-IsSuffix e xs),
                    ih,
                    settled,
                    same,
                    omega arith,
                    Lowered-after h xs e (given_back h e) h' ys i.nodup m (omega (arith, down)) low,
                  ))
        ])
