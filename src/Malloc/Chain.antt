-- ===== src/Malloc/Chain.antt =====
-- The shape of the free list of tlpi/c7/7.2.c, and what the allocator relies on in `sbrk`.
use textbooks.Base.{
  ℕ, suc, ◌+◌, ◌-◌, ◌≤◌, ◌<◌, ◌≡◌, ◌≢◌, ◌⊎◌, Bool, true, false, ◌||◌, List, [], ◌∷◌, ◌++◌, ◌==◌,
  refl, ap, sym, ◌∙◌, append_assoc, inl, inr, if◌then◌else◌, length, length-append, Bool-cases,
  arith,
}
use textbooks.Base.Int.{pos, negsuc}
use textbooks.Malloc.Defs.{Kernel, FreeL, word}

abbrev pub has : ℕ → List ℕ → Bool
has a [] = false
has a (x ∷ xs) = (a == x) || has a xs

abbrev pub Nodup : List ℕ → Type 0
Nodup [] = Unit
Nodup (x ∷ xs) = (has x xs ≡ false) × Nodup xs

-- From `p` the `next` pointers lead through `xs` to NULL, and every `previous` is NULL.
abbrev pub Chain : (ℕ → FreeL) → ℕ → List ℕ → Type 0
Chain m p [] = p ≡ 0
Chain m p (x ∷ xs) = (p ≡ x) × (0 < x) × ((m x).previous ≡ 0) × Chain m (m x).next xs

-- From `p` the `next` pointers lead through `xs` to NULL, and `previous` leads back to `before`.
abbrev pub DoubleChain : (ℕ → FreeL) → ℕ → ℕ → List ℕ → Type 0
DoubleChain m before p [] = p ≡ 0
DoubleChain m before p (x ∷ xs) =
    (p ≡ x) × (0 < x) × ((m x).previous ≡ before) × DoubleChain m x (m x).next xs

-- What sbrk(2) promises, above the address `base` at which the heap begins: a call with 0 asks for
-- the break, growth fails with (void *) -1 and leaves the break or returns the old break and moves it, and what was
-- given out can be taken back.
pub record IsSbrk (k : Kernel) (base : ℕ) : Type 0 where
  pub asks : (s : k.State) → (k.sbrk (pos 0) s).1 ≡ s
  pub grows :
      (n : ℕ) (s : k.State)
      → (((k.sbrk (pos n) s).0 ≡ word - 1)
          × ((k.sbrk (pos 0) (k.sbrk (pos n) s).1).0 ≡ (k.sbrk (pos 0) s).0))
        ⊎ (((k.sbrk (pos n) s).0 ≡ (k.sbrk (pos 0) s).0)
            × ((k.sbrk (pos 0) (k.sbrk (pos n) s).1).0 ≡ (k.sbrk (pos 0) s).0 + n))
  pub shrinks :
      (n : ℕ) (s : k.State)
      → base + suc n ≤ (k.sbrk (pos 0) s).0
      → (k.sbrk (pos 0) (k.sbrk (negsuc n) s).1).0 + suc n ≡ (k.sbrk (pos 0) s).0

-- What follows `e`.
unfoldable pub after : ℕ → List ℕ → List ℕ
after e [] = []
after e (x ∷ xs) = if e == x then xs else after e xs

pub has-after : (e : ℕ) (xs : List ℕ) (a : ℕ) → has a (after e xs) ≡ true → has a xs ≡ true
unfolding after
has-after e [] a h = h
has-after e (x ∷ xs) a h = ground (arith, has-after e xs a)

pub has-after_self : (e : ℕ) (xs : List ℕ) → Nodup xs → has e (after e xs) ≡ false
unfolding after
has-after_self e [] n = refl
has-after_self e (x ∷ xs) (out, n) = ground (arith, has-after_self e xs n)

pub Nodup-after : (e : ℕ) (xs : List ℕ) → Nodup xs → Nodup (after e xs)
unfolding after
Nodup-after e [] n = n
Nodup-after e (x ∷ xs) (out, n) = elim (Bool-cases (e == x)) [
  | inl q ↦ rw q n
  | inr q ↦ rw q (Nodup-after e xs n)
]

pub length-after : (e : ℕ) (xs : List ℕ) → has e xs ≡ true → length (after e xs) < length xs
unfolding after
length-after e [] h = cc
length-after e (x ∷ xs) h = ground (arith, length-after e xs)

-- What follows `a` behind `e` follows it in the whole list.
pub after-after :
    (a e : ℕ) (xs : List ℕ)
    → Nodup xs
    → has a (after e xs) ≡ true
    → after a (after e xs) ≡ after a xs
unfolding after
after-after a e [] n h = refl
after-after a e (x ∷ xs) (out, n) h = elim (Bool-cases (e == x)) [
  | inl q ↦ ground arith
  | inr q ↦ ground (arith, has-after e xs a, after-after a e xs n)
]

module _ (m : ℕ → FreeL) where
  pub Chain-after :
      (e p : ℕ) (xs : List ℕ) → Chain m p xs → has e xs ≡ true → Chain m (m e).next (after e xs)
  unfolding after
  Chain-after e p [] c h = cc
  Chain-after e p (x ∷ xs) (q, z, pr, c) h = elim (Bool-cases (e == x)) [
    | inl s ↦ let s' : e ≡ x = ground arith in rw (s, s') c
    | inr s ↦ rw s (Chain-after e (m x).next xs c (ground arith))
  ]

  pub Chain-has :
      (e p : ℕ) (xs : List ℕ) → Chain m p xs → has e xs ≡ true → (0 < e) × ((m e).previous ≡ 0)
  Chain-has e p [] c h = cc
  Chain-has e p (x ∷ xs) (q, z, pr, c) h = ground (arith, Chain-has e (m x).next xs c)

  pub has-head : (p : ℕ) (xs : List ℕ) → Chain m p xs → p ≢ 0 → has p xs ≡ true
  has-head p [] c h = absurd (h c)
  has-head p (x ∷ xs) (q, z, pr, c) h = ground arith

  pub head-nil : (p : ℕ) (xs : List ℕ) → Chain m p xs → p ≡ 0 → xs ≡ []
  head-nil p [] c h = refl
  head-nil p (x ∷ xs) (q, z, pr, c) h = absurd (omega arith)

  -- A chain survives any change that spares its entries.
  pub Chain-frame :
      (m' : ℕ → FreeL) (p : ℕ) (xs : List ℕ)
      → ((a : ℕ) → has a xs ≡ true → m' a ≡ m a)
      → Chain m p xs
      → Chain m' p xs
  Chain-frame m' p [] same c = c
  Chain-frame m' p (x ∷ xs) same (q, z, pr, c) =
      let s = same x (ground arith) in
      rw s (q, z, pr, Chain-frame m' (m x).next xs (λ a h. same a (ground arith)) c)

abbrev pub IsSuffix : List ℕ → List ℕ → Type 0
IsSuffix ys xs = (zs : List ℕ) × (xs ≡ zs ++ ys)

pub after-IsSuffix : (e : ℕ) (xs : List ℕ) → IsSuffix (after e xs) xs
unfolding after
after-IsSuffix e [] = ([], refl)
after-IsSuffix e (x ∷ xs) = elim (Bool-cases (e == x)) [
  | inl s ↦ rw s (x ∷ [], refl)
  | inr s ↦ let (zs, q) = after-IsSuffix e xs in rw s (x ∷ zs, ap (λ l. x ∷ l) q)
]

pub IsSuffix-trans :
    (zs : List ℕ) {ys xs : List ℕ} → IsSuffix zs ys → IsSuffix ys xs → IsSuffix zs xs
IsSuffix-trans zs (a, p) (b, q) = (b ++ a, q ∙ rw p (sym (append_assoc b a zs)))

pub length-IsSuffix : (ys xs : List ℕ) → IsSuffix ys xs → length ys ≤ length xs
length-IsSuffix ys xs (zs, e) = omega (arith, ap (λ (l : List ℕ). length l) e, length-append zs ys)

pub has-append : (a : ℕ) (xs ys : List ℕ) → has a (xs ++ ys) ≡ (has a xs || has a ys)
has-append a [] ys = refl
has-append a (x ∷ xs) ys = ground (arith, has-append a xs ys)

-- In a list without duplicates what stands before `e` differs from it and from what follows.
pub Nodup-split :
    (e : ℕ) (zs ys : List ℕ)
    → Nodup (zs ++ (e ∷ ys))
    → Nodup zs × (has e ys ≡ false) × ((a : ℕ) → has a zs ≡ true → (a ≢ e) × (has a ys ≡ false))
Nodup-split e [] ys (out, n) = (tt, out, λ a h. cc)
Nodup-split e (z ∷ zs) ys (out, n) =
    let (nz, oe, apart) = Nodup-split e zs ys n in
    let out' = has-append z zs (e ∷ ys) in ((ground arith, nz), oe, λ a h. ground (arith, apart a))

pub DoubleChain-frame :
    (m m' : ℕ → FreeL) (b p : ℕ) (xs : List ℕ)
    → ((a : ℕ) → has a xs ≡ true → m' a ≡ m a)
    → DoubleChain m b p xs
    → DoubleChain m' b p xs
DoubleChain-frame m m' b p [] same c = c
DoubleChain-frame m m' b p (x ∷ xs) same (q, z, pr, c) =
    let s = same x (ground arith) in
    rw s (q, z, pr, DoubleChain-frame m m' x (m x).next xs (λ a h. same a (ground arith)) c)

pub Nodup-right : (zs ys : List ℕ) → Nodup (zs ++ ys) → Nodup ys
Nodup-right [] ys n = n
Nodup-right (z ∷ zs) ys (out, n) = Nodup-right zs ys n
