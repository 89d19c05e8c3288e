-- ===== src/Malloc/Layout.antt =====
-- Blocks of memory that do not overlap, between the start of the heap and the program break.
use textbooks.Base.{
  ℕ, ◌+◌, ◌^◌, ◌≤◌, ◌<◌, ◌≡◌, ◌≢◌, ◌⊎◌, inl, inr, Bool, true, false, ◌==◌, arith, Bool-cases,
}

-- The header of a block at `a` takes 8 bytes, and its chunk `chunk a`.
abbrev pub InBounds : ℕ → ℕ → (ℕ → ℕ) → ℕ → Type 0
InBounds base top chunk a =
    (base ≤ a) × (16 ≤ chunk a) × (chunk a + 8 < 2 ^ 31) × (a + 8 + chunk a ≤ top)

abbrev pub Apart : (ℕ → ℕ) → ℕ → ℕ → Type 0
Apart chunk a b = (a + 8 + chunk a ≤ b) ⊎ (b + 8 + chunk b ≤ a)

pub record Layout (base top : ℕ) (chunk : ℕ → ℕ) (used : ℕ → Bool) : Type 0 where
  pub bounds : (a : ℕ) → used a ≡ true → InBounds base top chunk a
  pub apart : (a b : ℕ) → used a ≡ true → used b ≡ true → a ≢ b → Apart chunk a b

module _ {base top : ℕ} {chunk : ℕ → ℕ} {used : ℕ → Bool} (l : Layout base top chunk used) where
  -- Fewer blocks, whose sizes are the same.
  pub Layout-sub :
      (chunk' : ℕ → ℕ) (used' : ℕ → Bool)
      → ((a : ℕ) → used' a ≡ true → (used a ≡ true) × (chunk' a ≡ chunk a))
      → Layout base top chunk' used'
  Layout-sub chunk' used' sub = record {
    bounds = λ a u. ground (arith, l.bounds a, sub a u);
    apart = λ a b u v ne. ground (arith, l.apart a b (sub a u).0 (sub b v).0 ne, sub a u, sub b v);
  }

  -- One more block from the old top to the new.
  pub Layout-grow :
      (n : ℕ) (chunk' : ℕ → ℕ) (used' : ℕ → Bool)
      → base ≤ top
      → chunk' top ≡ n
      → 16 ≤ n
      → n + 8 < 2 ^ 31
      → ((a : ℕ) → used' a ≡ true → a ≢ top → (used a ≡ true) × (chunk' a ≡ chunk a))
      → Layout base (top + 8 + n) chunk' used'
  Layout-grow n chunk' used' b e lo hi sub = record {
    bounds = λ a u. bounds' a u (Bool-cases (a == top));
    apart = λ a c u v ne. apart' a c u v ne (Bool-cases (a == top)) (Bool-cases (c == top));
  }
    where
      bounds' :
          (a : ℕ)
          → used' a ≡ true
          → ((a == top) ≡ true) ⊎ ((a == top) ≡ false)
          → InBounds base (top + 8 + n) chunk' a
      bounds' a u (inl q) = ground arith
      bounds' a u (inr q) = let (m, s) = sub a u (ground arith) in ground (arith, l.bounds a m)

      apart' :
          (a c : ℕ)
          → used' a ≡ true
          → used' c ≡ true
          → a ≢ c
          → ((a == top) ≡ true) ⊎ ((a == top) ≡ false)
          → ((c == top) ≡ true) ⊎ ((c == top) ≡ false)
          → Apart chunk' a c
      apart' a c u v ne (inl p) (inl q) = absurd (ne (ground arith))
      apart' a c u v ne (inl p) (inr q) =
          let (m, s) = sub c v (ground arith) in inr (ground (arith, l.bounds c m))
      apart' a c u v ne (inr p) (inl q) =
          let (m, s) = sub a u (ground arith) in inl (ground (arith, l.bounds a m))
      apart' a c u v ne (inr p) (inr q) =
          let (m, s) = sub a u (ground arith) in
          let (m', s') = sub c v (ground arith) in ground (arith, l.apart a c m m' ne)

  -- Without the block that ends at the top, the top is its address.
  pub Layout-shrink :
      (e : ℕ) (used' : ℕ → Bool)
      → used e ≡ true
      → e + 8 + chunk e ≡ top
      → ((a : ℕ) → used' a ≡ true → (used a ≡ true) × (a ≢ e))
      → Layout base e chunk used'
  Layout-shrink e used' m t sub = record {
    bounds = λ a u.
        let (u', ne) = sub a u in ground (arith, l.bounds a u', l.bounds e m, l.apart a e u' m ne);
    apart = λ a b u v ne. l.apart a b (sub a u).0 (sub b v).0 ne;
  }
