-- ===== src/Tail/Scan.antt =====
-- The backward loop over one chunk finds the newline behind which `lines` newlines stand.
use textbooks.Base.{
  ℕ, zero, suc, ◌+◌, ◌≡◌, ◌≤◌, ◌<◌, ◌⊎◌, refl, sym, ap, ◌∙◌, inl, inr, true, false, ◌==◌,
  if◌then◌else◌, List, [], ◌∷◌, ◌++◌, arith, length, take, drop, get_or, take-append-drop,
  Bool-cases, ltb,
}
use textbooks.Base.Int.{ℤ, pos, negsuc}
use textbooks.Posix.Splice.{take-add}
use textbooks.Tail.Defs.{newline, scan_back}

abbrev pub newlines : List ℕ → ℕ
newlines [] = 0
newlines (b ∷ bs) = (if b == newline then 1 else 0) + newlines bs

pub newlines-append : (xs ys : List ℕ) → newlines (xs ++ ys) ≡ newlines xs + newlines ys
newlines-append [] ys = omega arith
newlines-append (x ∷ xs) ys = omega (arith, newlines-append xs ys)

take-suc : (i : ℕ) (b : List ℕ) → i < length b → take (suc i) b ≡ take i b ++ (get_or b i 0 ∷ [])
take-suc i [] h = absurd (omega arith)
take-suc zero (x ∷ b) h = refl
take-suc (suc i) (x ∷ b) h = ap (λ (l : List ℕ). x ∷ l) (take-suc i b (omega arith))

-- With `l` lines to go: so many newlines are not there, or the scan stops behind a newline that is
-- followed by `l` others.
abbrev Stops : List ℕ → ℕ → ℕ → ℤ × ℕ → Type 0
Stops b i l r =
    ((l' : ℕ) × (r ≡ (pos l', 0)) × (l ≡ l' + newlines (take i b)))
    ⊎ ((j : ℕ) × (r ≡ (negsuc 0, suc j))
        × (suc j ≤ i)
        × (take (suc j) b ≡ take j b ++ (newline ∷ []))
        × (newlines (take i b) ≡ newlines (take (suc j) b) + l))

module _ (b : List ℕ) (i : ℕ) (inside : suc i ≤ length b) where
  newlines_next :
      newlines (take (suc i) b) ≡ newlines (take i b) + (if get_or b i 0 == newline then 1 else 0)
  newlines_next =
      ap newlines (take-suc i b (omega arith))
      ∙ newlines-append (take i b) (get_or b i 0 ∷ [])
      ∙ omega arith

  at_newline : (get_or b i 0 == newline) ≡ true → take (suc i) b ≡ take i b ++ (newline ∷ [])
  at_newline y =
      let e : get_or b i 0 ≡ newline = ground arith in
      take-suc i b (omega arith) ∙ ap (λ x. take i b ++ (x ∷ [])) e

  -- A byte more in front of what was scanned.
  Stops-suc :
      (l l₀ : ℕ) (r : ℤ × ℕ)
      → l₀ ≡ (if get_or b i 0 == newline then 1 else 0) + l
      → Stops b i l r
      → Stops b (suc i) l₀ r
  Stops-suc l l₀ r e (inl (l', q, c)) = inl (l', q, omega (arith, newlines_next))
  Stops-suc l l₀ r e (inr (j, q, le, found, c)) =
      inr (j, q, omega arith, found, omega (arith, newlines_next))

pub scan_back-Stops : (b : List ℕ) (i l : ℕ) → i ≤ length b → Stops b i l (scan_back b i (pos l))
unfolding scan_back
scan_back-Stops b zero l h = inl (l, refl, omega arith)
scan_back-Stops b (suc i) zero h = elim (Bool-cases (get_or b i 0 == newline)) [
  | inl y ↦ rw y (inr (i, refl, omega arith, at_newline b i h y, omega arith))
  | inr n ↦ rw n (Stops-suc b i h 0 0 _ (rw n) (scan_back-Stops b i 0 (omega arith)))
]
scan_back-Stops b (suc i) (suc l) h = elim (Bool-cases (get_or b i 0 == newline)) [
  | inl y ↦
      let more : ltb (l + 0) 0 ≡ false = ground arith in
      rw (y, more)
        (Stops-suc b i h l (suc l) _ (rw y (omega arith)) (scan_back-Stops b i l (omega arith)))
  | inr n ↦ rw n (
      Stops-suc b i h (suc l) (suc l) _ (rw n (omega arith))
        (scan_back-Stops b i (suc l) (omega arith)))
]

pub newlines_split : (x : ℕ) (c : List ℕ) → newlines c ≡ newlines (take x c) + newlines (drop x c)
newlines_split x c =
    ap newlines (sym (take-append-drop x c)) ∙ newlines-append (take x c) (drop x c)

pub newlines_parts :
    (p m : ℕ) (c : List ℕ)
    → newlines (take (p + m) c) ≡ newlines (take p c) + newlines (take m (drop p c))
newlines_parts p m c =
    ap newlines (sym (take-add p m c)) ∙ newlines-append (take p c) (take m (drop p c))

pub take-take : (j m : ℕ) (xs : List ℕ) → j ≤ m → take j (take m xs) ≡ take j xs
take-take zero m xs h = refl
take-take (suc j) zero xs h = absurd (omega arith)
take-take (suc j) (suc m) [] h = refl
take-take (suc j) (suc m) (x ∷ xs) h = ap (λ (l : List ℕ). x ∷ l) (take-take j m xs (omega arith))
