-- ===== src/Tail/Places.antt =====
-- Where the last lines begin, and what a scan of a chunk says of it.
use textbooks.Base.{
  ℕ, suc, ◌+◌, ◌-◌, ◌≡◌, ◌≤◌, ◌⊎◌, sym, ap, ◌∙◌, inr, List, [], ◌∷◌, ◌++◌, append_assoc, arith,
  length, take, drop,
}
use textbooks.Posix.Splice.{take-add, take_all}
use textbooks.Tail.Defs.{newline}
use textbooks.Tail.Scan.{newlines, newlines_split, newlines_parts, take-take}

-- `o` is where the part of `c` with the last `n` newlines begins: behind another newline, or at the
-- beginning of a `c` that has at most `n`.
abbrev pub TailAt : ℕ → List ℕ → ℕ → Type 0
TailAt n c o =
    ((o ≡ 0) × (newlines c ≤ n))
    ⊎ ((j : ℕ) × (o ≡ suc j)
        × (take (suc j) c ≡ take j c ++ (newline ∷ []))
        × (newlines (drop (suc j) c) ≡ n))

-- A newline at `j` of the chunk `take m (drop p c)`, with `l` others behind it.
TailAt-chunk :
    (n l p m j : ℕ) (c : List ℕ)
    → let b = take m (drop p c) in
      n ≡ l + newlines (drop (p + m) c)
      → suc j ≤ m
      → take (suc j) b ≡ take j b ++ (newline ∷ [])
      → newlines b ≡ newlines (take (suc j) b) + l
      → TailAt n c (p + suc j)
TailAt-chunk n l p m j c e le found count =
    let here : take (suc j) (take m (drop p c)) ≡ take (suc j) (drop p c) =
      take-take (suc j) m (drop p c) le in
    let before : take j (take m (drop p c)) ≡ take j (drop p c) =
      take-take j m (drop p c) (omega arith) in
    let sum : p + suc j ≡ suc (p + j) = omega arith in
    inr (
      p + j,
      sum,
      ap (λ x. take x c) (sym sum)
          ∙ sym (take-add p (suc j) c)
          ∙ ap (λ (l : List ℕ). take p c ++ l)
              (sym here ∙ found ∙ ap (λ (l : List ℕ). l ++ (newline ∷ [])) before)
          ∙ sym (append_assoc (take p c) (take j (drop p c)) (newline ∷ []))
          ∙ ap (λ (l : List ℕ). l ++ (newline ∷ [])) (take-add p j c),
      ap (λ x. newlines (drop x c)) (sym sum)
          ∙ omega (
            arith,
            newlines_split (p + m) c,
            newlines_split (p + suc j) c,
            newlines_parts p m c,
            newlines_parts p (suc j) c,
            ap newlines here,
          ),
    )

module _ (n p q : ℕ) (b c : List ℕ) (le : p ≤ q) (chunk : b ≡ take (q - p) (drop p c))
    (size : length b ≡ q - p) where
  all_of : take (length b) b ≡ b
  all_of = take_all (length b) b (omega arith)

  back : p + (q - p) ≡ q
  back = omega arith

  -- The scan stopped.
  pub chunk-TailAt :
      (l j : ℕ)
      → n ≡ l + newlines (drop q c)
      → suc j ≤ length b
      → take (suc j) b ≡ take j b ++ (newline ∷ [])
      → newlines (take (length b) b) ≡ newlines (take (suc j) b) + l
      → TailAt n c (p + suc j)
  chunk-TailAt l j e inside found count =
      TailAt-chunk n l p (q - p) j c (rw back e) (omega (arith, size)) (rw chunk at found)
        (rw chunk at (ap newlines (sym all_of) ∙ count))

  -- The scan passed the chunk.
  pub newlines-chunk :
      (l l' : ℕ)
      → n ≡ l + newlines (drop q c)
      → l ≡ l' + newlines (take (length b) b)
      → n ≡ l' + newlines (drop p c)
  newlines-chunk l l' e count =
      let parts = newlines_parts p (q - p) c in
      let whole : newlines (take q c) ≡ newlines (take p c) + newlines b =
        ap (λ x. newlines (take x c)) (sym back)
        ∙ parts
        ∙ ap (λ (x : List ℕ). newlines (take p c) + newlines x) (sym chunk) in
      omega (arith, whole, newlines_split p c, newlines_split q c, ap newlines all_of)
