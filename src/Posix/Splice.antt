-- ===== src/Posix/Splice.antt =====
-- Lists of bytes: the parts that reads return, and writes at the end of a file or behind it.
use mathlib.Core.List.{append-nil, append_assoc}
use textbooks.Base.{
  ℕ, zero, suc, ◌+◌, ◌-◌, ◌≡◌, ◌≤◌, refl, sym, ap, List, [], ◌∷◌, ◌++◌, arith, length, take, drop,
  replicate, length-append, length-replicate, ◌∙◌,
}
use textbooks.Posix.Files.{splice}

suc_add : (a b : ℕ) → suc a + b ≡ suc (a + b)
suc_add a b = omega arith

pub take_nil : (n : ℕ) → take {A = ℕ} n [] ≡ []
take_nil zero = refl
take_nil (suc n) = refl

pub take-add : (o m : ℕ) (c : List ℕ) → take o c ++ take m (drop o c) ≡ take (o + m) c
take-add zero m c = rw zero_add
  where
    zero_add : zero + m ≡ m
    zero_add = omega arith
take-add (suc o) zero [] = rw (suc_add o zero)
take-add (suc o) (suc m) [] = rw (suc_add o (suc m))
take-add (suc o) m (x ∷ c) = rw (suc_add o m) (ap (λ l. x ∷ l) (take-add o m c))

pub take_all : (n : ℕ) (c : List ℕ) → length c ≤ n → take n c ≡ c
take_all n [] h = take_nil n
take_all zero (x ∷ c) h = absurd (omega arith)
take_all (suc n) (x ∷ c) h = ap (λ l. x ∷ l) (take_all n c (omega arith))

pub drop_all : (n : ℕ) (c : List ℕ) → length c ≤ n → drop n c ≡ []
drop_all zero [] h = refl
drop_all (suc n) [] h = refl
drop_all zero (x ∷ c) h = absurd (omega arith)
drop_all (suc n) (x ∷ c) h = drop_all n c (omega arith)

-- Behind the end a write appends, after as many null bytes as are missing.
pub splice_past :
    (x : List ℕ) (k : ℕ) (b : ℕ) (bs : List ℕ)
    → splice x (length x + k) (b ∷ bs) ≡ (x ++ replicate k 0) ++ (b ∷ bs)
splice_past x k b bs =
    let gap : length x + k - length x ≡ k = omega arith in
    let whole : length (x ++ replicate k 0) ≤ length x + k =
      omega (arith, length-append x (replicate k 0), length-replicate {0} {A = ℕ} k 0) in
    rw (
      gap,
      take_all (length x + k) (x ++ replicate k 0) whole,
      drop_all (length x + k + suc (length bs)) x (omega arith),
      append-nil,
    )

pub splice_end : (x bs : List ℕ) → splice x (length x) bs ≡ x ++ bs
splice_end x [] = rw append-nil
splice_end x (b ∷ bs) =
    let here : length x ≡ length x + 0 = omega arith in
    ap (λ n. splice x n (b ∷ bs)) here ∙ splice_past x 0 b bs ∙ rw append-nil

pub take_front : (xs ys : List ℕ) → take (length xs) (xs ++ ys) ≡ xs
take_front [] ys = refl
take_front (x ∷ xs) ys = ap (λ (l : List ℕ). x ∷ l) (take_front xs ys)

pub drop_front : (xs ys : List ℕ) (n : ℕ) → drop (length xs + n) (xs ++ ys) ≡ drop n ys
drop_front [] ys n = let z : 0 + n ≡ n = omega arith in rw z
drop_front (x ∷ xs) ys n =
    let s : suc (length xs) + n ≡ suc (length xs + n) = omega arith in rw s (drop_front xs ys n)

pub drop-drop : (m n : ℕ) (c : List ℕ) → drop n (drop m c) ≡ drop (m + n) c
drop-drop zero n c = let z : 0 + n ≡ n = omega arith in rw z
drop-drop (suc m) zero [] = let s : suc m + 0 ≡ suc (m + 0) = omega arith in rw s
drop-drop (suc m) (suc n) [] = let s : suc m + suc n ≡ suc (m + suc n) = omega arith in rw s
drop-drop (suc m) n (x ∷ c) =
    let s : suc m + n ≡ suc (m + n) = omega arith in rw s (drop-drop m n c)

-- Bytes put behind those that already replace the beginning of `c`.
pub splice_front :
    (w c bs : List ℕ)
    → splice (w ++ drop (length w) c) (length w) bs ≡ (w ++ bs) ++ drop (length (w ++ bs)) c
splice_front w c [] = rw append-nil
splice_front w c (b ∷ bs) =
    let x = w ++ drop (length w) c in
    let front : take (length w) (x ++ replicate (length w - length x) 0) ≡ w =
      ap (take (length w)) (append_assoc w (drop (length w) c) (replicate (length w - length x) 0))
      ∙ take_front w _ in
    let back : drop (length w + length (b ∷ bs)) x ≡ drop (length w + length (b ∷ bs)) c =
      drop_front w (drop (length w) c) (length (b ∷ bs))
      ∙ drop-drop (length w) (length (b ∷ bs)) c in
    rw (front, back, length-append w (b ∷ bs)) (sym (append_assoc w (b ∷ bs) _))
