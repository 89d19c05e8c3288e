-- ===== src/Squares/Bounds.antt =====
-- Of which ints doCalc of 6.1.c can print the square and the cube.
use textbooks.Base.{
  ℕ, zero, suc, ◌+◌, ◌*◌, ◌^◌, ◌≡◌, ◌≤◌, refl, ap, ◌∙◌, true, false, ◌&&◌, ltb, leb, List, [], ◌∷◌,
  ◌++◌, arith, if◌then◌else◌, Bool-cases, inl, inr, ok, fault, append_assoc,
}
use native.Mathlib.Nat.{mul_comm, mul-le-mul_left}
use textbooks.Base.Int.{ℤ, pos, negsuc, ltb_ℤ, leb_ℤ}
use textbooks.Squares.Defs.{minus, ◌*ℤ◌, is_int, Line, the_square, the_cube, square, cube, do_calc}

mul_le : (a b c d : ℕ) → a ≤ c → b ≤ d → a * b ≤ c * d
mul_le a b c d h h' =
    let left : a * b ≤ a * d = mul-le-mul_left a h' in
    let right : d * a ≤ d * c = mul-le-mul_left d h in
    omega (arith, left, right, mul_comm d a, mul_comm d c)

-- What is printed of a value, where the products are ints.
abbrev pub lines_of : ℤ → List Line
lines_of val =
    the_square val (val *ℤ val)
    ∷ (if ltb_ℤ val (pos 1000) then the_cube val (val *ℤ val *ℤ val) ∷ [] else [])

square_fits : (n : ℕ) → ltb (n * n) (2 ^ 31) ≡ leb n 46340
square_fits n = elim (Bool-cases (leb n 46340)) [
  | inl y ↦
      let small = mul_le n n 46340 46340 (ground arith) (ground arith) in ground (arith, y, small)
  | inr y ↦
      let large = mul_le 46341 46341 n n (ground arith) (ground arith) in ground (arith, y, large)
]

cube_fits : (n : ℕ) → leb (n * n * n) (2 ^ 31) ≡ leb n 1290
cube_fits n = elim (Bool-cases (leb n 1290)) [
  | inl y ↦
      let small = mul_le n n 1290 1290 (ground arith) (ground arith) in
      let small3 = mul_le (n * n) n (1290 * 1290) 1290 small (ground arith) in
      ground (arith, y, small3)
  | inr y ↦
      let large = mul_le 1291 1291 n n (ground arith) (ground arith) in
      let large3 = mul_le (1291 * 1291) 1291 (n * n) n large (ground arith) in
      ground (arith, y, large3)
]

is_int-minus : (n : ℕ) → is_int (minus n) ≡ leb n (2 ^ 31)
is_int-minus zero = refl
is_int-minus (suc n) = ground arith

-- `do_calc` prints the square, and the cube of a value below 1000, for the values from -1290 to 46340; for
-- all others a product is not an int.
pub do_calc-bounds :
    (val : ℤ) (out : List Line)
    → do_calc val out ≡ (
        if leb_ℤ (negsuc 1289) val && leb_ℤ val (pos 46340)
        then ok tt (out ++ lines_of val)
        else fault)
unfolding do_calc square cube
do_calc-bounds (pos n) out = elim (Bool-cases (leb n 46340)) [
  | inr y ↦
      let over : ltb (n * n) (2 ^ 31) ≡ false = square_fits n ∙ y in
      let range : (leb (0 + 0) (n + 1290) && leb (n + 0) (46340 + 0)) ≡ false = ground (arith, y) in
      rw (over, range) refl
  | inl y ↦
      let fits : ltb (n * n) (2 ^ 31) ≡ true = square_fits n ∙ y in
      let range : (leb (0 + 0) (n + 1290) && leb (n + 0) (46340 + 0)) ≡ true = ground (arith, y) in
      elim (Bool-cases (ltb (n + 0) (1000 + 0))) [
        | inr z ↦ rw (fits, range, z) refl
        | inl z ↦
            let small = mul_le n n 999 999 (ground (arith, z)) (ground (arith, z)) in
            let small3 = mul_le (n * n) n (999 * 999) 999 small (ground (arith, z)) in
            let fits3 : ltb (n * n * n) (2 ^ 31) ≡ true = ground (arith, small3) in
            rw (fits, range, z, fits3) (ap (λ l. ok tt l) (append_assoc out _ _))
      ]
]
do_calc-bounds (negsuc m) out =
    let below : ltb 0 (1000 + suc m) ≡ true = ground arith in
    let cubed = is_int-minus (suc m * suc m * suc m) ∙ cube_fits (suc m) in
    elim (Bool-cases (leb (suc m) 46340)) [
      | inr y ↦
          let over : ltb (suc m * suc m) (2 ^ 31) ≡ false = square_fits (suc m) ∙ y in
          let range : (leb (0 + suc m) 1290 && leb 0 (46340 + suc m)) ≡ false = ground (arith, y) in
          rw (over, range) refl
      | inl y ↦
          let fits : ltb (suc m * suc m) (2 ^ 31) ≡ true = square_fits (suc m) ∙ y in
          elim (Bool-cases (leb (suc m) 1290)) [
            | inr z ↦
                let over : is_int (minus (suc m * suc m * suc m)) ≡ false = cubed ∙ z in
                let range : (leb (0 + suc m) 1290 && leb 0 (46340 + suc m)) ≡ false =
                  ground (arith, z) in
                rw (fits, below, over, range) refl
            | inl z ↦
                let fits3 : is_int (minus (suc m * suc m * suc m)) ≡ true = cubed ∙ z in
                let range : (leb (0 + suc m) 1290 && leb 0 (46340 + suc m)) ≡ true =
                  ground (arith, z) in
                rw (fits, below, fits3, range) (ap (λ l. ok tt l) (append_assoc out _ _))
          ]
    ]
