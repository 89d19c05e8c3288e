-- ===== src/Environ/Variables.antt =====
-- The environment as a function from names to values, which setenv and unsetenv change.
use mathlib.Core.Bool.{false≢true}
use textbooks.Base.{
  ℕ, suc, ◌+◌, ◌≡◌, ◌≢◌, ◌≤◌, ◌<◌, refl, sym, ap, ◌∙◌, ◌⊎◌, inl, inr, Bool, true, false, ◌&&◌, ◌||◌,
  ◌==◌, Option, none, some, List, [], ◌∷◌, if◌then◌else◌, arith, length, Bool-cases, int_max,
}
use textbooks.Base.Returns
use textbooks.Base.Returns.{Returns, returns}
use textbooks.Environ.Defs.{Library, Process, is_unset, c_setenv, c_unsetenv}
use textbooks.Environ.Entries.{
  IsLibrary, lookup, without, value_of, is_name, no_equals, no_equals-is_name, length-without,
  lookup-without,
}
use textbooks.Environ.Theorems.{Refused, c_setenv_lem, c_unsetenv-without}

abbrev pub Variables : Type 0
Variables = List ℕ → Option (List ℕ)

abbrev pub same_name : List ℕ → List ℕ → Bool
same_name [] [] = true
same_name [] (d ∷ ds) = false
same_name (c ∷ cs) [] = false
same_name (c ∷ cs) (d ∷ ds) = (c == d) && same_name cs ds

-- setenv(3) and unsetenv(3).
abbrev pub set_variable : List ℕ → List ℕ → Bool → Variables → Variables
set_variable name value overwrite m other =
    if same_name other name && (overwrite || is_unset (m name)) then some value else m other

abbrev pub unset_variable : List ℕ → Variables → Variables
unset_variable name m other = if same_name other name then none else m other

pub same_name-eq : (xs ys : List ℕ) → same_name xs ys ≡ true → xs ≡ ys
same_name-eq [] [] e = refl
same_name-eq [] (d ∷ ds) e = cc
same_name-eq (c ∷ cs) [] e = cc
same_name-eq (c ∷ cs) (d ∷ ds) e =
    let rest : cs ≡ ds = same_name-eq cs ds (ground (arith, e)) in
    let first : c ≡ d = ground (arith, e) in cc

pub same_name_refl : (xs : List ℕ) → same_name xs xs ≡ true
same_name_refl [] = refl
same_name_refl (x ∷ xs) = ground (arith, same_name_refl xs)

-- An entry gives a value to one name only.
value_of_one :
    (name other entry : List ℕ)
    → no_equals name ≡ true
    → no_equals other ≡ true
    → other ≢ name
    → is_unset (value_of name entry) ≡ false
    → is_unset (value_of other entry) ≡ true
value_of_one [] [] entry n o ne e = absurd (ne refl)
value_of_one [] (d ∷ ds) [] n o ne e = refl
value_of_one [] (d ∷ ds) (x ∷ xs) n o ne e = ground (arith, n, o, e)
value_of_one (c ∷ cs) [] [] n o ne e = refl
value_of_one (c ∷ cs) [] (x ∷ xs) n o ne e = ground (arith, n, o, e)
value_of_one (c ∷ cs) (d ∷ ds) [] n o ne e = refl
value_of_one (c ∷ cs) (d ∷ ds) (x ∷ xs) n o ne e = elim (Bool-cases (d == x)) [
  | inr y ↦ rw y refl
  | inl y ↦ elim (Bool-cases (c == x)) [
    | inr z ↦ absurd (false≢true (ground (arith, e, z)))
    | inl z ↦
        let same : d ≡ c = ground arith in
        rw y (
          value_of_one cs ds xs (ground (arith, n)) (ground (arith, o))
            (λ q. ne (rw (same, q) refl)) (ground (arith, e, z)))
  ]
]

lookup-without_other :
    (name other : List ℕ) (es : List (List ℕ))
    → no_equals name ≡ true
    → no_equals other ≡ true
    → other ≢ name
    → lookup other (without name es) ≡ lookup other es
lookup-without_other name other [] n o ne = refl
lookup-without_other name other (e ∷ es) n o ne =
    let rest = lookup-without_other name other es n o ne in
    elim (Bool-cases (is_unset (value_of name e))) [
      | inl y ↦ rw y (ap (λ x. if is_unset (value_of other e) then x else value_of other e) rest)
      | inr y ↦ rw (y, value_of_one name other e n o ne y) rest
    ]

module _ {k : Library} (law : IsLibrary k) where
  -- The variables of a process.
  abbrev pub Shows : Process k → Variables → Type 0
  Shows h m = (name : List ℕ) → is_name name ≡ true → lookup name (k.environ h.os) ≡ m name

  differs : (name other : List ℕ) → same_name other name ≡ false → other ≢ name
  differs name other y q = false≢true (sym y ∙ ap (λ x. same_name x name) q ∙ same_name_refl name)

  -- Where the allocation succeeds, `c_setenv` of a name and a value that are not empty and have no `=`
  -- returns 0. It does to the variables what setenv does: the variable is set where it was not set or
  -- is to be overwritten, and no other changes; or putenv fails, and no variable changes. At most one
  -- entry is added.
  pub c_setenv-Shows :
      (name value : List ℕ) (overwrite : Bool) (h : Process k) (m : Variables)
      → is_name name ≡ true
      → is_name value ≡ true
      → length name + length value + 2 ≤ int_max
      → (k.malloc (length name + length value + 2) h.os).0 ≡ true
      → Shows h m
      → Returns
          (λ r h'.
            (r ≡ true)
            × (Shows h' (set_variable name value overwrite m)
                ⊎ (Refused law name value h × Shows h' m))
            × (length (k.environ h'.os) ≤ suc (length (k.environ h.os))))
          (c_setenv (some name) (some value) overwrite h)
  c_setenv-Shows name value overwrite h m n v small got shows =
      Returns.mono (c_setenv_lem law name value overwrite h n v small got) λ r h' (e, how). (
        e,
        elim how [
          | inr (bad, same) ↦ inr (bad, λ other o. rw same (shows other o))
          | inl (now, others, size) ↦ inl λ other o. elim (Bool-cases (same_name other name)) [
            | inl y ↦ rw (y, same_name-eq other name y, ← shows name n) now
            | inr y ↦ rw y (others other o (differs name other y) ∙ shows other o)
          ]
        ],
        elim how [
          | inr (bad, same) ↦ omega (arith, ap (λ (l : List (List ℕ)). length l) same)
          | inl (now, others, size) ↦ size
        ],
      )

  -- With fuel for the environment, `c_unsetenv` of a name that is not empty and has no `=` returns 0
  -- and does to the variables what unsetenv does: the variable is removed, and no other changes. No
  -- entry is added.
  pub c_unsetenv-Shows :
      (fuel : ℕ) (name : List ℕ) (h : Process k) (m : Variables)
      → is_name name ≡ true
      → length (k.environ h.os) < fuel
      → Shows h m
      → Returns
          (λ r h'.
            (r ≡ true)
            × Shows h' (unset_variable name m)
            × (length (k.environ h'.os) ≤ length (k.environ h.os)))
          (c_unsetenv fuel (some name) h)
  c_unsetenv-Shows fuel name h m n enough shows =
      Returns.mono (c_unsetenv-without law fuel name h n enough) λ r h' (e, left). (
        e,
        λ other o. elim (Bool-cases (same_name other name)) [
          | inl y ↦ rw (y, left, same_name-eq other name y) (lookup-without name (k.environ h.os))
          | inr y ↦
              rw (y, left)
                (lookup-without_other name other (k.environ h.os) (no_equals-is_name name n)
                    (no_equals-is_name other o) (differs name other y)
                  ∙ shows other o)
        ],
        omega (
          arith,
          ap (λ (l : List (List ℕ)). length l) left,
          length-without name (k.environ h.os),
        ),
      )
