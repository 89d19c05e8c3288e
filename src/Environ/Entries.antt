-- ===== src/Environ/Entries.antt =====
-- The environment as a list of entries `name=value`, and what the C library promises of it.
use textbooks.Base.{
  ℕ, zero, suc, ◌+◌, ◌≡◌, ◌≢◌, ◌≤◌, ◌<◌, refl, ap, Bool, true, false, ◌&&◌, ◌==◌, Option, none,
  some, List, [], ◌∷◌, ◌++◌, not, if◌then◌else◌, arith, length, get_elem?, take,
}
use textbooks.Environ.Defs.{Library, equals, names, is_unset}

-- The value that an entry gives to `name`.
abbrev pub value_of : List ℕ → List ℕ → Option (List ℕ)
value_of [] [] = none
value_of [] (d ∷ e) = if d == equals then some e else none
value_of (c ∷ n) [] = none
value_of (c ∷ n) (d ∷ e) = let rest = value_of n e in if c == d then rest else none

-- The value of the first entry for `name`.
abbrev pub lookup : List ℕ → List (List ℕ) → Option (List ℕ)
lookup name [] = none
lookup name (e ∷ es) = if is_unset (value_of name e) then lookup name es else value_of name e

abbrev pub without : List ℕ → List (List ℕ) → List (List ℕ)
without name [] = []
without name (e ∷ es) = if is_unset (value_of name e) then e ∷ without name es else without name es

abbrev pub no_equals : List ℕ → Bool
no_equals [] = true
no_equals (c ∷ cs) = not (c == equals) && no_equals cs

-- A name: it is not empty and has no `=`.
abbrev pub is_name : List ℕ → Bool
is_name [] = false
is_name (c ∷ cs) = no_equals (c ∷ cs)

-- environ(7), getenv(3), putenv(3), unsetenv(3), and that the other calls leave the list alone.
pub record IsLibrary (k : Library) : Type 0 where
  pub gets :
      (name : List ℕ) (s : k.State)
      → is_name name ≡ true
      → k.getenv name s ≡ lookup name (k.environ s)
  pub puts_entry :
      (name value : List ℕ) (s : k.State)
      → is_name name ≡ true
      → (k.putenv (name ++ (equals ∷ value)) s).0 ≡ true
      → lookup name (k.environ (k.putenv (name ++ (equals ∷ value)) s).1) ≡ some value
  pub refuses :
      (entry : List ℕ) (s : k.State)
      → (k.putenv entry s).0 ≡ false
      → k.environ (k.putenv entry s).1 ≡ k.environ s
  pub spares :
      (name value other : List ℕ) (s : k.State)
      → is_name name ≡ true
      → is_name other ≡ true
      → other ≢ name
      → lookup other (k.environ (k.putenv (name ++ (equals ∷ value)) s).1)
        ≡ lookup other (k.environ s)
  pub removes :
      (name : List ℕ) (s : k.State)
      → is_name name ≡ true
      → ((k.unsetenv name s).0 ≡ true)
        × (k.environ (k.unsetenv name s).1 ≡ without name (k.environ s))
  pub adds :
      (entry : List ℕ) (s : k.State)
      → length (k.environ (k.putenv entry s).1) ≤ suc (length (k.environ s))
  pub allocates : (size : ℕ) (s : k.State) → k.environ (k.malloc size s).1 ≡ k.environ s
  pub prints : (line : List ℕ) (s : k.State) → k.environ (k.puts line s) ≡ k.environ s

-- The comparison of the code finds the entries that give a value to the name.
pub names-value_of :
    (name entry : List ℕ)
    → no_equals name ≡ true
    → names name entry ≡ not (is_unset (value_of name entry))
names-value_of [] [] h = refl
names-value_of [] (d ∷ e) h = ground arith
names-value_of (c ∷ n) [] h = refl
names-value_of (c ∷ n) (d ∷ e) h = ground (arith, names-value_of n e)

pub no_equals-is_name : (name : List ℕ) → is_name name ≡ true → no_equals name ≡ true
no_equals-is_name [] h = refl
no_equals-is_name (c ∷ cs) h = h

-- An entry is one for `name` where it is the name, `=` and the value.
pub value_of-append : (name value : List ℕ) → value_of name (name ++ (equals ∷ value)) ≡ some value
value_of-append [] value = refl
value_of-append (c ∷ n) value = ground (arith, value_of-append n value)

-- Without the entries for a name, no entry gives it a value, and no other name is affected.
pub lookup-without : (name : List ℕ) (es : List (List ℕ)) → lookup name (without name es) ≡ none
lookup-without name [] = refl
lookup-without name (e ∷ es) = ground (arith, lookup-without name es)

pub without-none :
    (name : List ℕ) (es : List (List ℕ)) → lookup name es ≡ none → without name es ≡ es
without-none name [] h = refl
without-none name (e ∷ es) h = ground (arith, without-none name es)

pub length-without : (name : List ℕ) (es : List (List ℕ)) → length (without name es) ≤ length es
length-without name [] = omega arith
length-without name (e ∷ es) = ground (arith, length-without name es)

pub unset_at :
    (name : List ℕ) (es : List (List ℕ)) (i : ℕ) (e : List ℕ)
    → lookup name es ≡ none
    → get_elem? es i ≡ some e
    → is_unset (value_of name e) ≡ true
unset_at name [] i e h g = cc
unset_at name (x ∷ xs) zero e h g = ground (arith, h, g)
unset_at name (x ∷ xs) (suc i) e h g = ground (arith, unset_at name xs i e, g)

-- The entries up to the one at `i` are not for `name`.
pub lookup-take :
    (name : List ℕ) (es : List (List ℕ)) (i : ℕ) (e : List ℕ)
    → lookup name (take i es) ≡ none
    → get_elem? es i ≡ some e
    → is_unset (value_of name e) ≡ true
    → lookup name (take (i + 1) es) ≡ none
lookup-take name [] i e h g u = cc
lookup-take name (x ∷ xs) zero e h g u = ground (arith, g, u)
lookup-take name (x ∷ xs) (suc i) e h g u = ground (arith, lookup-take name xs i e, h, g, u)

pub get_elem?-none : (es : List (List ℕ)) (i : ℕ) → get_elem? es i ≡ none → take i es ≡ es
get_elem?-none [] zero g = refl
get_elem?-none [] (suc i) g = refl
get_elem?-none (x ∷ xs) zero g = cc
get_elem?-none (x ∷ xs) (suc i) g = ap (λ (l : List (List ℕ)). x ∷ l) (get_elem?-none xs i g)

pub get_elem?-lt :
    (es : List (List ℕ)) (i : ℕ) (e : List ℕ) → get_elem? es i ≡ some e → i < length es
get_elem?-lt [] i e g = cc
get_elem?-lt (x ∷ xs) zero e g = omega arith
get_elem?-lt (x ∷ xs) (suc i) e g = omega (arith, get_elem?-lt xs i e g)
