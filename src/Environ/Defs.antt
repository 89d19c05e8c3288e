-- ===== src/Environ/Defs.antt =====
-- Operations of tlpi/c6/6.3.c. A string is the list of its characters before the null byte, and a
-- `char*` may be NULL. An index or a sum beyond INT_MAX is undefined: a fault.
use textbooks.Base.{
  ℕ, zero, suc, ◌+◌, Bool, true, false, not, ◌&&◌, ◌||◌, Option, none, some, List, [], ◌∷◌, ◌++◌,
  ltb, ◌==◌, take, length, get_elem?, if◌then◌else◌, ok, fault, out_of_fuel, Cmd, pure, int_max,
  einval, ◌>>=◌,
}

-- The C library: `environ` is the list of the entries before NULL.
pub record Library : Type 1 where
  pub State : Type 0
  pub environ : State → List (List ℕ)
  pub getenv : List ℕ → State → Option (List ℕ)
  -- Whether the entry was put.
  pub putenv : List ℕ → State → Bool × State
  pub unsetenv : List ℕ → State → Bool × State
  -- Whether the allocation succeeds.
  pub malloc : ℕ → State → Bool × State
  pub puts : List ℕ → State → State

-- `=`
abbrev pub equals : ℕ
equals = 61

pub record Process (k : Library) : Type 0 where
  pub errno : ℕ
  pub os : k.State

-- The end of the comparison of `name` with an entry: the characters agree up to the `=` of the entry.
abbrev pub names : List ℕ → List ℕ → Bool
names [] [] = false
names [] (d ∷ e) = d == equals
names (c ∷ n) [] = false
names (c ∷ n) (d ∷ e) =
    let rest = names n e in if not (d == equals) && (c == d) then rest else false

abbrev pub str_length : Option (List ℕ) → ℕ
str_length none = 0
str_length (some str) = count 0 str
  where
    count : ℕ → List ℕ → ℕ
    count n [] = n
    count n (c ∷ cs) = count (n + 1) cs

abbrev pub is_unset : Option (List ℕ) → Bool
is_unset none = true
is_unset (some _) = false

-- "unsetting"
abbrev pub unsetting : List ℕ
unsetting = 117 ∷ (110 ∷ (115 ∷ (101 ∷ (116 ∷ (116 ∷ (105 ∷ (110 ∷ (103 ∷ []))))))))

module _ {k : Library} where
  -- `errno = EINVAL; return -1`
  abbrev pub invalid : Cmd (Process k) (Option ℕ)
  invalid h = ok none (record h { errno = einval })

  -- The loop of `setenv_check`.
  unfoldable pub scan : ℕ → List ℕ → Cmd (Process k) (Option ℕ)
  scan nlet [] = pure (some nlet)
  scan nlet (c ∷ cs) =
      let rest = scan (nlet + 1) cs in
      if c == equals then invalid else if nlet == int_max then (λ _. fault) else rest

  -- `none` stands for -1.
  unfoldable pub setenv_check : Option (List ℕ) → Cmd (Process k) (Option ℕ)
  setenv_check none = invalid
  setenv_check (some []) = invalid
  setenv_check (some (c ∷ cs)) = scan 0 (c ∷ cs)

  -- `sprintf` into a buffer of `size` bytes, the null byte at `size - 1`, and `putenv`, whose result the
  -- code does not look at.
  unfoldable pub put_entry : ℕ → ℕ → List ℕ → Cmd (Process k) Bool
  put_entry s_name s_value text h =
      let size = s_name + s_value + 2 in
      let (allocated, os') = k.malloc size h.os in
      if ltb int_max size
      then fault
      else if not allocated
      then fault
      else if ltb size (length text + 1)
      then fault
      else (let (_, os'') = k.putenv (take (s_name + s_value + 1) text) os' in
          ok true (record h { os = os'' }))

  -- `c_setenv` behind the checks, with the lengths that they returned.
  unfoldable pub put_valid : ℕ → ℕ → Option (List ℕ) → Option (List ℕ) → Bool → Cmd (Process k) Bool
  put_valid s_name s_value (some n) (some v) overwrite h =
      if overwrite || is_unset (k.getenv n h.os)
      then put_entry s_name s_value (n ++ (equals ∷ v)) h
      else ok true h
  put_valid s_name s_value _ _ overwrite h = fault

  -- `false` stands for -1.
  unfoldable pub c_setenv : Option (List ℕ) → Option (List ℕ) → Bool → Cmd (Process k) Bool
  c_setenv name value overwrite = do
    n ← setenv_check name
    elim n [
      | none ↦ pure false
      | some s_name ↦ do
        v ← setenv_check value
        elim v [ none ↦ pure false | some s_value ↦ put_valid s_name s_value name value overwrite ]
    ]

  -- The loop of `c_unsetenv` from the entry at `i` on. At and behind the end of the list is NULL.
  unfoldable pub unset_from : ℕ → List ℕ → ℕ → Cmd (Process k) Bool
  unset_from zero name i h = out_of_fuel
  unset_from (suc fuel) name i h = elim (get_elem? (k.environ h.os) i) [
    | none ↦ ok true h
    | some entry ↦
        let (removed, os') = k.unsetenv name (k.puts unsetting h.os) in
        let next = unset_from fuel name (i + 1) in
        if names name entry
        then (if removed then next (record h { os = os' }) else ok false (record h { os = os' }))
        else next h
  ]

  unfoldable pub c_unsetenv : ℕ → Option (List ℕ) → Cmd (Process k) Bool
  c_unsetenv fuel none h = ok false (record h { errno = einval })
  c_unsetenv fuel (some []) h = ok false (record h { errno = einval })
  c_unsetenv fuel (some (c ∷ cs)) h = unset_from fuel (c ∷ cs) 0 h

  -- The loop of `print_env`, and its last line.
  unfoldable pub print_env : List (List ℕ) → Cmd (Process k) (Unit {0})
  print_env [] h = ok tt (record h { os = k.puts (10 ∷ []) h.os })
  print_env (e ∷ entries) h = print_env entries (record h { os = k.puts e h.os })

  abbrev pub print_all : Cmd (Process k) (Unit {0})
  print_all h = print_env (k.environ h.os) h
