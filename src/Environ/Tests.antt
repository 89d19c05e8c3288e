-- ===== src/Environ/Tests.antt =====
-- A C library whose newest entry comes first, and the theorems on it.
use mathlib.Core.Bool.{false≢true}
use textbooks.Base.{
  ◌⊎◌, sym, length, suc, ◌≤◌, ℕ, ◌≡◌, ◌≢◌, refl, true, false, ◌==◌, none, some, List, [], ◌∷◌, ◌++◌,
  arith, ok, inl, inr, Bool-cases, Run,
}
use textbooks.Base.Returns.{Returns}
use textbooks.Environ.Defs.{
  Library, Process, equals, scan, setenv_check, put_entry, put_valid, c_setenv, unset_from,
  c_unsetenv, print_env, str_length,
}
use textbooks.Environ.Entries.{
  IsLibrary, value_of, lookup, without, no_equals, value_of-append, no_equals-is_name,
}
use textbooks.Environ.Variables.{
  Shows, set_variable, unset_variable, c_setenv-Shows, c_unsetenv-Shows,
}
use textbooks.Environ.Words.{hello, hello2, world1}
use textbooks.Environ.Demo.{show, set_or_exit, unset_or_exit, demo_main}
use textbooks.Environ.Run.{demo_variables, demo_main-Shows}
use textbooks.Environ.Theorems.{Refused, c_setenv-rejects}

abbrev newest_first : Library
newest_first = record {
  State = List (List ℕ);
  environ = λ s. s;
  getenv = lookup;
  putenv = λ e s. (true, e ∷ s);
  unsetenv = λ name s. (true, without name s);
  malloc = λ size s. (true, s);
  puts = λ line s. s;
}

value_of-other :
    (other name value : List ℕ)
    → no_equals other ≡ true
    → no_equals name ≡ true
    → other ≢ name
    → value_of other (name ++ (equals ∷ value)) ≡ none
value_of-other [] [] value o n ne = absurd (ne refl)
value_of-other [] (d ∷ ds) value o n ne = ground (arith, n)
value_of-other (c ∷ cs) [] value o n ne = ground (arith, o)
value_of-other (c ∷ cs) (d ∷ ds) value o n ne = elim (Bool-cases (c == d)) [
  | inl y ↦
      let same : c ≡ d = ground arith in
      rw y (
        value_of-other cs ds value (ground (arith, o)) (ground (arith, n)) (λ q. ne (rw (same, q))))
  | inr y ↦ rw y
]

newest_first-IsLibrary : IsLibrary newest_first
newest_first-IsLibrary = record {
  gets = λ name s n. refl;
  puts_entry = λ name value s n good. rw (value_of-append name value);
  spares = λ name value other s n o ne.
      rw
        (value_of-other other name value (no_equals-is_name other o) (no_equals-is_name name n) ne);
  refuses = λ entry s bad. absurd (false≢true (sym bad));
  removes = λ name s n. (refl, refl);
  adds = λ entry s. omega arith;
  allocates = λ size s. refl;
  prints = λ line s. refl;
}

-- "A=1" and "B=2"
abbrev two_vars : Process newest_first
two_vars = record { errno = 0; os = (65 ∷ (61 ∷ (49 ∷ []))) ∷ ((66 ∷ (61 ∷ (50 ∷ []))) ∷ []) }

c_setenv-rejects_example :
    c_setenv (some (65 ∷ [])) (some []) true two_vars ≡ ok false (record two_vars { errno = 22 })
c_setenv-rejects_example =
    c_setenv-rejects (65 ∷ []) [] true two_vars refl (omega arith) (omega arith)

-- `main` sets "A" without overwriting it, then with, and removes it.
abbrev vars : {A : Type 0} → Run (Process newest_first) A → List (List ℕ)
vars (ok a h) = h.os
vars _ = []

kept : vars (c_setenv (some (65 ∷ [])) (some (51 ∷ [])) false two_vars) ≡ two_vars.os
unfolding scan setenv_check put_entry put_valid c_setenv
kept = refl

replaced :
    vars (c_setenv (some (65 ∷ [])) (some (51 ∷ [])) true two_vars)
    ≡ (65 ∷ (61 ∷ (51 ∷ []))) ∷ two_vars.os
unfolding scan setenv_check put_entry put_valid c_setenv
replaced = refl

removed : vars (c_unsetenv 3 (some (65 ∷ [])) two_vars) ≡ (66 ∷ (61 ∷ (50 ∷ []))) ∷ []
unfolding unset_from c_unsetenv
removed = refl

printed : vars (print_env two_vars.os two_vars) ≡ two_vars.os
unfolding print_env
printed = refl

str_length-three : str_length (some (65 ∷ (66 ∷ (67 ∷ [])))) ≡ 3
str_length-three = refl

c_setenv-Shows_example :
    Returns
      (λ r h'.
        (r ≡ true)
        × (Shows newest_first-IsLibrary h'
              (set_variable (65 ∷ []) (51 ∷ []) false (λ name. lookup name two_vars.os))
            ⊎ (Refused newest_first-IsLibrary (65 ∷ []) (51 ∷ []) two_vars
                × Shows newest_first-IsLibrary h' (λ name. lookup name two_vars.os)))
        × (length h'.os ≤ suc (length two_vars.os)))
      (c_setenv (some (65 ∷ [])) (some (51 ∷ [])) false two_vars)
c_setenv-Shows_example =
    c_setenv-Shows newest_first-IsLibrary (65 ∷ []) (51 ∷ []) false two_vars
      (λ name. lookup name two_vars.os) refl refl (omega arith) refl (λ name n. refl)

c_unsetenv-Shows_example :
    Returns
      (λ r h'.
        (r ≡ true)
        × Shows newest_first-IsLibrary h'
            (unset_variable (65 ∷ []) (λ name. lookup name two_vars.os))
        × (length h'.os ≤ length two_vars.os))
      (c_unsetenv 3 (some (65 ∷ [])) two_vars)
c_unsetenv-Shows_example =
    c_unsetenv-Shows newest_first-IsLibrary 3 (65 ∷ []) two_vars (λ name. lookup name two_vars.os)
      refl (omega arith) (λ name n. refl)

demo_main-Shows_example :
    Returns
      (λ _ h'. Shows newest_first-IsLibrary h' (demo_variables (λ name. lookup name two_vars.os)))
      (demo_main 7 two_vars)
demo_main-Shows_example =
    demo_main-Shows newest_first-IsLibrary (λ size s. refl) (λ entry s. refl) 7 two_vars
      (λ name. lookup name two_vars.os) (omega arith) (λ name n. refl)

-- In the end only hello2 is new.
demo_left : vars (demo_main 7 two_vars) ≡ (hello2 ++ (equals ∷ world1)) ∷ two_vars.os
unfolding scan setenv_check put_entry put_valid c_setenv unset_from c_unsetenv print_env show
    set_or_exit unset_or_exit demo_main
demo_left = refl

demo_variables-hello : demo_variables (λ name. none) hello ≡ none
demo_variables-hello = refl
