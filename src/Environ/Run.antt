-- ===== src/Environ/Run.antt =====
-- What the main of 6.3.c does to the variables.
use mathlib.Core.Bool.{false≢true}
use textbooks.Base.{
  sym, ◌∙◌, inl, inr, ℕ, suc, ◌+◌, ◌≡◌, ◌≤◌, ◌<◌, refl, Bool, true, false, List, [], ◌∷◌, arith,
  length, int_max,
}
use textbooks.Base.Returns
use textbooks.Base.Returns.{Returns, returns}
use textbooks.Environ.Defs.{Library, Process, print_env}
use textbooks.Environ.Entries.{IsLibrary, is_name}
use textbooks.Environ.Variables.{
  Variables, set_variable, unset_variable, Shows, c_setenv-Shows, c_unsetenv-Shows,
}
use textbooks.Environ.Words.{
  hello, hello2, hello3, world, world1, world2, world3, putting, kept, updating, unset_hello,
  unset_hello3,
}
use textbooks.Environ.Demo.{show, set_or_exit, unset_or_exit, demo_main}

-- The variables after `main`.
abbrev pub demo_variables : Variables → Variables
demo_variables m = unset_variable hello3 (
    unset_variable hello (
      set_variable hello2 world1 false (
        set_variable hello world3 true
          (set_variable hello world2 false (set_variable hello world false m)))))

module _ {k : Library} (law : IsLibrary k)
    (allocates : (size : ℕ) (s : k.State) → (k.malloc size s).0 ≡ true)
    (puts : (entry : List ℕ) (s : k.State) → (k.putenv entry s).0 ≡ true) where
  -- The variables, in at most `n` entries.
  abbrev Within : ℕ → Variables → Process k → Type 0
  Within n m h = Shows law h m × (length (k.environ h.os) ≤ n)

  print_env-Within :
      (entries : List (List ℕ)) (n : ℕ) (m : Variables) (h : Process k)
      → Within n m h
      → Returns (λ _. Within n m) (print_env entries h)
  unfolding print_env
  print_env-Within [] n m h w = returns (rw (law.prints (10 ∷ []) h.os) w)
  print_env-Within (e ∷ entries) n m h w =
      print_env-Within entries n m (record h { os = k.puts e h.os }) (rw (law.prints e h.os) w)

  show-Within :
      (text : List ℕ) (n : ℕ) (m : Variables) (h : Process k)
      → Within n m h
      → Returns (λ _. Within n m) (show text h)
  unfolding show
  show-Within text n m h w =
      print_env-Within _ n m (record h { os = k.puts text h.os }) (rw (law.prints text h.os) w)

  set_or_exit-Within :
      (name value : List ℕ) (overwrite : Bool) (n : ℕ) (m : Variables) (h : Process k)
      → is_name name ≡ true
      → is_name value ≡ true
      → length name + length value + 2 ≤ int_max
      → Within n m h
      → Returns
          (λ _. Within (suc n) (set_variable name value overwrite m))
          (set_or_exit name value overwrite h)
  unfolding set_or_exit
  set_or_exit-Within name value overwrite n m h valid text small (shows, size) =
      Returns.bind
        (c_setenv-Shows law name value overwrite h m valid text small (allocates _ h.os) shows)
        λ r h' (e, how, more). rw e (
          returns {s = h'} (
            elim how [ inl now ↦ now | inr (bad, _) ↦ absurd (false≢true (sym bad ∙ puts _ _)) ],
            omega arith,
          ))

  unset_or_exit-Within :
      (fuel : ℕ) (name : List ℕ) (n : ℕ) (m : Variables) (h : Process k)
      → is_name name ≡ true
      → n < fuel
      → Within n m h
      → Returns (λ _. Within n (unset_variable name m)) (unset_or_exit fuel name h)
  unfolding unset_or_exit
  unset_or_exit-Within fuel name n m h valid enough (shows, size) =
      Returns.bind (c_unsetenv-Shows law fuel name h m valid (omega arith) shows)
        λ r h' (e, now, less). rw e (returns (now, omega arith))

  -- Where allocations and putenv succeed, with fuel for four more entries than the environment has, the
  -- `main` of 6.3.c returns, and the variables are those that the calls of setenv and unsetenv leave: in
  -- the end hello and hello3 have no value, hello2 has "world1" if it had no value, and the others are as
  -- before.
  pub demo_main-Shows :
      (fuel : ℕ) (h : Process k) (m : Variables)
      → length (k.environ h.os) + 4 < fuel
      → Shows law h m
      → Returns (λ _ h'. Shows law h' (demo_variables m)) (demo_main fuel h)
  unfolding demo_main
  demo_main-Shows fuel h m enough shows =
      let n = length (k.environ h.os) in
      Returns.bind (print_env-Within _ n m h (shows, omega arith)) λ _ h1 w1.
        Returns.bind (set_or_exit-Within hello world false n m h1 refl refl (omega arith) w1)
          λ _ h2 w2. Returns.bind (show-Within putting _ _ h2 w2) λ _ h3 w3.
            Returns.bind (set_or_exit-Within hello world2 false _ _ h3 refl refl (omega arith) w3)
              λ _ h4 w4. Returns.bind (show-Within kept _ _ h4 w4) λ _ h5 w5.
                Returns.bind
                  (set_or_exit-Within hello world3 true _ _ h5 refl refl (omega arith) w5)
                  λ _ h6 w6.
                    Returns.bind
                      (set_or_exit-Within hello2 world1 false _ _ h6 refl refl (omega arith) w6)
                      λ _ h7 w7. Returns.bind (show-Within updating _ _ h7 w7) λ _ h8 w8.
                        Returns.bind (unset_or_exit-Within fuel hello _ _ h8 refl (omega arith) w8)
                          λ _ h9 w9. Returns.bind (show-Within unset_hello _ _ h9 w9) λ _ h10 w10.
                            Returns.bind
                              (unset_or_exit-Within fuel hello3 _ _ h10 refl (omega arith) w10)
                              λ _ h11 w11.
                                Returns.mono (show-Within unset_hello3 _ _ h11 w11)
                                  λ _ h12 w12. w12.0
