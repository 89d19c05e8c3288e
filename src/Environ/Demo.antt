-- ===== src/Environ/Demo.antt =====
-- `main` of tlpi/c6/6.3.c.
use textbooks.Base.{
  ℕ, Bool, true, false, some, List, Cmd, ok, pure, exits, exit_failure, ◌>>=◌, ◌>>◌,
}
use textbooks.Environ.Words.{
  hello, hello2, hello3, world, world1, world2, world3, putting, kept, updating, unset_hello,
  unset_hello3,
}
use textbooks.Environ.Defs.{Library, Process, c_setenv, c_unsetenv, print_all}

module _ {k : Library} where
  abbrev pub expect_success : Bool → Cmd (Process k) (Unit {0})
  expect_success true = pure tt
  expect_success false = exits exit_failure

  -- A call of `puts`, and the environment.
  unfoldable pub show : List ℕ → Cmd (Process k) (Unit {0})
  show text = do (λ h. ok tt (record h { os = k.puts text h.os })); print_all

  unfoldable pub set_or_exit : List ℕ → List ℕ → Bool → Cmd (Process k) (Unit {0})
  set_or_exit name value overwrite = do
    status ← c_setenv (some name) (some value) overwrite
    expect_success status

  unfoldable pub unset_or_exit : ℕ → List ℕ → Cmd (Process k) (Unit {0})
  unset_or_exit fuel name = do status ← c_unsetenv fuel (some name); expect_success status

  unfoldable pub demo_main : ℕ → Cmd (Process k) (Unit {0})
  demo_main fuel = do
    print_all
    set_or_exit hello world false
    show putting
    set_or_exit hello world2 false
    show kept
    set_or_exit hello world3 true
    set_or_exit hello2 world1 false
    show updating
    unset_or_exit fuel hello
    show unset_hello
    unset_or_exit fuel hello3
    show unset_hello3
