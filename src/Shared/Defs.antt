-- ===== src/Shared/Defs.antt =====
-- `main` and `assertCurrentOffset` of tlpi/c5/5_5.c.
use Prim.Native.String.{String}
use textbooks.Base.{
  ℕ, Bool, true, not, ◌==◌, Option, none, some, List, [], ◌∷◌, if◌then◌else◌, Cmd, ok, pure, exits,
  exit_failure, ◌>>=◌, ◌>>◌,
}
use textbooks.Base.Int.{pos}
use textbooks.Posix.{Posix, call, seek_cur}

-- open(2) with O_CREAT, O_EXCL and the program's access mode, unlink, of which the result is not used, dup, and fcntl
-- with F_GETFL; `none` stands for -1.
pub record Descriptors (k : Posix) : Type 0 where
  pub open_new : String → k.State → Option ℕ × k.State
  pub unlink : String → k.State → k.State
  pub dup : ℕ → k.State → Option ℕ × k.State
  pub get_flags : ℕ → k.State → Option ℕ × k.State

-- Two results of which the first is -1, or that are not equal.
abbrev pub differ : Option ℕ → Option ℕ → Bool
differ none y = true
differ (some m) none = true
differ (some m) (some n) = not (m == n)

-- "hello" and "bye"
abbrev pub hello : List ℕ
hello = 104 ∷ (101 ∷ (108 ∷ (108 ∷ (111 ∷ []))))

abbrev pub bye : List ℕ
bye = 98 ∷ (121 ∷ (101 ∷ []))

module _ (k : Posix) where
  unfoldable pub assert_current_offset : ℕ → ℕ → Cmd k.State (Unit {0})
  assert_current_offset fd dfd = do
    fd_off ← call (k.lseek fd (pos 0) seek_cur)
    dfd_off ← call (k.lseek dfd (pos 0) seek_cur)
    if differ fd_off dfd_off then exits exit_failure else pure tt

  -- `if (write(..) == -1) errExit(..)`
  unfoldable pub write_or_exit : ℕ → List ℕ → Cmd k.State (Unit {0})
  write_or_exit fd bytes = do
    written ← call (k.write fd bytes)
    elim written [ none ↦ exits exit_failure | some n ↦ pure tt ]

  -- From the first assertion on.
  unfoldable pub write_both : ℕ → ℕ → Cmd k.State (Unit {0})
  write_both fd dfd = do
    assert_current_offset fd dfd
    write_or_exit fd hello
    assert_current_offset fd dfd
    write_or_exit dfd bye
    assert_current_offset fd dfd

  module _ (c : Descriptors k) where
    -- The test of the status flags, and the rest.
    unfoldable pub compare_flags : ℕ → ℕ → Cmd k.State (Unit {0})
    compare_flags fd dfd = do
      fd_flags ← call (c.get_flags fd)
      dfd_flags ← call (c.get_flags dfd)
      if differ fd_flags dfd_flags then exits exit_failure else write_both fd dfd

    unfoldable pub shared_main : Cmd k.State (Unit {0})
    shared_main = do
      opened ← call (c.open_new "hellow")
      (λ s. ok tt (c.unlink "hellow" s))
      elim opened [
        | none ↦ exits exit_failure
        | some fd ↦ do
          copied ← call (c.dup fd)
          elim copied [ none ↦ exits exit_failure | some dfd ↦ compare_flags fd dfd ]
      ]
