-- ===== src/Dup/Main.antt =====
-- `duplicate`, `duplicate2`, `using_dup`, `using_dup2` and `main` of tlpi/c5/5_4.c.
use Prim.Native.String.{String}
use textbooks.Base.{ℕ, Option, none, some, Cmd, pure, exits, exit_failure, ◌>>=◌, ◌>>◌}
use textbooks.Posix.{call}
use textbooks.Dup.Defs.{Fcntl, Outcome, number, no_value, dup_fd, dup2_fd}

-- open(2) with O_CREAT and O_WRONLY.
pub record Opening (k : Fcntl) : Type 0 where
  pub open_file : String → k.State → Option ℕ × k.State

-- The int that a caller of `dup2_fd` gets, where `none` is -1. Where the function ends without `return`,
-- C leaves its use undefined; here it is `leftover`, any int
-- for each call.
abbrev pub value_of : Option ℕ → Outcome → Option ℕ
value_of leftover (number n) = some n
value_of leftover no_value = leftover
value_of leftover _ = none

module _ (k : Fcntl) where
  unfoldable pub duplicate2 : (ℕ → ℕ → Option ℕ) → ℕ → ℕ → Cmd k.State (Unit {0})
  duplicate2 leftover oldfd newfd = do
    tfd_d1 ← dup2_fd k oldfd newfd
    elim (value_of (leftover oldfd newfd) tfd_d1) [ none ↦ exits exit_failure | some n ↦ pure tt ]

  unfoldable pub duplicate : ℕ → Cmd k.State (Unit {0})
  duplicate fd = do
    tfd_d1 ← dup_fd k fd
    elim tfd_d1 [ none ↦ exits exit_failure | some n ↦ pure tt ]

  module _ (o : Opening k) where
    -- `using_dup` from its second `open` on.
    unfoldable pub second_file : ℕ → Cmd k.State (Unit {0})
    second_file tfd = do
      opened ← call (o.open_file "hello2")
      elim opened [
        | none ↦ exits exit_failure
        | some tfd2 ↦ do
          closed ← call (k.close tfd)
          duplicate tfd2
          closed2 ← call (k.close tfd2)
          pure tt
      ]

    unfoldable pub using_dup : Cmd k.State (Unit {0})
    using_dup = do
      opened ← call (o.open_file "hello")
      elim opened [
        | none ↦ exits exit_failure
        | some tfd ↦ do duplicate tfd; duplicate tfd; second_file tfd
      ]

    unfoldable pub using_dup2 : (ℕ → ℕ → Option ℕ) → Cmd k.State (Unit {0})
    using_dup2 leftover = do
      opened ← call (o.open_file "hello")
      elim opened [
        | none ↦ exits exit_failure
        | some tfd ↦ do
          duplicate2 leftover tfd 10
          duplicate2 leftover 10 20
          closed ← call (k.close 20)
          duplicate2 leftover 20 25
      ]

    -- `main`, in which the call of `using_dup` is a comment.
    unfoldable pub dup_main : (ℕ → ℕ → Option ℕ) → Cmd k.State (Unit {0})
    dup_main leftover = using_dup2 leftover
