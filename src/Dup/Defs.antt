-- ===== src/Dup/Defs.antt =====
-- dup_fd and dup2_fd of tlpi/c5/5_4.c. A function that ends without `return` gives no value.
use textbooks.Base.{ℕ, ◌==◌, Bool, not, Option, none, some, if◌then◌else◌, Cmd, ok}

-- fcntl(2) and close(2) on descriptors; `none` and `false` stand for -1.
pub record Fcntl : Type 1 where
  pub State : Type 0
  -- F_GETFD
  pub get_fd : ℕ → State → Bool × State
  -- F_DUPFD with the least number for the new descriptor.
  pub dup_from : ℕ → ℕ → State → Option ℕ × State
  pub close : ℕ → State → Bool × State

pub data Outcome : Type 0 where
  -- `errno` is not set by the function.
  failed_call : Outcome
  bad_descriptor : Outcome
  busy : Outcome
  number : ℕ → Outcome
  no_value : Outcome

module _ (k : Fcntl) where
  unfoldable pub dup_fd : ℕ → Cmd k.State (Option ℕ)
  dup_fd fd s = ok (k.dup_from fd 0 s).0 (k.dup_from fd 0 s).1

  -- The end of `dup2_fd`, behind F_DUPFD.
  unfoldable pub check_status : ℕ → Option ℕ → Cmd k.State Outcome
  check_status newfd none s = ok failed_call s
  check_status newfd (some status) s =
      if not (status == newfd) then ok busy (k.close status s).1 else ok no_value s

  unfoldable pub dup2_fd : ℕ → ℕ → Cmd k.State Outcome
  dup2_fd oldfd newfd s =
      let s1 = (k.get_fd oldfd s).1 in
      let s2 = (k.close newfd s1).1 in
      if not (k.get_fd oldfd s).0
      then ok bad_descriptor s1
      else if oldfd == newfd
      then ok (number newfd) s1
      else check_status newfd (k.dup_from oldfd newfd s2).0 (k.dup_from oldfd newfd s2).1
