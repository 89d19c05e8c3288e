-- ===== src/Posix/Calls.antt =====
-- The interface to the kernel and to the error functions: calls over an unknown state. `none` stands
-- for the result -1.
use Prim.Native.String.{String}
use textbooks.Base.{ℕ, Bool, Option, none, some, List, Cmd, ok, pure}
use textbooks.Base.Int.{ℤ}

pub data Whence : Type 0 where
  seek_set seek_cur seek_end : Whence

-- The flags of open(2) that change what it does to the file.
pub record OpenFlags : Type 0 where
  pub create : Bool
  pub truncate : Bool
  pub append : Bool

pub record Posix : Type 1 where
  pub State : Type 0
  pub open_file : String → OpenFlags → State → Option ℕ × State
  pub read : ℕ → ℕ → State → Option (List ℕ) × State
  pub write : ℕ → List ℕ → State → Option ℕ × State
  pub lseek : ℕ → ℤ → Whence → State → Option ℕ × State
  pub close : ℕ → State → Bool × State
  -- The error number, or `none` on success.
  pub fsync : ℕ → State → Option ℕ × State
  -- `errMsg` of the error library, which returns.
  pub err_msg : State → State

-- A call as a command.
abbrev pub call : {S A : Type 0} → (S → A × S) → Cmd S A
call f s = let (a, s') = f s in ok a s'

-- A call on a descriptor that may be -1, where every call fails.
abbrev pub on_fd : {S A : Type 0} → Option ℕ → (ℕ → S → Option A × S) → Cmd S (Option A)
on_fd none f = pure none
on_fd (some fd) f = call (f fd)
