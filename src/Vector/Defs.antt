-- ===== src/Vector/Defs.antt =====
-- Operations of tlpi/c5/5_7.c. `malloc` is taken to give a buffer of
-- the size asked for, and a call transfers less than 2 ^ 31 bytes. Where an `int` goes beyond INT_MAX it becomes
-- negative and the next access is outside of the buffer: a fault.
use textbooks.Base.{
  ℕ, ◌+◌, ◌-◌, ◌||◌, Option, none, some, List, [], ◌∷◌, ◌++◌, ltb, ◌==◌, min, take, drop, length,
  if◌then◌else◌, fault, Cmd, pure, exits, exit_failure, int_max, ◌>>=◌,
}
use textbooks.Posix.{Posix, call, splice}

-- `iop` is the memory that the pointer leads to.
pub record Iostrt : Type 0 where
  pub nbytes : ℕ
  pub iop : List ℕ

-- `total_size += sizeof(buffer[i].nbytes)` for each entry.
abbrev pub total_size : List Iostrt → ℕ
total_size [] = 0
total_size (b ∷ buffer) = 8 + total_size buffer

-- The loop of `writev`: what is at `raw_buffer` is copied up to `running`, the length of `raw`.
unfoldable pub gather : {S : Type 0} → ℕ → List ℕ → List Iostrt → Cmd S (List ℕ)
gather size raw [] = pure raw
gather size raw (b ∷ buffer) =
    let rest = gather size (raw ++ take b.nbytes b.iop) buffer in
    if ltb (length b.iop) b.nbytes
      || ltb size (length raw + b.nbytes)
      || ltb int_max (length raw + b.nbytes)
    then (λ _. fault)
    else rest

-- The loop of `readv`, with what is at `raw_buffer` and `left` = `nbytes - running`.
unfoldable pub scatter : {S : Type 0} → List ℕ → ℕ → List Iostrt → Cmd S (List Iostrt)
scatter raw left [] = pure []
scatter raw left (b ∷ buffer) =
    let bytes_to_read = min b.nbytes left in
    let copied = record b { iop = splice b.iop 0 (take bytes_to_read raw) } in
    let rest = scatter (drop bytes_to_read raw) (left - bytes_to_read) buffer in
    if bytes_to_read == 0
    then pure (b ∷ buffer)
    else if ltb (length b.iop) bytes_to_read
    then (λ _. fault)
    else (do done ← rest; pure (copied ∷ done))

module _ (k : Posix) where
  -- `none` stands for -1.
  unfoldable pub writev : ℕ → List Iostrt → Cmd k.State (Option ℕ)
  writev fd buffer = do
    raw_buffer ← gather (total_size buffer) [] buffer
    call (k.write fd raw_buffer)

  -- The result, and the buffers afterwards.
  unfoldable pub readv : ℕ → List Iostrt → Cmd k.State (Option ℕ × List Iostrt)
  readv fd buffer = do
    r ← call (k.read fd (total_size buffer))
    elim r [
      | none ↦ pure (none, buffer)
      | some bytes ↦ do
        filled ← scatter bytes (length bytes) buffer
        pure (some (length bytes), filled)
    ]

  unfoldable pub write_to_file : ℕ → List ℕ → Cmd k.State (Unit {0})
  write_to_file fd p = do
    wbytes ← call (k.write fd p)
    elim wbytes [
      | none ↦ exits exit_failure
      | some n ↦ if n == length p then pure tt else exits exit_failure
    ]
