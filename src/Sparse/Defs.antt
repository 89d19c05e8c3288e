-- ===== src/Sparse/Defs.antt =====
-- `main` of tlpi/c4/cp.c. `errMsg` reports an error and returns.
use Prim.Native.String.{String}
use textbooks.Base.{
  ℕ, zero, suc, ◌+◌, Option, none, some, List, [], ◌∷◌, take, drop, Cmd, ok, pure, exits,
  exit_failure, out_of_fuel, ◌>>=◌, ◌>>◌,
}
use textbooks.Base.Int.{pos}
use textbooks.Posix.{Posix, seek_cur, call}
use textbooks.Copy.{read_only}
use textbooks.Writes.{create_only}

abbrev pub batch_size : ℕ
batch_size = 1000

-- How far the loop over bytes that are not null goes.
abbrev pub text_length : List ℕ → ℕ
text_length [] = 0
text_length (zero ∷ bs) = 0
text_length (suc b ∷ bs) = text_length bs + 1

-- How far the loop over null bytes goes.
abbrev pub null_length : List ℕ → ℕ
null_length [] = 0
null_length (zero ∷ bs) = null_length bs + 1
null_length (suc b ∷ bs) = 0

module _ (k : Posix) where
  -- `if (.. == -1) errMsg(..)`
  abbrev pub report : Option ℕ → Cmd k.State (Unit {0})
  report none s = ok tt (k.err_msg s)
  report (some _) s = ok tt s

  -- The loop over the bytes that are left of the buffer: a write and a seek in each round.
  unfoldable pub write_segments : ℕ → ℕ → List ℕ → Cmd k.State (Unit {0})
  write_segments fuel dfd [] s = ok tt s
  write_segments zero dfd (b ∷ bs) s = out_of_fuel
  write_segments (suc fuel) dfd (b ∷ bs) s =
      let rest = drop (text_length (b ∷ bs)) (b ∷ bs) in
      (do
        wbytes ← call (k.write dfd (take (text_length (b ∷ bs)) (b ∷ bs)))
        report wbytes
        seek_pos ← call (k.lseek dfd (pos (null_length rest)) seek_cur)
        report seek_pos
        write_segments fuel dfd (drop (null_length rest) rest))
        s

  -- The body of the outer loop. A read that fails ends it like the end of the file.
  unfoldable pub sparse_chunk :
      Cmd k.State (Unit {0}) → ℕ → Option (List ℕ) → Cmd k.State (Unit {0})
  sparse_chunk rest dfd none = pure tt
  sparse_chunk rest dfd (some []) = pure tt
  sparse_chunk rest dfd (some (b ∷ bs)) = do write_segments batch_size dfd (b ∷ bs); rest

  -- `rounds` bounds the number of reads, and `batch_size` the rounds for one buffer.
  unfoldable pub sparse_loop : ℕ → ℕ → ℕ → Cmd k.State (Unit {0})
  sparse_loop zero sfd dfd = λ _. out_of_fuel
  sparse_loop (suc rounds) sfd dfd = do
    rbytes ← call (k.read sfd batch_size)
    sparse_chunk (sparse_loop rounds sfd dfd) dfd rbytes

  -- The results of the last calls of `close` are not tested.
  unfoldable pub sparse_files : ℕ → String → String → Cmd k.State (Unit {0})
  sparse_files rounds source_file dest_file = do
    s ← call (k.open_file source_file read_only)
    elim s [
      | none ↦ exits exit_failure
      | some sfd ↦ do
        d ← call (k.open_file dest_file create_only)
        elim d [
          | none ↦ exits exit_failure
          | some dfd ↦ do
            sparse_loop rounds sfd dfd
            a ← call (k.close sfd)
            b ← call (k.close dfd)
            pure tt
        ]
    ]

  unfoldable pub sparse_main : ℕ → List String → Cmd k.State (Unit {0})
  sparse_main rounds (name ∷ (source_file ∷ (dest_file ∷ []))) =
      sparse_files rounds source_file dest_file
  sparse_main rounds _ = exits exit_failure
