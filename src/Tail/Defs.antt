-- ===== src/Tail/Defs.antt =====
-- `main` of tlpi/c13/13.5.c. Of the C library, getopt, atoi and the streams are parameters.
use Prim.Native.String.{String}
use textbooks.Base.{
  ℕ, zero, suc, ◌+◌, ◌-◌, ◌==◌, Bool, false, not, Option, none, some, List, [], ◌∷◌, if◌then◌else◌,
  length, get_or, get_elem?, leb, Cmd, fault, pure, exits, exit_failure, exit_success, out_of_fuel,
  ◌>>=◌, ◌>>◌,
}
use textbooks.Base.Int.{ℤ, pos, negsuc, ltb_ℤ, pred_ℤ}
use textbooks.Posix.{Posix, seek_set, seek_end, call}
use textbooks.Copy.{read_only}

-- What getopt returns before it returns -1: `n` with its argument, or something else.
pub data Opt : Type 0 where
  lines_of : String → Opt
  other : Opt

-- Streams over the calls of the kernel. An item of one byte is read, or none; it is written to the
-- standard output, or not.
pub record Stdio (k : Posix) : Type 0 where
  pub fdopen : ℕ → k.State → Option ℕ × k.State
  pub setvbuf : ℕ → k.State → Bool × k.State
  pub fread : ℕ → k.State → Option ℕ × k.State
  pub fwrite : ℕ → k.State → Bool × k.State

abbrev pub buffer_size : ℕ
buffer_size = 10

-- '\n'
abbrev pub newline : ℕ
newline = 10

-- The loop from `processed_i` = `i` - 1 down to 0: what `lines` is then, and `processed_i` + 1.
unfoldable pub scan_back : List ℕ → ℕ → ℤ → ℤ × ℕ
scan_back buffer zero lines = (lines, 0)
scan_back buffer (suc i) lines =
    let found = scan_back buffer i (pred_ℤ lines) in
    let next = scan_back buffer i lines in
    if get_or buffer i 0 == newline
    then (if ltb_ℤ (pred_ℤ lines) (pos 0) then (pred_ℤ lines, suc i) else found)
    else next

abbrev pub zero_lines : ℤ → Bool
zero_lines (pos n) = n == 0
zero_lines (negsuc n) = false

module _ (k : Posix) where
  -- `if (.. == -1) errExit(..)` on the result of lseek.
  abbrev pub check_seek : (ℕ → Cmd k.State (Unit {0})) → Option ℕ → Cmd k.State (Unit {0})
  check_seek next none = exits exit_failure
  check_seek next (some position) = next position

  -- The body of the outer loop, with the chunk that was read: `loop` is the loop with the next number
  -- of bytes, position and lines.
  unfoldable pub tail_chunk :
      (ℕ → ℕ → ℤ → Cmd k.State (Unit {0}))
      → ℕ
      → ℕ
      → ℕ
      → ℤ
      → Option (List ℕ)
      → Cmd k.State (Unit {0})
  tail_chunk loop fd bytes_to_read curr_pos lines none = exits exit_failure
  tail_chunk loop fd bytes_to_read curr_pos lines (some []) = pure tt
  tail_chunk loop fd bytes_to_read curr_pos lines (some (b ∷ bs)) =
      let (left, i) = scan_back (b ∷ bs) (length (b ∷ bs)) lines in
      if ltb_ℤ left (pos 0)
      then (do
        sought ← call (k.lseek fd (pos (curr_pos + i)) seek_set)
        check_seek (λ _. pure tt) sought)
      else (do
        let whole = leb buffer_size curr_pos
        sought ← call (k.lseek fd (pos (if whole then curr_pos - buffer_size else 0)) seek_set)
        check_seek (λ position. loop (if whole then bytes_to_read else curr_pos) position left)
            sought)

  -- `while ((nread = read(fd, buffer, bytes_to_read)) > 0)`, and the test of `nread`.
  unfoldable pub tail_loop : ℕ → ℕ → ℕ → ℕ → ℤ → Cmd k.State (Unit {0})
  tail_loop zero fd bytes_to_read curr_pos lines = λ _. out_of_fuel
  tail_loop (suc fuel) fd bytes_to_read curr_pos lines = do
    nread ← call (k.read fd bytes_to_read)
    tail_chunk (tail_loop fuel fd) fd bytes_to_read curr_pos lines nread

  -- The search for the first byte that is printed. The offset of the file is left there.
  unfoldable pub tail_search : ℕ → ℕ → ℤ → Cmd k.State (Unit {0})
  tail_search fuel fd lines = do
    end ← call (k.lseek fd (pos 0) seek_end)
    check_seek
        (λ size. do
          sought ← call (k.lseek fd (pos (size + 1 - buffer_size)) seek_set)
          check_seek (λ curr_pos. tail_loop fuel fd buffer_size curr_pos lines) sought)
        end

  module _ (io : Stdio k) where
    -- The results of `fread` and `fwrite` are counts, which are never -1.
    unfoldable pub print_loop : ℕ → ℕ → Cmd k.State (Unit {0})
    print_loop zero file_stream = λ _. out_of_fuel
    print_loop (suc fuel) file_stream = do
      nread ← call (io.fread file_stream)
      elim nread [
        | none ↦ pure tt
        | some ch ↦ do written ← call (io.fwrite ch); print_loop fuel file_stream
      ]

    -- From `fdopen` on. A stream that is NULL is used by `setvbuf`.
    unfoldable pub print_rest : ℕ → ℕ → Cmd k.State (Unit {0})
    print_rest fuel fd = do
      file_stream ← call (io.fdopen fd)
      elim file_stream [
        | none ↦ λ _. fault
        | some stream ↦ do
          set ← call (io.setvbuf stream)
          if not set then exits exit_failure else do
            print_loop fuel stream
            closed ← call (k.close fd)
            if closed then pure tt else exits exit_failure
      ]

    -- `main` behind the reading of its arguments.
    unfoldable pub tail_file : ℕ → ℤ → String → Cmd k.State (Unit {0})
    tail_file fuel lines filename = do
      opened ← call (k.open_file filename read_only)
      elim opened [
        | none ↦ exits exit_failure
        | some fd ↦ do tail_search fuel fd lines; print_rest fuel fd
      ]

    -- Behind the options: `optind` is the index of the first other argument.
    unfoldable pub tail_operand : ℕ → ℤ → ℕ → List String → Cmd k.State (Unit {0})
    tail_operand fuel lines optind argv = elim (get_elem? argv optind) [
      | none ↦ exits exit_failure
      | some filename ↦
          if zero_lines lines then exits exit_success else tail_file fuel lines filename
    ]

    -- The loop over the options.
    unfoldable pub tail_options :
        (String → ℤ) → ℕ → ℤ → List Opt → ℕ → List String → Cmd k.State (Unit {0})
    tail_options atoi fuel lines [] optind argv = tail_operand fuel lines optind argv
    tail_options atoi fuel lines (lines_of optarg ∷ opts) optind argv =
        tail_options atoi fuel (atoi optarg) opts optind argv
    tail_options atoi fuel lines (other ∷ opts) optind argv = exits exit_failure

    -- getopt gives the options of `argv`, and `optind`.
    unfoldable pub tail_main :
        (List String → List Opt × ℕ) → (String → ℤ) → ℕ → List String → Cmd k.State (Unit {0})
    tail_main getopt atoi fuel argv =
        tail_options atoi fuel (pos 10) (getopt argv).0 (getopt argv).1 argv
