-- ===== src/Xfer/Defs.antt =====
-- `main` of tlpi/c57/us_xfr_cl.c and of tlpi/c57/us_xfr_sv.c.
use textbooks.Base.{
  ℕ, zero, suc, ◌==◌, Bool, true, false, not, Option, none, some, List, [], ◌∷◌, length,
  if◌then◌else◌, Cmd, ok, pure, exits, exit_failure, exit_success, out_of_fuel, ◌>>=◌, ◌>>◌,
}
use textbooks.Posix.{call}

-- The calls on sockets. `none` and `false` stand for -1. An address is the bytes of `sun_path`, as many
-- as its length says.
pub record Sockets : Type 1 where
  pub State : Type 0
  pub socket : State → Option ℕ × State
  pub connect : ℕ → List ℕ → State → Bool × State
  pub bind : ℕ → List ℕ → State → Bool × State
  pub listen : ℕ → ℕ → State → Bool × State
  pub accept : ℕ → State → Option ℕ × State
  pub read : ℕ → ℕ → State → Option (List ℕ) × State
  pub write : ℕ → List ℕ → State → Option ℕ × State
  pub close : ℕ → State → Bool × State
  pub err_msg : State → State

abbrev pub buf_size : ℕ
buf_size = 100

abbrev pub backlog : ℕ
backlog = 5

-- The abstract name: a null byte, then SV_SOCK_PATH, "/tmp/us_xfr".
abbrev pub address : List ℕ
address =
    0 ∷ (47 ∷ (116 ∷ (109 ∷ (112 ∷ (47 ∷ (117 ∷ (115 ∷ (95 ∷ (120 ∷ (102 ∷ (114 ∷ [])))))))))))

abbrev pub stdin_fileno : ℕ
stdin_fileno = 0

abbrev pub stdout_fileno : ℕ
stdout_fileno = 1

module _ (k : Sockets) where
  abbrev pub must : Bool → Cmd k.State (Unit {0})
  must true = pure tt
  must false = exits exit_failure

  -- The body of the loop that transfers, and what follows it.
  unfoldable pub transfer_chunk :
      Cmd k.State (Unit {0}) → ℕ → Option (List ℕ) → Cmd k.State (Unit {0})
  transfer_chunk rest output none = exits exit_failure
  transfer_chunk rest output (some []) = pure tt
  transfer_chunk rest output (some (b ∷ bs)) = do
    w ← call (k.write output (b ∷ bs))
    elim w [
      | none ↦ exits exit_failure
      | some n ↦ if n == length (b ∷ bs) then rest else exits exit_failure
    ]

  unfoldable pub transfer : ℕ → ℕ → ℕ → Cmd k.State (Unit {0})
  transfer zero input output = λ _. out_of_fuel
  transfer (suc fuel) input output = do
    num_read ← call (k.read input buf_size)
    transfer_chunk (transfer fuel input output) output num_read

  unfoldable pub client_main : ℕ → Cmd k.State (Unit {0})
  client_main fuel = do
    sfd ← call k.socket
    elim sfd [
      | none ↦ exits exit_failure
      | some fd ↦ do
        connected ← call (k.connect fd address)
        must connected
        transfer fuel stdin_fileno fd
        exits exit_success
    ]

  -- `main` of the server up to its loop: the listening socket.
  unfoldable pub server_socket : Cmd k.State ℕ
  server_socket = do
    sfd ← call k.socket
    elim sfd [
      | none ↦ exits exit_failure
      | some fd ↦ do
        bound ← call (k.bind fd address)
        if not bound then exits exit_failure else do
          listens ← call (k.listen fd backlog)
          if not listens then exits exit_failure else pure fd
    ]

  -- `if (close(cfd) == -1) errMsg("close")`
  unfoldable pub hang_up : ℕ → Cmd k.State (Unit {0})
  hang_up cfd = do closed ← call (k.close cfd); if closed then pure tt else λ s. ok tt (k.err_msg s)

  -- The body of the server's endless loop.
  unfoldable pub serve : ℕ → ℕ → Cmd k.State (Unit {0})
  serve fuel sfd = do
    cfd ← call (k.accept sfd)
    elim cfd [ none ↦ exits exit_failure | some fd ↦ do transfer fuel fd stdout_fileno; hang_up fd ]

  -- The endless loop; each round has the fuel `fuel`.
  unfoldable pub server_loop : ℕ → ℕ → ℕ → Cmd k.State (Unit {0})
  server_loop fuel zero sfd = λ _. out_of_fuel
  server_loop fuel (suc rounds) sfd = do serve fuel sfd; server_loop fuel rounds sfd

  unfoldable pub server_main : ℕ → ℕ → Cmd k.State (Unit {0})
  server_main fuel rounds = do sfd ← server_socket; server_loop fuel rounds sfd
