-- ===== src/Xfer/Tests.antt =====
-- A client and a server on streams held in lists.
use textbooks.Base.{
  ◌<◌, ◌≢◌, ◌⊎◌, ◌+◌, ok, ℕ, ◌≡◌, refl, true, Option, some, List, [], ◌∷◌, ◌++◌, arith, length,
  take, drop, min, inr,
}
use textbooks.Base.Ends.{Ends}
use textbooks.Xfer.Sessions.{Sessions, concat, server_main-Sessions}
use textbooks.Posix.{update}
use textbooks.Posix.Splice.{take_all}
use textbooks.Xfer.Defs.{Sockets, client_main, server_socket, server_loop, server_main}
use textbooks.Xfer.Transfer.{IsSockets, Faults, client_main-sends}

-- What comes from each descriptor and what went to it.
record Pipes : Type 0 where
  pub input : ℕ → List ℕ
  pub output : ℕ → List ℕ

abbrev pipe_read : ℕ → ℕ → Pipes → Option (List ℕ) × Pipes
pipe_read fd n s = (
  some (take (min n (length (s.input fd))) (s.input fd)),
  record s { input = update s.input fd (drop (min n (length (s.input fd))) (s.input fd)) },
)

abbrev pipe_write : ℕ → List ℕ → Pipes → Option ℕ × Pipes
pipe_write fd bs s =
    (some (length bs), record s { output = update s.output fd (s.output fd ++ bs) })

-- Sockets have the number 5, and each client sends two bytes.
abbrev pipes : Sockets
pipes = record {
  State = Pipes;
  socket = λ s. (some 5, record s { output = update s.output 5 [] });
  connect = λ fd name s. (true, s);
  bind = λ fd name s. (true, s);
  listen = λ fd n s. (true, s);
  accept = λ fd s. (some 5, record s { input = update s.input 5 (8 ∷ (9 ∷ [])) });
  read = pipe_read;
  write = pipe_write;
  close = λ fd s. (true, s);
  err_msg = λ s. s;
}

pipes-IsSockets : IsSockets pipes
pipes-IsSockets = record {
  incoming = λ fd s. s.input fd;
  outgoing = λ fd s. s.output fd;
  reads = λ fd n s. (
    λ out. refl,
    inr (min n (length (s.input fd)), refl, omega arith, λ p q. omega arith, ground arith),
  );
  writes = λ fd bs s. (
    λ input. refl,
    inr (length bs, refl, omega arith, rw (take_all (length bs) bs (omega arith)) (ground arith)),
  );
  starts = λ fd s e. (ground (arith, e), refl);
  connects = λ fd name s. (refl, refl);
  accepts = λ fd out s. refl;
  closes = λ fd out s ne. refl;
  says = λ out s. refl;
}

any_fault : Faults pipes Unit
any_fault = record {
  making = λ s e. tt;
  connecting = λ fd name s e. tt;
  binding = λ fd name s e. tt;
  listening = λ fd n s e. tt;
  accepting = λ fd s e. tt;
  reading = λ fd n s e. tt;
  writing = λ fd bs s e. tt;
}

-- Two bytes come from each descriptor.
abbrev two_bytes : Pipes
two_bytes = record { input = λ _. 8 ∷ (9 ∷ []); output = λ _. 3 ∷ [] }

client_main-sends_example :
    Ends Unit
      (λ _ _. ⊥)
      (λ s'. (fd : ℕ) × (some 5 ≡ some fd) × (s'.output fd ≡ 8 ∷ (9 ∷ [])))
      (client_main pipes 3 two_bytes)
unfolding pipes-IsSockets
client_main-sends_example =
    client_main-sends pipes pipes-IsSockets any_fault 3 two_bytes (omega arith)

small_sessions :
    (sfd : ℕ) (t : Pipes) (cfd : ℕ)
    → some 5 ≡ some cfd
    → (1 ≢ cfd) × (length (update t.input 5 (8 ∷ (9 ∷ [])) cfd) < 3)
small_sessions sfd t cfd e = let five : 5 ≡ cfd = cc in rw (← five) (omega arith, omega arith)

abbrev two : ℕ
two = 2

server_main-Sessions_example :
    Unit {0}
    ⊎ ((sfd : ℕ) × (s0 : Pipes) × (s' : Pipes) × (cs : List (List ℕ)) × (server_socket pipes
            two_bytes
          ≡ ok sfd s0)
        × (length cs ≡ two)
        × Sessions pipes pipes-IsSockets 3 sfd cs s0 s'
        × (s'.output 1 ≡ s0.output 1 ++ concat cs)
        × ((more : ℕ)
            → server_main pipes 3 (two + more) two_bytes ≡ server_loop pipes 3 more sfd s'))
unfolding pipes-IsSockets
server_main-Sessions_example =
    server_main-Sessions pipes pipes-IsSockets any_fault 3 2 two_bytes small_sessions
