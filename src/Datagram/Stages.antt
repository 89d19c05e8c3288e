-- ===== src/Datagram/Stages.antt =====
-- 57.4.c as a machine that a schedule drives: its five stages.
use textbooks.Base.{
  ℕ, ◌≡◌, ◌≢◌, ◌<◌, true, false, List, [], ◌∷◌, ◌++◌, length, take, Option, none, some,
}
use textbooks.Datagram.Calls.{Outcome, waits, fails, gives}
use textbooks.Datagram.Named.{
  NamedSockets, path_a, hello_world, Parent, forks_again, receives, parent_exited, ChildC, no_c,
  c_sleeps, sends, c_exited, Process, parent, child_c, System,
}

module _ (S F : Type 0) (Waiting : List (List ℕ) → S → Type 0) (q : List (List ℕ)) where
  -- A datagram is sent whole, behind those that wait; a call waits only while others do.
  pub data Sent (msg : List ℕ) : Outcome S ℕ → Type 0 where
    full : 0 < length q → Sent msg waits
    refused : {s : S} → F → Sent msg (fails s)
    queued : {s : S} → Waiting (q ++ (msg ∷ [])) s → Sent msg (gives (length msg) s)

  -- The first datagram leaves the queue, and what the buffer has no place for is lost.
  pub data Received (size : ℕ) : Outcome S (List ℕ) → Type 0 where
    empty : q ≡ [] → Received size waits
    not_received : {s : S} → F → Received size (fails s)
    first :
        {s : S} {msg : List ℕ} {rest : List (List ℕ)}
        → q ≡ msg ∷ rest
        → Waiting rest s
        → Received size (gives (take size msg) s)

-- `Holds name fd q` says that the descriptor `fd` is a socket with that name, or with none, and that
-- the datagrams `q` wait there. There is a reason for every -1.
pub record IsNamed (k : NamedSockets) (F : Type 0) : Type 1 where
  pub Holds : Option (List ℕ) → ℕ → List (List ℕ) → k.State → Type 0
  pub no_socket : (s : k.State) → (k.socket s).0 ≡ none → F
  pub makes : (fd : ℕ) (s : k.State) → (k.socket s).0 ≡ some fd → Holds none fd [] (k.socket s).1
  pub others :
      (name : Option (List ℕ)) (fd : ℕ) (q : List (List ℕ)) (s : k.State)
      → Holds name fd q s
      → ((k.socket s).0 ≢ some fd) × Holds name fd q (k.socket s).1
  pub removes :
      (path : List ℕ) (fd : ℕ) (q : List (List ℕ)) (s : k.State)
      → Holds none fd q s
      → Holds none fd q (k.remove path s).1
  pub not_bound :
      (fd : ℕ) (path : List ℕ) (s : k.State)
      → Holds none fd [] s
      → (k.bind (some fd) path s).0 ≡ false
      → F
  pub binds :
      (fd : ℕ) (path : List ℕ) (s : k.State)
      → Holds none fd [] s
      → (k.bind (some fd) path s).0 ≡ true
      → Holds (some path) fd [] (k.bind (some fd) path s).1
  pub binds_another :
      (sock : Option ℕ) (path : List ℕ) (name : Option (List ℕ)) (fd : ℕ) (q : List (List ℕ))
      (s : k.State)
      → sock ≢ some fd
      → Holds name fd q s
      → Holds name fd q (k.bind sock path s).1
  pub no_child : (s : k.State) → (k.fork s).0 ≡ none → F
  pub forks :
      (name : Option (List ℕ)) (fd : ℕ) (q : List (List ℕ)) (s : k.State)
      → Holds name fd q s
      → Holds name fd q (k.fork s).1
  pub connecting :
      (sock : Option ℕ) (path : List ℕ) (name : Option (List ℕ)) (fd : ℕ) (q : List (List ℕ))
      (s : k.State)
      → Holds name fd q s
      → Holds name fd q (k.connect sock path s).1
  pub sleeps :
      (n : ℕ) (name : Option (List ℕ)) (fd : ℕ) (q : List (List ℕ)) (s : k.State)
      → Holds name fd q s
      → Holds name fd q (k.sleep n s)
  pub sends_to :
      (sock : Option ℕ) (msg path : List ℕ) (fd : ℕ) (q : List (List ℕ)) (s : k.State)
      → Holds (some path) fd q s
      → Sent k.State F (Holds (some path) fd) q msg (k.sendto sock msg path s)
  pub receives_from :
      (fd size : ℕ) (path : List ℕ) (q : List (List ℕ)) (s : k.State)
      → Holds (some path) fd q s
      → Received k.State F (Holds (some path) fd) q size (k.recvfrom (some fd) size s)

-- How far the three processes came.
pub data Stage : Type 0 where
  one_fork : Stage
  c_waits : Stage
  c_ready : Stage
  on_its_way : Stage
  arrived : Stage

-- The stage behind a turn of a process.
abbrev pub next : Stage → Process → Stage
next one_fork parent = c_waits
next c_waits child_c = c_ready
next c_ready child_c = on_its_way
next on_its_way parent = arrived
next st x = st

abbrev pub after : List Process → Stage → Stage
after [] st = st
after (x ∷ xs) st = after xs (next st x)

-- What is where at a stage.
abbrev pub parent_of : Stage → Parent
parent_of one_fork = forks_again
parent_of arrived = parent_exited 0
parent_of _ = receives

abbrev pub c_of : Stage → ChildC
c_of one_fork = no_c
c_of c_waits = c_sleeps
c_of c_ready = sends
c_of _ = c_exited 0

abbrev pub queue_of : Stage → List (List ℕ)
queue_of on_its_way = hello_world ∷ []
queue_of _ = []

-- "hello world"
abbrev pub text : List ℕ
text = 104 ∷ (101 ∷ (108 ∷ (108 ∷ (111 ∷ (32 ∷ (119 ∷ (111 ∷ (114 ∷ (108 ∷ (100 ∷ []))))))))))

abbrev pub received_of : Stage → Option (List ℕ)
received_of arrived = some text
received_of _ = none

module _ (k : NamedSockets) (F : Type 0) (law : IsNamed k F) where
  pub record At (st : Stage) (p : System k) : Type 0 where
    pub fd : ℕ
    pub sock : p.sock_a ≡ some fd
    pub parent_is : p.parent_at ≡ parent_of st
    pub c_is : p.c_at ≡ c_of st
    pub received_is : p.received ≡ received_of st
    pub holds : law.Holds (some path_a) fd (queue_of st) p.kernel
