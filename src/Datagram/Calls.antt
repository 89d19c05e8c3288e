-- ===== src/Datagram/Calls.antt =====
-- The calls on datagram sockets in tlpi/c57/unix_domain_datagram_sock.c, which can make a process wait.
use textbooks.Base.{ℕ, ◌++◌, ◌≡◌, ◌<◌, ◌≤◌, List, [], ◌∷◌, Option, none, some, length, take}

-- What a call does in a state: it waits, it returns -1, or it returns a value.
pub data Outcome (S A : Type 0) : Type 0 where
  waits : Outcome S A
  fails : S → Outcome S A
  gives : A → S → Outcome S A

-- `none` stands for -1. `recvfrom` gives the bytes that it put into the buffer.
pub record Datagrams : Type 1 where
  pub State : Type 0
  pub socketpair : State → Option (ℕ × ℕ) × State
  pub fork : State → Option ℕ × State
  pub sendto : ℕ → List ℕ → State → Outcome State ℕ
  pub recvfrom : ℕ → ℕ → State → Outcome State (List ℕ)
  pub sleep : ℕ → State → State

module _ (k : Datagrams) (F : Type 0) (Joined : k.State → Type 0) (queue : k.State → List (List ℕ))
    (s : k.State) where
  -- A datagram is sent whole, behind those that wait. A call waits only while others do.
  pub data Sent (limit : ℕ) (msg : List ℕ) : Outcome k.State ℕ → Type 0 where
    full : 0 < length (queue s) → Sent limit msg waits
    refused : {s' : k.State} → F → Sent limit msg (fails s')
    queued :
        {s' : k.State}
        → length (queue s') ≤ limit
        → queue s' ≡ queue s ++ (msg ∷ [])
        → Joined s'
        → Sent limit msg (gives (length msg) s')

  -- The first datagram leaves the queue, and what the buffer has no place for is lost.
  pub data Received (size : ℕ) : Outcome k.State (List ℕ) → Type 0 where
    empty : queue s ≡ [] → Received size waits
    not_received : {s' : k.State} → F → Received size (fails s')
    first :
        {s' : k.State} {msg : List ℕ} {rest : List (List ℕ)}
        → queue s ≡ msg ∷ rest
        → queue s' ≡ rest
        → Joined s'
        → Received size (gives (take size msg) s')

-- `queue fd` are the datagrams that wait at a socket, at most `limit` of them; `Joined a b` says that
-- the sockets `a` and `b` are a pair. There is a reason for every -1.
pub record IsDatagrams (k : Datagrams) (F : Type 0) : Type 1 where
  pub Joined : ℕ → ℕ → k.State → Type 0
  pub queue : ℕ → k.State → List (List ℕ)
  pub limit : ℕ
  pub no_pair : (s : k.State) → (k.socketpair s).0 ≡ none → F
  pub pairs :
      (s : k.State) (a b : ℕ)
      → (k.socketpair s).0 ≡ some (a, b)
      → Joined a b (k.socketpair s).1 × (queue b (k.socketpair s).1 ≡ [])
  pub forks :
      (a b : ℕ) (s : k.State)
      → Joined a b s
      → Joined a b (k.fork s).1 × (queue b (k.fork s).1 ≡ queue b s)
  pub sends :
      (a b : ℕ) (msg : List ℕ) (s : k.State)
      → Joined a b s
      → Sent k F (Joined a b) (queue b) s limit msg (k.sendto a msg s)
  pub receives :
      (a b size : ℕ) (s : k.State)
      → Joined a b s
      → Received k F (Joined a b) (queue b) s size (k.recvfrom b size s)
  pub sleeps :
      (a b n : ℕ) (s : k.State)
      → Joined a b s
      → Joined a b (k.sleep n s) × (queue b (k.sleep n s) ≡ queue b s)
