-- ===== src/Datagram/Named.antt =====
-- tlpi/c57/57.4.c: `main`, as three processes that take turns.
use textbooks.Base.{
  ℕ, ◌==◌, Bool, List, [], ◌∷◌, length, Option, none, some, if◌then◌else◌, exit_failure,
  exit_success,
}
use textbooks.Base.Text.{up_to_null}
use textbooks.Datagram.Calls.{Outcome, waits, fails, gives}

-- The calls on sockets with names; `none` and `false` stand for -1. The calls take what `socket` returned,
-- since the program does not look at it. A name is the bytes of `sun_path` before its first null byte.
pub record NamedSockets : Type 1 where
  pub State : Type 0
  pub socket : State → Option ℕ × State
  pub remove : List ℕ → State → Bool × State
  pub bind : Option ℕ → List ℕ → State → Bool × State
  pub fork : State → Option ℕ × State
  pub connect : Option ℕ → List ℕ → State → Bool × State
  pub sendto : Option ℕ → List ℕ → List ℕ → State → Outcome State ℕ
  pub recvfrom : Option ℕ → ℕ → State → Outcome State (List ℕ)
  pub sleep : ℕ → State → State

-- "/tmp/a1", "/tmp/b1" and "/tmp/c1".
abbrev pub path_a : List ℕ
path_a = 47 ∷ (116 ∷ (109 ∷ (112 ∷ (47 ∷ (97 ∷ (49 ∷ []))))))

abbrev pub path_b : List ℕ
path_b = 47 ∷ (116 ∷ (109 ∷ (112 ∷ (47 ∷ (98 ∷ (49 ∷ []))))))

abbrev pub path_c : List ℕ
path_c = 47 ∷ (116 ∷ (109 ∷ (112 ∷ (47 ∷ (99 ∷ (49 ∷ []))))))

-- "hello world" with its null byte.
abbrev pub hello_world : List ℕ
hello_world =
    104 ∷ (101 ∷ (108 ∷ (108 ∷ (111 ∷ (32 ∷ (119 ∷ (111 ∷ (114 ∷ (108 ∷ (100 ∷ (0 ∷ [])))))))))))

-- The size of the parent's buffer.
abbrev pub buf_size : ℕ
buf_size = 12

-- Where a process is. It can also have exited, or have read bytes that were never written.
pub data Parent : Type 0 where
  forks_again : Parent
  receives : Parent
  parent_exited : ℕ → Parent
  parent_faulted : Parent

pub data ChildB : Type 0 where
  no_b : ChildB
  connects : ChildB
  b_sleeps : ChildB
  b_exited : ℕ → ChildB

pub data ChildC : Type 0 where
  no_c : ChildC
  c_sleeps : ChildC
  sends : ChildC
  c_exited : ℕ → ChildC

pub data Process : Type 0 where
  parent : Process
  child_b : Process
  child_c : Process

module _ (k : NamedSockets) where
  -- The three processes, and the text that the parent printed behind "received: ".
  pub record System : Type 0 where
    pub kernel : k.State
    pub sock_a : Option ℕ
    pub sock_b : Option ℕ
    pub sock_c : Option ℕ
    pub parent_at : Parent
    pub b_at : ChildB
    pub c_at : ChildC
    pub received : Option (List ℕ)

  -- The parent behind `recvfrom`: it prints its buffer, then it tests what the call returned.
  unfoldable pub after_receive : System → Outcome k.State (List ℕ) → System
  after_receive p waits = p
  after_receive p (fails s) = record p { kernel = s; parent_at = parent_faulted }
  after_receive p (gives bytes s) = elim (up_to_null bytes) [
    | none ↦ record p { kernel = s; parent_at = parent_faulted }
    | some text ↦ record p {
      kernel = s;
      received = some text;
      parent_at = parent_exited (if length bytes == buf_size then exit_success else exit_failure);
    }
  ]

  unfoldable pub parent_turn : Parent → System → System
  parent_turn forks_again p =
      let (pid, s) = k.fork p.kernel in
      record p {
        kernel = s;
        parent_at = receives;
        c_at = elim pid [ none ↦ no_c | some _ ↦ c_sleeps ];
      }
  parent_turn receives p = after_receive p (k.recvfrom p.sock_a buf_size p.kernel)
  parent_turn (parent_exited status) p = p
  parent_turn parent_faulted p = p

  unfoldable pub b_turn : ChildB → System → System
  b_turn no_b p = p
  b_turn connects p =
      let (connected, s) = k.connect p.sock_b path_b p.kernel in
      record p { kernel = s; b_at = if connected then b_sleeps else b_exited exit_failure }
  b_turn b_sleeps p = record p { kernel = k.sleep 5 p.kernel; b_at = b_exited exit_success }
  b_turn (b_exited status) p = p

  -- The third process behind `sendto`.
  unfoldable pub after_send : System → Outcome k.State ℕ → System
  after_send p waits = p
  after_send p (fails s) = record p { kernel = s; c_at = c_exited exit_failure }
  after_send p (gives res s) = record p {
    kernel = s;
    c_at = c_exited (if res == length hello_world then exit_success else exit_failure);
  }

  unfoldable pub c_turn : ChildC → System → System
  c_turn no_c p = p
  c_turn c_sleeps p = record p { kernel = k.sleep 5 p.kernel; c_at = sends }
  c_turn sends p = after_send p (k.sendto p.sock_c hello_world path_a p.kernel)
  c_turn (c_exited status) p = p

  unfoldable pub turn : Process → System → System
  turn parent p = parent_turn p.parent_at p
  turn child_b p = b_turn p.b_at p
  turn child_c p = c_turn p.c_at p

  unfoldable pub run : List Process → System → System
  run [] p = p
  run (x ∷ xs) p = run xs (turn x p)

  -- The calls of `main` before its first `fork`: what they return is not looked at.
  unfoldable pub three_sockets : k.State → (Option ℕ × Option ℕ × Option ℕ) × k.State
  three_sockets s =
      let (a, s1) = k.socket s in
      let (b, s2) = k.socket s1 in let (c, s3) = k.socket s2 in ((a, b, c), s3)

  unfoldable pub three_names : Option ℕ → Option ℕ → Option ℕ → k.State → k.State
  three_names a b c s =
      let s1 = (k.remove path_c (k.remove path_b (k.remove path_a s).1).1).1 in
      (k.bind c path_c (k.bind b path_b (k.bind a path_a s1).1).1).1

  -- `main` up to its first `fork`, which makes the child b.
  unfoldable pub main : k.State → System
  main s =
      let ((a, b, c), s1) = three_sockets s in
      let (pid, s2) = k.fork (three_names a b c s1) in
      record {
        kernel = s2;
        sock_a = a;
        sock_b = b;
        sock_c = c;
        parent_at = forks_again;
        b_at = elim pid [ none ↦ no_b | some _ ↦ connects ];
        c_at = no_c;
        received = none;
      }
