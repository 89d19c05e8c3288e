-- ===== src/Datagram/Pair.antt =====
-- tlpi/c57/unix_domain_datagram_sock.c: `sender`, `receiver` and `main`. A turn is what a process does
-- up to its next call that can wait, or that call.
use textbooks.Base.{
  ℕ, ◌==◌, List, [], ◌∷◌, length, Option, none, some, if◌then◌else◌, Cmd, pure, exits, exit_failure,
  ◌>>=◌,
}
use textbooks.Posix.{call}
use textbooks.Datagram.Calls.{Outcome, waits, fails, gives, Datagrams}

-- The lines that are printed.
pub data Line : Type 0 where
  at_sender_sock : Line
  sending_data : Line
  sent : Line
  at_receiver_sock : Line
  ready_to_read : Line
  read_one : Line

-- Where `sender` is: before its loop, at the top of the loop, or in `sendto`.
pub data Sender : Type 0 where
  sender_begins : Sender
  sender_loops : Sender
  in_sendto : Sender
  sender_exited : ℕ → Sender

-- Where `receiver` is. It is `no_child` when `fork` returned -1.
pub data Receiver : Type 0 where
  no_child : Receiver
  receiver_begins : Receiver
  receiver_loops : Receiver
  in_recvfrom : Receiver
  in_sleep : Receiver
  receiver_exited : ℕ → Receiver

-- "hello world byte" with its null byte.
abbrev pub message : List ℕ
message =
    104
    ∷ (101
        ∷ (108
            ∷ (108
                ∷ (111
                    ∷ (32
                        ∷ (119
                            ∷ (111
                                ∷ (114
                                    ∷ (108
                                        ∷ (100
                                            ∷ (32
                                                ∷ (98 ∷ (121 ∷ (116 ∷ (101 ∷ (0 ∷ []))))))))))))))))

-- The size of the receiver's buffer.
abbrev pub receiver_bufsize : ℕ
receiver_bufsize = 1

pub data Who : Type 0 where
  parent : Who
  child : Who

-- The child of a fork that gave the caller a process id.
abbrev pub at_fork : Option ℕ → Receiver
at_fork none = no_child
at_fork (some pid) = receiver_begins

module _ (k : Datagrams) where
  -- Both processes: `buf` are the bytes that the receiver's buffer got, and the newest line of the
  -- output is first.
  pub record System : Type 0 where
    pub kernel : k.State
    pub sender_sock : ℕ
    pub receiver_sock : ℕ
    pub sender : Sender
    pub receiver : Receiver
    pub buf : List ℕ
    pub output : List Line

  -- The rest of a round of the sender, after `sendto`.
  unfoldable pub after_send : System → Outcome k.State ℕ → System
  after_send p waits = p
  after_send p (fails s) = record p { kernel = s; sender = sender_exited exit_failure }
  after_send p (gives n s) =
      if n == length message
      then record p { kernel = s; sender = sender_loops; output = sent ∷ p.output }
      else record p { kernel = s; sender = sender_exited exit_failure }

  unfoldable pub sender_turn : Sender → System → System
  sender_turn sender_begins p = record p {
    sender = sender_loops;
    output = at_sender_sock ∷ p.output;
  }
  sender_turn sender_loops p = record p { sender = in_sendto; output = sending_data ∷ p.output }
  sender_turn in_sendto p = after_send p (k.sendto p.sender_sock message p.kernel)
  sender_turn (sender_exited c) p = p

  -- The rest of a round of the receiver up to its `sleep`, after `recvfrom`.
  unfoldable pub after_receive : System → Outcome k.State (List ℕ) → System
  after_receive p waits = p
  after_receive p (fails s) = record p { kernel = s; receiver = receiver_exited exit_failure }
  after_receive p (gives bytes s) =
      if length bytes == receiver_bufsize
      then record p { kernel = s; receiver = in_sleep; buf = bytes; output = read_one ∷ p.output }
      else record p { kernel = s; receiver = receiver_exited exit_failure; buf = bytes }

  unfoldable pub receiver_turn : Receiver → System → System
  receiver_turn no_child p = p
  receiver_turn receiver_begins p = record p {
    receiver = receiver_loops;
    output = at_receiver_sock ∷ p.output;
  }
  receiver_turn receiver_loops p = record p {
    receiver = in_recvfrom;
    output = ready_to_read ∷ p.output;
  }
  receiver_turn in_recvfrom p =
      after_receive p (k.recvfrom p.receiver_sock receiver_bufsize p.kernel)
  receiver_turn in_sleep p = record p { kernel = k.sleep 1 p.kernel; receiver = receiver_loops }
  receiver_turn (receiver_exited c) p = p

  unfoldable pub turn : Who → System → System
  turn parent p = sender_turn p.sender p
  turn child p = receiver_turn p.receiver p

  -- The processes in the order of a schedule.
  unfoldable pub run : List Who → System → System
  run [] p = p
  run (w ∷ ws) p = run ws (turn w p)

  -- `main` up to the loops of the two processes. Where `fork` returns -1, the caller is the sender too.
  unfoldable pub main : Cmd k.State System
  main = do
    pair ← call k.socketpair
    elim pair [
      | none ↦ exits exit_failure
      | some (fds0, fds1) ↦ do
        pid ← call k.fork
        λ s.
            pure
              (record {
                kernel = s;
                sender_sock = fds0;
                receiver_sock = fds1;
                sender = sender_begins;
                receiver = at_fork pid;
                buf = [];
                output = [];
              })
              s
    ]
