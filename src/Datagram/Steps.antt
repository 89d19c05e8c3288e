-- ===== src/Datagram/Steps.antt =====
-- What a turn of a process of unix_domain_datagram_sock.c keeps.
use textbooks.Base.{ℕ, suc, ◌≡◌, ◌⊎◌, refl, ◌∙◌, inl, inr, false, List, [], ◌∷◌}
use textbooks.Datagram.Calls.{Datagrams, IsDatagrams}
use textbooks.Datagram.Pair.{
  Line, at_sender_sock, sending_data, at_receiver_sock, ready_to_read, Sender, sender_begins,
  sender_loops, in_sendto, sender_exited, Receiver, no_child, receiver_begins, receiver_loops,
  in_recvfrom, in_sleep, receiver_exited, Who, parent, child, System, sender_turn, receiver_turn,
  turn, run,
}
use textbooks.Datagram.Queue.{
  is_sent, is_read, Sends, Reads, Going, sender_turn-SendEnds, receiver_turn-ReceiveEnds,
}

module _ (k : Datagrams) (F : Type 0) (law : IsDatagrams k F) where
  -- What a turn keeps.
  abbrev pub Kept : System k → Type 0
  Kept q = F ⊎ ((m : ℕ) × Going k F law q m)

  pub printed :
      (p : System k) (n : ℕ) (l : Line)
      → is_sent l ≡ false
      → is_read l ≡ false
      → (c : Sender) (d : Receiver) → Sends c
      → Reads d
      → Going k F law p n
      → Going k F law (record p { sender = c; receiver = d; output = l ∷ p.output }) n
  printed p n l no_send no_read c d sends_on reads_on g = record {
    joined = g.joined;
    waiting = g.waiting;
    bounded = g.bounded;
    counts = rw (no_send, no_read) g.counts;
    sends_on = sends_on;
    reads_on = reads_on;
    got = rw no_read g.got;
  }

  sender_turn-Kept :
      (c : Sender) (p : System k) (n : ℕ) → Sends c → Going k F law p n → Kept (sender_turn k c p)
  unfolding sender_turn
  sender_turn-Kept sender_begins p n a g =
      inr (n, printed p n at_sender_sock refl refl sender_loops p.receiver tt g.reads_on g)
  sender_turn-Kept sender_loops p n a g =
      inr (n, printed p n sending_data refl refl in_sendto p.receiver tt g.reads_on g)
  sender_turn-Kept in_sendto p n a g = elim (sender_turn-SendEnds k F law p n g) [
    | inl f ↦ inl f
    | inr (inl (same, _)) ↦ inr (n, rw same g)
    | inr (inr (g', _, _)) ↦ inr (suc n, g')
  ]
  sender_turn-Kept (sender_exited c) p n a g = inr (n, g)

  pub wakes :
      (p : System k) (n : ℕ)
      → Going k F law p n
      → Going k F law (record p { kernel = k.sleep 1 p.kernel; receiver = receiver_loops }) n
  wakes p n g =
      let (joined, same) = law.sleeps p.sender_sock p.receiver_sock 1 p.kernel g.joined in
      record {
        joined = joined;
        waiting = same ∙ g.waiting;
        bounded = g.bounded;
        counts = g.counts;
        sends_on = g.sends_on;
        reads_on = tt;
        got = g.got;
      }

  receiver_turn-Kept :
      (c : Receiver) (p : System k) (n : ℕ)
      → Reads c
      → Going k F law p n
      → Kept (receiver_turn k c p)
  unfolding receiver_turn
  receiver_turn-Kept no_child p n a g = inr (n, g)
  receiver_turn-Kept receiver_begins p n a g =
      inr (n, printed p n at_receiver_sock refl refl p.sender receiver_loops g.sends_on tt g)
  receiver_turn-Kept receiver_loops p n a g =
      inr (n, printed p n ready_to_read refl refl p.sender in_recvfrom g.sends_on tt g)
  receiver_turn-Kept in_recvfrom p n a g = elim (receiver_turn-ReceiveEnds k F law p n g) [
    | inl f ↦ inl f
    | inr (inl (same, _)) ↦ inr (n, rw same g)
    | inr (inr (m, _, g', _, _)) ↦ inr (m, g')
  ]
  receiver_turn-Kept in_sleep p n a g = inr (n, wakes p n g)
  receiver_turn-Kept (receiver_exited c) p n a g = inr (n, g)

  turn-Kept : (w : Who) (p : System k) (n : ℕ) → Going k F law p n → Kept (turn k w p)
  unfolding turn
  turn-Kept parent p n g = sender_turn-Kept p.sender p n g.sends_on g
  turn-Kept child p n g = receiver_turn-Kept p.receiver p n g.reads_on g

  pub run-Kept : (ws : List Who) (p : System k) (n : ℕ) → Going k F law p n → Kept (run k ws p)
  unfolding run
  run-Kept [] p n g = inr (n, g)
  run-Kept (w ∷ ws) p n g = elim (turn-Kept w p n g) [
    | inl f ↦ inl f
    | inr (m, g') ↦ run-Kept ws (turn k w p) m g'
  ]
