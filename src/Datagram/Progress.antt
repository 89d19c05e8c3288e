-- ===== src/Datagram/Progress.antt =====
-- The two processes of unix_domain_datagram_sock.c come to no halt.
use textbooks.Base.{ℕ, zero, suc, ◌≡◌, ◌<◌, ◌≤◌, ◌⊎◌, refl, inl, inr, Bool, ◌∷◌, arith, replicate}
use textbooks.Datagram.Calls.{Datagrams, IsDatagrams}
use textbooks.Datagram.Pair.{
  Line, at_sender_sock, sending_data, at_receiver_sock, ready_to_read, Sender, sender_begins,
  sender_loops, in_sendto, sender_exited, Receiver, no_child, receiver_begins, receiver_loops,
  in_recvfrom, in_sleep, receiver_exited, Who, parent, child, System, sender_turn, receiver_turn,
  turn, run,
}
use textbooks.Datagram.Queue.{
  is_sent, is_read, times, Sends, Reads, Going, sender_turn-SendEnds, receiver_turn-ReceiveEnds,
}
use textbooks.Datagram.Steps.{printed, wakes}
use textbooks.Datagram.Turns.{at_sender, at_receiver, prints_sending, prints_ready}

ap_inr : {F A B : Type 0} → F ⊎ A → (A → B) → F ⊎ B
ap_inr (inl f) h = inl f
ap_inr (inr a) h = inr (h a)

module _ (k : Datagrams) (F : Type 0) (law : IsDatagrams k F) where
  abbrev More : (Line → Bool) → Who → System k → Type 0
  More kind w p =
      (j : ℕ) × (j ≤ 3) × (times kind (run k (replicate j w) p).output ≡ suc (times kind p.output))

  -- In three turns of one process, a message more is sent, or one more is read.
  abbrev pub Progress : System k → Type 0
  Progress p = (p.receiver ≡ no_child) ⊎ (More is_sent parent p ⊎ More is_read child p)

  sends_more :
      (p : System k) (n : ℕ)
      → p.sender ≡ in_sendto
      → Going k F law p n
      → F ⊎ ((0 < n) ⊎ (times is_sent (turn k parent p).output ≡ suc (times is_sent p.output)))
  sends_more p n e g = elim (sender_turn-SendEnds k F law p n g) [
    | inl f ↦ inl f
    | inr (inl (_, some_wait)) ↦ inr (inl some_wait)
    | inr (inr (_, _, out)) ↦ inr (inr (rw (at_sender k F law p e, out) refl))
  ]

  reads_more :
      (p : System k) (n : ℕ)
      → p.receiver ≡ in_recvfrom
      → Going k F law p (suc n)
      → F ⊎ (times is_read (turn k child p).output ≡ suc (times is_read p.output))
  reads_more p n e g = elim (receiver_turn-ReceiveEnds k F law p (suc n) g) [
    | inl f ↦ inl f
    | inr (inl (_, none_wait)) ↦ absurd (omega (arith, none_wait))
    | inr (inr (m, _, _, _, out)) ↦ inr (rw (at_receiver k F law p e, out) refl)
  ]

  soon_sent :
      (c : Sender) (p : System k) (n : ℕ)
      → p.sender ≡ c
      → Sends c
      → Going k F law p n
      → F ⊎ ((0 < n) ⊎ More is_sent parent p)
  unfolding run sender_turn
  soon_sent sender_begins p n e a g =
      let q = record p { sender = sender_loops; output = at_sender_sock ∷ p.output } in
      let g1 =
        printed k F law p n at_sender_sock refl refl sender_loops p.receiver tt g.reads_on g in
      let (prints, g2) = prints_sending k F law q n refl g1 in
      elim (sends_more (record q { sender = in_sendto; output = sending_data ∷ q.output }) n refl
        g2) [
          | inl f ↦ inl f
          | inr (inl some_wait) ↦ inr (inl some_wait)
          | inr (inr more) ↦ inr (inr (3, omega arith, rw (at_sender k F law p e, prints) more))
        ]
  soon_sent sender_loops p n e a g =
      let (prints, g1) = prints_sending k F law p n e g in
      elim (sends_more (record p { sender = in_sendto; output = sending_data ∷ p.output }) n refl
        g1) [
          | inl f ↦ inl f
          | inr (inl some_wait) ↦ inr (inl some_wait)
          | inr (inr more) ↦ inr (inr (2, omega arith, rw prints more))
        ]
  soon_sent in_sendto p n e a g = elim (sends_more p n e g) [
    | inl f ↦ inl f
    | inr (inl some_wait) ↦ inr (inl some_wait)
    | inr (inr more) ↦ inr (inr (1, omega arith, more))
  ]
  soon_sent (sender_exited c) p n e a g = absurd a

  soon_read :
      (d : Receiver) (p : System k) (n : ℕ)
      → p.receiver ≡ d
      → Reads d
      → Going k F law p (suc n)
      → F ⊎ ((p.receiver ≡ no_child) ⊎ More is_read child p)
  unfolding run receiver_turn
  soon_read no_child p n e a g = inr (inl e)
  soon_read receiver_begins p n e a g =
      let q = record p { receiver = receiver_loops; output = at_receiver_sock ∷ p.output } in
      let g1 =
        printed k F law p (suc n) at_receiver_sock refl refl p.sender receiver_loops g.sends_on tt
          g in
      let (prints, g2) = prints_ready k F law q (suc n) refl g1 in
      ap_inr
        (reads_more (record q { receiver = in_recvfrom; output = ready_to_read ∷ q.output }) n refl
          g2)
        λ more. inr (3, omega arith, rw (at_receiver k F law p e, prints) more)
  soon_read receiver_loops p n e a g =
      let (prints, g1) = prints_ready k F law p (suc n) e g in
      ap_inr
        (reads_more (record p { receiver = in_recvfrom; output = ready_to_read ∷ p.output }) n refl
          g1)
        λ more. inr (2, omega arith, rw prints more)
  soon_read in_recvfrom p n e a g = ap_inr (reads_more p n e g) λ more. inr (1, omega arith, more)
  soon_read in_sleep p n e a g =
      let q = record p { kernel = k.sleep 1 p.kernel; receiver = receiver_loops } in
      let g1 = wakes k F law p (suc n) g in
      let (prints, g2) = prints_ready k F law q (suc n) refl g1 in
      ap_inr
        (reads_more (record q { receiver = in_recvfrom; output = ready_to_read ∷ q.output }) n refl
          g2)
        λ more. inr (3, omega arith, rw (at_receiver k F law p e, prints) more)
  soon_read (receiver_exited c) p n e a g = absurd a

  pub progresses : (p : System k) (n : ℕ) → Going k F law p n → F ⊎ Progress p
  progresses p zero g = elim (soon_sent p.sender p zero refl g.sends_on g) [
    | inl f ↦ inl f
    | inr (inl some_wait) ↦ absurd (omega (arith, some_wait))
    | inr (inr more) ↦ inr (inr (inl more))
  ]
  progresses p (suc n) g =
      ap_inr (soon_read p.receiver p n refl g.reads_on g)
        λ o. elim o [ inl alone ↦ inl alone | inr more ↦ inr (inr more) ]
