-- ===== src/Datagram/Turns.antt =====
-- The sender of unix_domain_datagram_sock.c alone comes to wait.
use textbooks.Base.{
  ℕ, zero, suc, ◌+◌, ◌*◌, ◌≡◌, ◌<◌, ◌⊎◌, refl, ap, ◌∙◌, inl, inr, ◌∷◌, arith, replicate,
}
use textbooks.Datagram.Calls.{Datagrams, IsDatagrams}
use textbooks.Datagram.Pair.{
  at_sender_sock, sending_data, ready_to_read, Sender, sender_begins, sender_loops, in_sendto,
  sender_exited, Receiver, receiver_loops, in_recvfrom, Who, parent, child, System, sender_turn,
  receiver_turn, turn, run,
}
use textbooks.Datagram.Queue.{Sends, Going, sender_turn-SendEnds}
use textbooks.Datagram.Steps.{printed}

module _ (k : Datagrams) (F : Type 0) (law : IsDatagrams k F) where
  pub at_sender : {c : Sender} (p : System k) → p.sender ≡ c → turn k parent p ≡ sender_turn k c p
  unfolding turn
  at_sender p e = ap (λ c. sender_turn k c p) e

  pub at_receiver :
      {c : Receiver} (p : System k) → p.receiver ≡ c → turn k child p ≡ receiver_turn k c p
  unfolding turn
  at_receiver p e = ap (λ c. receiver_turn k c p) e

  pub after_turn :
      (p : System k) {q : System k} (w : Who) (t : ℕ)
      → turn k w p ≡ q
      → run k (replicate (suc t) w) p ≡ run k (replicate t w) q
  unfolding run
  after_turn p w t e = ap (run k (replicate t w)) e

  pub run_stays : (w : Who) (t : ℕ) (p : System k) → turn k w p ≡ p → run k (replicate t w) p ≡ p
  unfolding run
  run_stays w zero p e = refl
  run_stays w (suc t) p e = after_turn p w t e ∙ run_stays w t p e

  -- The sender is in `sendto`, which waits: another turn of it changes nothing.
  abbrev pub Stuck : System k → Type 0
  Stuck q = (q.sender ≡ in_sendto) × (turn k parent q ≡ q) × ((n : ℕ) × (0 < n) × Going k F law q n)

  pub prints_sending :
      (q : System k) (n : ℕ)
      → q.sender ≡ sender_loops
      → Going k F law q n
      → (turn k parent q ≡ record q { sender = in_sendto; output = sending_data ∷ q.output })
        × Going k F law (record q { sender = in_sendto; output = sending_data ∷ q.output }) n
  unfolding sender_turn
  prints_sending q n e g = (
    at_sender q e,
    printed k F law q n sending_data refl refl in_sendto q.receiver tt g.reads_on g,
  )

  pub prints_ready :
      (q : System k) (n : ℕ)
      → q.receiver ≡ receiver_loops
      → Going k F law q n
      → (turn k child q ≡ record q { receiver = in_recvfrom; output = ready_to_read ∷ q.output })
        × Going k F law (record q { receiver = in_recvfrom; output = ready_to_read ∷ q.output }) n
  unfolding receiver_turn
  prints_ready q n e g = (
    at_receiver q e,
    printed k F law q n ready_to_read refl refl q.sender in_recvfrom g.sends_on tt g,
  )

  pub fills :
      (r : ℕ) (p : System k) (n m : ℕ)
      → Going k F law p n
      → p.sender ≡ in_sendto
      → law.limit < n + r
      → F ⊎ Stuck (run k (replicate (2 * r + m) parent) p)
  fills zero p n m g e h = absurd (omega (arith, h, g.bounded))
  fills (suc r) p n m g e h = elim (sender_turn-SendEnds k F law p n g) [
    | inl f ↦ inl f
    | inr (inl (same, some_wait)) ↦
        let stuck = at_sender p e ∙ same in
        inr (rw (run_stays parent (2 * suc r + m) p stuck) (e, stuck, (n, some_wait, g)))
    | inr (inr (g', loops, out)) ↦
        let q = sender_turn k in_sendto p in
        let (prints, g'') = prints_sending q (suc n) loops g' in
        let rest =
          fills r (record q { sender = in_sendto; output = sending_data ∷ q.output }) (suc n) m g''
            refl (omega (arith, h)) in
        let steps : 2 * suc r + m ≡ suc (suc (2 * r + m)) = omega arith in
        rw
          (
            steps,
            after_turn p parent (suc (2 * r + m)) (at_sender p e),
            after_turn q parent (2 * r + m) prints,
          )
          rest
  ]

  -- Alone, the parent comes to wait.
  pub fills_up :
      (c : Sender) (p : System k) (n m : ℕ)
      → p.sender ≡ c
      → Sends c
      → Going k F law p n
      → F ⊎ Stuck (run k (replicate (4 + 2 * law.limit + m) parent) p)
  unfolding sender_turn
  fills_up sender_begins p n m e a g =
      let q = record p { sender = sender_loops; output = at_sender_sock ∷ p.output } in
      let g1 =
        printed k F law p n at_sender_sock refl refl sender_loops p.receiver tt g.reads_on g in
      let (prints, g2) = prints_sending q n refl g1 in
      let rest =
        fills (suc law.limit) (record q { sender = in_sendto; output = sending_data ∷ q.output }) n
          m g2 refl (omega arith) in
      let steps : 4 + 2 * law.limit + m ≡ suc (suc (2 * suc law.limit + m)) = omega arith in
      rw
        (
          steps,
          after_turn p parent (suc (2 * suc law.limit + m)) (at_sender p e),
          after_turn q parent (2 * suc law.limit + m) prints,
        )
        rest
  fills_up sender_loops p n m e a g =
      let (prints, g1) = prints_sending p n e g in
      let rest =
        fills (suc law.limit) (record p { sender = in_sendto; output = sending_data ∷ p.output }) n
          (suc m) g1 refl (omega arith) in
      let steps : 4 + 2 * law.limit + m ≡ suc (2 * suc law.limit + suc m) = omega arith in
      rw (steps, after_turn p parent (2 * suc law.limit + suc m) prints) rest
  fills_up in_sendto p n m e a g =
      let steps : 4 + 2 * law.limit + m ≡ 2 * suc law.limit + (2 + m) = omega arith in
      rw steps (fills (suc law.limit) p n (2 + m) g e (omega arith))
  fills_up (sender_exited c) p n m e a g = absurd a
