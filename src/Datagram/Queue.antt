-- ===== src/Datagram/Queue.antt =====
-- The queue between the two processes of unix_domain_datagram_sock.c, under every schedule.
use textbooks.Base.{
  ℕ, zero, suc, ◌+◌, ◌≡◌, ◌<◌, ◌≤◌, ◌⊎◌, refl, sym, ap, ◌∙◌, inl, inr, Bool, true, false,
  if◌then◌else◌, List, [], ◌∷◌, ◌++◌, arith, length, replicate, length-replicate, take, drop,
  get_or,
}
use textbooks.Datagram.Calls.{
  Outcome, Datagrams, IsDatagrams, Sent, full, refused, queued, Received, empty, not_received,
  first,
}
use textbooks.Datagram.Pair.{
  Line, sent, read_one, Sender, sender_loops, in_sendto, sender_exited, Receiver, in_recvfrom,
  in_sleep, receiver_exited, message, receiver_bufsize, System, after_send, sender_turn,
  after_receive, receiver_turn,
}

abbrev pub is_sent : Line → Bool
is_sent sent = true
is_sent _ = false

abbrev pub is_read : Line → Bool
is_read read_one = true
is_read _ = false

-- How many lines of the output are of a kind.
abbrev pub times : (Line → Bool) → List Line → ℕ
times kind [] = 0
times kind (l ∷ ls) = let rest = times kind ls in if kind l then suc rest else rest

abbrev pub Sends : Sender → Type 0
Sends (sender_exited c) = ⊥
Sends _ = Unit

abbrev pub Reads : Receiver → Type 0
Reads (receiver_exited c) = ⊥
Reads _ = Unit

-- The letter h, the first byte of the message.
abbrev pub letter : List ℕ
letter = 104 ∷ []

module _ (k : Datagrams) (F : Type 0) (law : IsDatagrams k F) where
  -- Both processes go on, `n` whole messages wait at the receiver's socket, and as many lines `sent`
  -- were printed more than lines `read!`. The receiver's buffer has the first byte of the message once
  -- it has anything.
  pub record Going (p : System k) (n : ℕ) : Type 0 where
    pub joined : law.Joined p.sender_sock p.receiver_sock p.kernel
    pub waiting : law.queue p.receiver_sock p.kernel ≡ replicate n message
    pub bounded : n ≤ law.limit
    pub counts : times is_sent p.output ≡ times is_read p.output + n
    pub sends_on : Sends p.sender
    pub reads_on : Reads p.receiver
    pub got : (times is_read p.output ≡ 0) ⊎ (p.buf ≡ letter)

  one_behind : (n : ℕ) → replicate n message ++ (message ∷ []) ≡ replicate (suc n) message
  one_behind zero = refl
  one_behind (suc n) = ap (λ l. message ∷ l) (one_behind n)

  -- What `sendto` leads to: a wait with a message in the queue, or one message more.
  abbrev pub SendEnds : System k → ℕ → System k → Type 0
  SendEnds p n q =
      F
      ⊎ (((q ≡ p) × (0 < n))
          ⊎ (Going q (suc n) × (q.sender ≡ sender_loops) × (q.output ≡ sent ∷ p.output)))

  after_send-Going :
      {o : Outcome k.State ℕ} (p : System k) (n : ℕ)
      → Going p n
      → Sent k F
          (law.Joined p.sender_sock p.receiver_sock)
          (law.queue p.receiver_sock)
          p.kernel
          law.limit
          message
          o
      → SendEnds p n (after_send k p o)
  unfolding after_send
  after_send-Going p n g (full some_wait) =
      inr (inl (refl, omega (arith, some_wait, ap length g.waiting, length-replicate n message)))
  after_send-Going p n g (refused f) = inl f
  after_send-Going p n g (queued {s'} fits behind joined) =
      let now : law.queue p.receiver_sock s' ≡ replicate (suc n) message =
        behind ∙ ap (λ l. l ++ (message ∷ [])) g.waiting ∙ one_behind n in
      inr (
        inr (
          record {
            joined = joined;
            waiting = now;
            bounded = omega (arith, fits, ap length now, length-replicate (suc n) message);
            counts = omega (arith, g.counts);
            sends_on = tt;
            reads_on = g.reads_on;
            got = g.got;
          },
          refl,
          refl,
        ))

  -- What `recvfrom` leads to: a wait at an empty queue, or one message less.
  abbrev pub ReceiveEnds : System k → ℕ → System k → Type 0
  ReceiveEnds p n q =
      F
      ⊎ (((q ≡ p) × (n ≡ 0))
          ⊎ ((m : ℕ) × (n ≡ suc m)
              × Going q m
              × (q.receiver ≡ in_sleep)
              × (q.output ≡ read_one ∷ p.output)))

  after_receive-Going :
      {o : Outcome k.State (List ℕ)} (p : System k) (n : ℕ)
      → Going p n
      → Received k F
          (law.Joined p.sender_sock p.receiver_sock)
          (law.queue p.receiver_sock)
          p.kernel
          receiver_bufsize
          o
      → ReceiveEnds p n (after_receive k p o)
  unfolding after_receive
  after_receive-Going p n g (empty none_waits) = inr (
      inl (refl, omega (arith, ap length (sym none_waits ∙ g.waiting), length-replicate n message)))
  after_receive-Going p n g (not_received f) = inl f
  after_receive-Going p zero g (first at_queue later joined) =
      absurd (omega (arith, ap length (sym at_queue ∙ g.waiting)))
  after_receive-Going p (suc m) g (first {s'} {msg} {rest} at_queue later joined) =
      let same : msg ∷ rest ≡ message ∷ replicate m message = sym at_queue ∙ g.waiting in
      let one : take receiver_bufsize msg ≡ letter = ap (λ l. take 1 (get_or l 0 [])) same in
      rw one (
        inr (
          inr (
            m,
            refl,
            record {
              joined = joined;
              waiting = later ∙ ap (drop 1) same;
              bounded = omega (arith, g.bounded);
              counts = omega (arith, g.counts);
              sends_on = g.sends_on;
              reads_on = tt;
              got = inr refl;
            },
            refl,
            refl,
          )))

  module _ (p : System k) (n : ℕ) (g : Going p n) where
    pub sender_turn-SendEnds : SendEnds p n (sender_turn k in_sendto p)
    unfolding sender_turn
    sender_turn-SendEnds =
        after_send-Going p n g (law.sends p.sender_sock p.receiver_sock message p.kernel g.joined)

    pub receiver_turn-ReceiveEnds : ReceiveEnds p n (receiver_turn k in_recvfrom p)
    unfolding receiver_turn
    receiver_turn-ReceiveEnds =
        after_receive-Going p n g
          (law.receives p.sender_sock p.receiver_sock receiver_bufsize p.kernel g.joined)
