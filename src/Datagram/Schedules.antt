-- ===== src/Datagram/Schedules.antt =====
-- `main` of unix_domain_datagram_sock.c: what holds after every schedule, and that the processes go on.
use textbooks.Base.{
  ℕ, ◌+◌, ◌*◌, ◌≡◌, ◌⊎◌, refl, ◌∙◌, inl, inr, Option, none, some, List, [], arith, replicate,
  Option-cases,
}
use textbooks.Base.Ends.{Ends, returned, failed}
use textbooks.Datagram.Calls.{Datagrams, IsDatagrams}
use textbooks.Datagram.Pair.{sender_begins, Who, parent, System, run, at_fork, main}
use textbooks.Datagram.Queue.{Reads, Going}
use textbooks.Datagram.Steps.{run-Kept}
use textbooks.Datagram.Turns.{Stuck, fills_up}
use textbooks.Datagram.Progress.{Progress, progresses}

module _ (k : Datagrams) (F : Type 0) (law : IsDatagrams k F) where
  begins :
      (a b : ℕ) (s : k.State) (pid : Option ℕ)
      → law.Joined a b s
      → law.queue b s ≡ []
      → Going k F law
          (record {
            kernel = s;
            sender_sock = a;
            receiver_sock = b;
            sender = sender_begins;
            receiver = at_fork pid;
            buf = [];
            output = [];
          })
          0
  begins a b s pid joined none_wait = record {
    joined = joined;
    waiting = none_wait;
    bounded = omega arith;
    counts = refl;
    sends_on = tt;
    reads_on = elim pid as (λ d. Reads (at_fork d)) [ none ↦ tt | some _ ↦ tt ];
    got = inl refl;
  }

  after_main :
      (P : System k → Type 0)
      → ((p : System k) (n : ℕ) → Going k F law p n → F ⊎ P p)
      → (s : k.State) (ws : List Who) → Ends F (λ p _. F ⊎ P (run k ws p)) (λ _. ⊥) (main k s)
  unfolding main
  after_main P holds s ws = elim (Option-cases (k.socketpair s).0) [
    | inl e ↦ rw e (failed (law.no_pair s e))
    | inr ((a, b), e) ↦
        let (joined, none_wait) = law.pairs s a b e in
        let (joined', same) = law.forks a b (k.socketpair s).1 joined in
        rw e (
          returned
            (elim (run-Kept k F law ws _ 0
              (begins a b _ (k.fork (k.socketpair s).1).0 joined' (same ∙ none_wait))) [
                | inl f ↦ inl f
                | inr (n, g) ↦ holds _ n g
              ]))
  ]

  -- There is a reason why a call failed, or, after every schedule of turns, the two processes go on:
  -- whole messages wait at the receiver's socket, no more than the limit, as many as the sender printed
  -- `sent` more often than the receiver printed `read!`, and the receiver's buffer has the first letter.
  pub main-Going :
      (s : k.State) (ws : List Who)
      → Ends F (λ p _. F ⊎ ((n : ℕ) × Going k F law (run k ws p) n)) (λ _. ⊥) (main k s)
  main-Going = after_main (λ p. (n : ℕ) × Going k F law p n) λ p n g. inr (n, g)

  -- There is a reason why a call failed, or, after every schedule, the processes have not come to a
  -- halt: three turns of one of them send a message more or read one more, unless `fork` returned -1.
  pub main-Progress :
      (s : k.State) (ws : List Who)
      → Ends F (λ p _. F ⊎ Progress k F law (run k ws p)) (λ _. ⊥) (main k s)
  main-Progress = after_main (Progress k F law) (progresses k F law)

  -- There is a reason why a call failed, or, after every schedule, the parent comes to wait in `sendto`
  -- when it alone goes on, after a number of turns that the limit bounds, with messages in the queue.
  pub main-Stuck :
      (m : ℕ) (s : k.State) (ws : List Who)
      → Ends F
          (λ p _. F ⊎ Stuck k F law (run k (replicate (4 + 2 * law.limit + m) parent) (run k ws p)))
          (λ _. ⊥)
          (main k s)
  main-Stuck m =
      after_main (λ p. Stuck k F law (run k (replicate (4 + 2 * law.limit + m) parent) p))
        λ p n g. fills_up k F law p.sender p n m refl g.sends_on g
