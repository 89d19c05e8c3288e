-- ===== src/Datagram/Course.antt =====
-- The processes of 57.4.c run through its stages as the schedule says.
use textbooks.Base.{
  ℕ, ◌≡◌, ◌⊎◌, refl, sym, ap, inl, inr, List, [], ◌∷◌, arith, length, take, drop, get_or, Option,
  none, some, Bool-cases, Option-cases,
}
use mathlib.Core.Path.{subst}
use textbooks.Datagram.Calls.{Outcome, gives}
use textbooks.Datagram.Named.{
  NamedSockets, path_a, path_b, path_c, hello_world, buf_size, ChildB, no_b, connects, b_sleeps,
  b_exited, no_c, c_sleeps, Process, parent, child_b, child_c, System, after_receive, parent_turn,
  b_turn, after_send, c_turn, turn, run, three_sockets, three_names, main,
}
use textbooks.Datagram.Stages.{
  Sent, full, refused, queued, Received, empty, not_received, first, IsNamed, Stage, one_fork,
  c_waits, c_ready, on_its_way, arrived, next, after, parent_of, c_of, queue_of, At,
}

module _ (k : NamedSockets) (F : Type 0) (law : IsNamed k F) where
  takes :
      (p : System k) (fd : ℕ) (q : List (List ℕ))
      → p.sock_a ≡ some fd
      → law.Holds (some path_a) fd q p.kernel
      → Received k.State F
          (law.Holds (some path_a) fd)
          q
          buf_size
          (k.recvfrom p.sock_a buf_size p.kernel)
  takes p fd q e h =
      subst
        (λ o.
          Received k.State F (law.Holds (some path_a) fd) q buf_size
            (k.recvfrom o buf_size p.kernel))
        (sym e) (law.receives_from fd buf_size path_a q p.kernel h)

  nothing_came :
      {o : Outcome k.State (List ℕ)} (st : Stage) (p : System k) (fd : ℕ)
      → At k F law st p
      → Received k.State F (law.Holds (some path_a) fd) [] buf_size o
      → F ⊎ At k F law st (after_receive k p o)
  unfolding after_receive
  nothing_came st p fd g (empty e) = inr g
  nothing_came st p fd g (not_received f) = inl f
  nothing_came st p fd g (first e h) = absurd (omega (arith, ap length e))

  it_came :
      {o : Outcome k.State (List ℕ)} (p : System k) (fd : ℕ)
      → p.sock_a ≡ some fd
      → p.c_at ≡ c_of arrived
      → Received k.State F (law.Holds (some path_a) fd) (hello_world ∷ []) buf_size o
      → F ⊎ At k F law arrived (after_receive k p o)
  unfolding after_receive
  it_came p fd sock c_is (empty e) = absurd (omega (arith, ap length e))
  it_came p fd sock c_is (not_received f) = inl f
  it_came p fd sock c_is (first {s} {msg} {rest} e h) =
      let same : msg ≡ hello_world = ap (λ l. get_or l 0 []) (sym e) in
      let none_left : rest ≡ [] = ap (drop 1) (sym e) in
      subst (λ m. F ⊎ At k F law arrived (after_receive k p (gives (take buf_size m) s))) (sym same)
        (inr (record {
          fd = fd;
          sock = sock;
          parent_is = refl;
          c_is = c_is;
          received_is = refl;
          holds = subst (λ l. law.Holds (some path_a) fd l s) none_left h;
        }))

  parent_turn-At :
      (st : Stage) (p : System k)
      → At k F law st p
      → F ⊎ At k F law (next st parent) (parent_turn k (parent_of st) p)
  unfolding parent_turn
  parent_turn-At one_fork p g = elim (Option-cases (k.fork p.kernel).0) [
    | inl e ↦ inl (law.no_child p.kernel e)
    | inr (pid, e) ↦ inr (record {
      fd = g.fd;
      sock = g.sock;
      parent_is = refl;
      c_is = ap (λ o. elim o [ none ↦ no_c | some _ ↦ c_sleeps ]) e;
      received_is = g.received_is;
      holds = law.forks (some path_a) g.fd [] p.kernel g.holds;
    })
  ]
  parent_turn-At c_waits p g = nothing_came c_waits p g.fd g (takes p g.fd [] g.sock g.holds)
  parent_turn-At c_ready p g = nothing_came c_ready p g.fd g (takes p g.fd [] g.sock g.holds)
  parent_turn-At on_its_way p g =
      it_came p g.fd g.sock g.c_is (takes p g.fd (hello_world ∷ []) g.sock g.holds)
  parent_turn-At arrived p g = inr g

  it_went :
      {o : Outcome k.State ℕ} (p : System k)
      → (g : At k F law c_ready p) → Sent k.State F (law.Holds (some path_a) g.fd) [] hello_world o
      → F ⊎ At k F law on_its_way (after_send k p o)
  unfolding after_send
  it_went p g (full h) = absurd (omega (arith, h))
  it_went p g (refused f) = inl f
  it_went p g (queued h) = inr (record {
    fd = g.fd;
    sock = g.sock;
    parent_is = g.parent_is;
    c_is = refl;
    received_is = g.received_is;
    holds = h;
  })

  c_turn-At :
      (st : Stage) (p : System k)
      → At k F law st p
      → F ⊎ At k F law (next st child_c) (c_turn k (c_of st) p)
  unfolding c_turn
  c_turn-At one_fork p g = inr g
  c_turn-At c_waits p g = inr (record {
    fd = g.fd;
    sock = g.sock;
    parent_is = g.parent_is;
    c_is = refl;
    received_is = g.received_is;
    holds = law.sleeps 5 (some path_a) g.fd [] p.kernel g.holds;
  })
  c_turn-At c_ready p g =
      it_went p g (law.sends_to p.sock_c hello_world path_a g.fd [] p.kernel g.holds)
  c_turn-At on_its_way p g = inr g
  c_turn-At arrived p g = inr g

  b_turn-At :
      (c : ChildB) (st : Stage) (p : System k) → At k F law st p → At k F law st (b_turn k c p)
  unfolding b_turn
  b_turn-At no_b st p g = g
  b_turn-At connects st p g = record {
    fd = g.fd;
    sock = g.sock;
    parent_is = g.parent_is;
    c_is = g.c_is;
    received_is = g.received_is;
    holds = law.connecting p.sock_b path_b (some path_a) g.fd (queue_of st) p.kernel g.holds;
  }
  b_turn-At b_sleeps st p g = record {
    fd = g.fd;
    sock = g.sock;
    parent_is = g.parent_is;
    c_is = g.c_is;
    received_is = g.received_is;
    holds = law.sleeps 5 (some path_a) g.fd (queue_of st) p.kernel g.holds;
  }
  b_turn-At (b_exited status) st p g = g

  next_b : (st : Stage) → next st child_b ≡ st
  next_b one_fork = refl
  next_b c_waits = refl
  next_b c_ready = refl
  next_b on_its_way = refl
  next_b arrived = refl

  turn-At :
      (x : Process) (st : Stage) (p : System k)
      → At k F law st p
      → F ⊎ At k F law (next st x) (turn k x p)
  unfolding turn
  turn-At parent st p g =
      subst (λ c. F ⊎ At k F law (next st parent) (parent_turn k c p)) (sym g.parent_is)
        (parent_turn-At st p g)
  turn-At child_b st p g = inr (rw (next_b st) (b_turn-At p.b_at st p g))
  turn-At child_c st p g =
      subst (λ c. F ⊎ At k F law (next st child_c) (c_turn k c p)) (sym g.c_is) (c_turn-At st p g)

  run-At :
      (xs : List Process) (st : Stage) (p : System k)
      → At k F law st p
      → F ⊎ At k F law (after xs st) (run k xs p)
  unfolding run
  run-At [] st p g = inr g
  run-At (x ∷ xs) st p g = elim (turn-At x st p g) [
    | inl f ↦ inl f
    | inr g' ↦ run-At xs (next st x) (turn k x p) g'
  ]

  gets_name :
      (sock : Option ℕ) (fd : ℕ) (s : k.State)
      → sock ≡ some fd
      → law.Holds none fd [] s
      → F ⊎ law.Holds (some path_a) fd [] (k.bind sock path_a s).1
  gets_name sock fd s e h =
      subst (λ o. F ⊎ law.Holds (some path_a) fd [] (k.bind o path_a s).1) (sym e)
        (elim (Bool-cases (k.bind (some fd) path_a s).0) [
          | inl bound ↦ inr (law.binds fd path_a s h bound)
          | inr not ↦ inl (law.not_bound fd path_a s h not)
        ])

  three_removed :
      (fd : ℕ) (s : k.State)
      → law.Holds none fd [] s
      → law.Holds none fd [] (k.remove path_c (k.remove path_b (k.remove path_a s).1).1).1
  three_removed fd s h =
      law.removes path_c fd [] _ (law.removes path_b fd [] _ (law.removes path_a fd [] s h))

  main-At : (s : k.State) → F ⊎ At k F law one_fork (main k s)
  unfolding main three_sockets three_names
  main-At s = elim (Option-cases (k.socket s).0) [
    | inl e ↦ inl (law.no_socket s e)
    | inr (fd, e) ↦
        let (not_b, h2) = law.others none fd [] _ (law.makes fd s e) in
        let (not_c, h3) = law.others none fd [] _ h2 in
        elim (gets_name (k.socket s).0 fd _ e (three_removed fd _ h3)) [
          | inl f ↦ inl f
          | inr h4 ↦
              let h5 = law.binds_another _ path_b (some path_a) fd [] _ not_b h4 in
              let h6 = law.binds_another _ path_c (some path_a) fd [] _ not_c h5 in
              inr (record {
                fd = fd;
                sock = e;
                parent_is = refl;
                c_is = refl;
                received_is = refl;
                holds = law.forks (some path_a) fd [] _ h6;
              })
        ]
  ]

  -- There is a reason why a call failed, or the three processes are, after every schedule, at the stage
  -- that the schedule leads to: the parent's second fork, the two steps of the third process, then the
  -- parent's `recvfrom`, which receives the whole message. Turns in another order change nothing.
  pub main-after :
      (s : k.State) (xs : List Process) → F ⊎ At k F law (after xs one_fork) (run k xs (main k s))
  main-after s xs = elim (main-At s) [ inl f ↦ inl f | inr g ↦ run-At xs one_fork (main k s) g ]
