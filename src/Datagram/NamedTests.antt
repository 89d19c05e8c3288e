-- ===== src/Datagram/NamedTests.antt =====
-- 57.4.c on sockets whose queues are lists.
use textbooks.Base.{
  ℕ, suc, ◌≡◌, ◌≢◌, ◌⊎◌, ◌<◌, refl, sym, ap, inl, inr, true, Bool, ◌==◌, if◌then◌else◌, Bool-cases,
  none, some, Option, List, [], ◌∷◌, ◌++◌, arith, length, take, get_or,
}
use mathlib.Core.Path.{subst}
use textbooks.Posix.{update}
use textbooks.Datagram.Calls.{Outcome, waits, gives}
use textbooks.Datagram.Named.{NamedSockets, Process, parent, child_b, child_c, main, run}
use textbooks.Datagram.Stages.{
  queued, Received, empty, first, IsNamed, one_fork, arrived, after, At,
}
use textbooks.Datagram.Course.{main-after}

-- The next descriptor, the number of each socket's name, and what waits at it.
record Machine : Type 0 where
  pub next : ℕ
  pub name : ℕ → ℕ
  pub queue : ℕ → List (List ℕ)

-- The letter of "/tmp/a1" that tells the names apart.
abbrev number : List ℕ → ℕ
number path = get_or path 5 0

abbrev bind_socket : Option ℕ → List ℕ → Machine → Bool × Machine
bind_socket none path s = (true, s)
bind_socket (some fd) path s = (true, record s { name = update s.name fd (number path) })

abbrev take_one : ℕ → ℕ → Machine → List (List ℕ) → Outcome Machine (List ℕ)
take_one fd n s [] = waits
take_one fd n s (msg ∷ rest) = gives (take n msg) (record s { queue = update s.queue fd rest })

abbrev receive : Option ℕ → ℕ → Machine → Outcome Machine (List ℕ)
receive none n s = waits
receive (some fd) n s = take_one fd n s (s.queue fd)

-- A message goes to the sockets with the name.
abbrev deliver : List ℕ → List ℕ → Machine → ℕ → List (List ℕ)
deliver msg path s fd = if s.name fd == number path then s.queue fd ++ (msg ∷ []) else s.queue fd

abbrev sockets : NamedSockets
sockets = record {
  State = Machine;
  socket = λ s. (some s.next, record s { next = suc s.next; queue = update s.queue s.next [] });
  remove = λ path s. (true, s);
  bind = bind_socket;
  fork = λ s. (some 77, s);
  connect = λ fd path s. (true, s);
  sendto = λ fd msg path s. gives (length msg) (record s { queue = deliver msg path s });
  recvfrom = receive;
  sleep = λ n s. s;
}

abbrev HasName : Option (List ℕ) → ℕ → (ℕ → ℕ) → Type 0
HasName none fd names = Unit
HasName (some path) fd names = names fd ≡ number path

record Has (name : Option (List ℕ)) (fd : ℕ) (q : List (List ℕ)) (s : Machine) : Type 0 where
  pub made : fd < s.next
  pub named : HasName name fd s.name
  pub same : s.queue fd ≡ q

takes_one :
    (fd n : ℕ) (path : List ℕ) (q : List (List ℕ)) (s : Machine)
    → Has (some path) fd q s
    → Received Machine ⊥ (Has (some path) fd) q n (take_one fd n s q)
takes_one fd n path [] s h = empty refl
takes_one fd n path (msg ∷ rest) s h =
    first refl (record { made = h.made; named = h.named; same = ground arith })

binds_others :
    (sock : Option ℕ) (path : List ℕ) (name : Option (List ℕ)) (fd : ℕ) (q : List (List ℕ))
    (s : Machine)
    → sock ≢ some fd
    → Has name fd q s
    → Has name fd q (bind_socket sock path s).1
binds_others none path name fd q s ne h = h
binds_others (some fd') path none fd q s ne h = record { made = h.made; named = tt; same = h.same }
binds_others (some fd') path (some mine) fd q s ne h = record {
  made = h.made;
  named = elim (Bool-cases (fd == fd')) [
    | inl y ↦ absurd (ne (ap some (ground (arith, y))))
    | inr y ↦ rw y h.named
  ];
  same = h.same;
}

sockets-IsNamed : IsNamed sockets ⊥
sockets-IsNamed = record {
  Holds = Has;
  no_socket = λ s e. ground (arith, e);
  makes = λ fd s e.
      let same : s.next ≡ fd = ap (λ o. elim o [ none ↦ 0 | some x ↦ x ]) e in
      subst (λ x. Has none x [] (sockets.socket s).1) same
        (record { made = omega arith; named = tt; same = ground arith });
  others = λ name fd q s h. (
    λ e.
        let same : s.next ≡ fd = ap (λ o. elim o [ none ↦ 0 | some x ↦ x ]) e in
        absurd (omega (arith, h.made, same)),
    record { made = omega (arith, h.made); named = h.named; same = ground (arith, h.made, h.same) },
  );
  removes = λ path fd q s h. h;
  not_bound = λ fd path s h e. ground (arith, e);
  binds = λ fd path s h e. record { made = h.made; named = ground arith; same = h.same };
  binds_another = binds_others;
  no_child = λ s e. ground (arith, e);
  forks = λ name fd q s h. h;
  connecting = λ sock path name fd q s h. h;
  sleeps = λ n name fd q s h. h;
  sends_to = λ sock msg path fd q s h.
      queued (record { made = h.made; named = h.named; same = ground (arith, h.named, h.same) });
  receives_from = λ fd n path q s h.
      subst (λ l. Received Machine ⊥ (Has (some path) fd) q n (take_one fd n s l)) (sym h.same)
        (takes_one fd n path q s h);
}

abbrev schedule : List Process
schedule =
    child_c ∷ (parent ∷ (child_b ∷ (parent ∷ (child_c ∷ (child_c ∷ (child_b ∷ (parent ∷ [])))))))

abbrev start : Machine
start = record { next = 3; name = λ fd. 0; queue = λ fd. [] }

schedule-arrives : after schedule one_fork ≡ arrived
schedule-arrives = refl

main-after_example :
    ⊥
    ⊎ At sockets ⊥ sockets-IsNamed
        (after schedule one_fork)
        (run sockets schedule (main sockets start))
main-after_example = main-after sockets ⊥ sockets-IsNamed start schedule
