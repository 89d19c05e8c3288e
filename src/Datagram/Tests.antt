-- ===== src/Datagram/Tests.antt =====
-- A pair of sockets with room for two datagrams.
use textbooks.Base.{
  ℕ, ◌⊎◌, ◌+◌, ◌*◌, refl, some, List, [], ◌∷◌, ◌++◌, arith, length, take, replicate, ltb, ltb→lt,
  length-append, if-cases, if◌then◌else◌,
}
use textbooks.Base.Ends.{Ends}
use textbooks.Datagram.Calls.{
  Outcome, waits, gives, Datagrams, IsDatagrams, Sent, full, queued, Received, empty, first,
}
use textbooks.Datagram.Pair.{Who, parent, child, main, run}
use textbooks.Datagram.Queue.{Going}
use textbooks.Datagram.Turns.{Stuck}
use textbooks.Datagram.Progress.{Progress}
use textbooks.Datagram.Schedules.{main-Going, main-Progress, main-Stuck}

abbrev room : ℕ
room = 2

abbrev Queued : Type 0
Queued = List (List ℕ)

abbrev put : ℕ → List ℕ → Queued → Outcome Queued ℕ
put fd msg q = if ltb (length q) room then gives (length msg) (q ++ (msg ∷ [])) else waits

abbrev take_one : ℕ → ℕ → Queued → Outcome Queued (List ℕ)
take_one fd n [] = waits
take_one fd n (msg ∷ rest) = gives (take n msg) rest

abbrev two_places : Datagrams
two_places = record {
  State = Queued;
  socketpair = λ q. (some (3, 4), []);
  fork = λ q. (some 77, q);
  sendto = put;
  recvfrom = take_one;
  sleep = λ n q. q;
}

put-Sent :
    (a : ℕ) (msg : List ℕ) (q : Queued)
    → Sent two_places ⊥ (λ _. Unit) (λ s. s) q room msg (put a msg q)
put-Sent a msg q =
    if-cases (Sent two_places ⊥ (λ _. Unit) (λ s. s) q room msg) (ltb (length q) room) _ _
      (λ y. queued (omega (arith, ltb→lt (length q) room y, length-append q (msg ∷ []))) refl tt)
      (λ n. full (ground (arith, n)))

take_one-Received :
    (b n : ℕ) (q : Queued) → Received two_places ⊥ (λ _. Unit) (λ s. s) q n (take_one b n q)
take_one-Received b n [] = empty refl
take_one-Received b n (msg ∷ rest) = first refl refl tt

two_places-IsDatagrams : IsDatagrams two_places ⊥
two_places-IsDatagrams = record {
  Joined = λ a b q. Unit;
  queue = λ b q. q;
  limit = room;
  no_pair = λ q e. ground (arith, e);
  pairs = λ q a b e. (tt, refl);
  forks = λ a b q j. (tt, refl);
  sends = λ a b msg q j. put-Sent a msg q;
  receives = λ a b n q j. take_one-Received b n q;
  sleeps = λ a b n q j. (tt, refl);
}

abbrev schedule : List Who
schedule =
    parent ∷ (child ∷ (parent ∷ (child ∷ (parent ∷ (child ∷ (parent ∷ (parent ∷ (child ∷ []))))))))

abbrev start : Queued
start = []

main-Going_example :
    Ends ⊥
      (λ p _.
        ⊥ ⊎ ((n : ℕ) × Going two_places ⊥ two_places-IsDatagrams (run two_places schedule p) n))
      (λ _. ⊥)
      (main two_places start)
main-Going_example = main-Going two_places ⊥ two_places-IsDatagrams start schedule

main-Progress_example :
    Ends ⊥
      (λ p _. ⊥ ⊎ Progress two_places ⊥ two_places-IsDatagrams (run two_places schedule p))
      (λ _. ⊥)
      (main two_places start)
main-Progress_example = main-Progress two_places ⊥ two_places-IsDatagrams start schedule

abbrev nine : ℕ
nine = 9

main-Stuck_example :
    Ends ⊥
      (λ p _.
        ⊥
        ⊎ Stuck two_places ⊥ two_places-IsDatagrams (
            run two_places
              (replicate (4 + 2 * two_places-IsDatagrams.limit + nine) parent)
              (run two_places schedule p)))
      (λ _. ⊥)
      (main two_places start)
main-Stuck_example = main-Stuck two_places ⊥ two_places-IsDatagrams nine start schedule
