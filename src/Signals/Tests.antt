-- ===== src/Signals/Tests.antt =====
-- Signals that arrive one after the other, and a table of actions.
use Prim.Native.String.{String}
use textbooks.Base.{
  Bool, ℕ, ◌+◌, ◌≡◌, ◌<◌, ◌≤◌, refl, sym, append-nil, inr, true, false, not, ◌==◌, if◌then◌else◌,
  Option, none, some, List, [], ◌∷◌, ◌++◌, arith,
}
use mathlib.Core.List.{map}
use mathlib.Core.Bool.{false≢true}
use textbooks.Base.Int.{pos}
use textbooks.Base.Ends.{Ends}
use textbooks.Posix.{update}
use textbooks.Signals.Defs.{
  nsig, Kernel, member, caught, Process, print_members, print_sigset, receiver_main,
}
use textbooks.Signals.Invariant.{count, count-append, InRange, IsKernel, Good}
use textbooks.Signals.Receiver.{idle, Delivers, Causes, receiver_main-Good}
use textbooks.Signals.Shown.{Shown}
use textbooks.Signals.Display.{or_empty, selected, from, line_of, print_sigset-selected}
use textbooks.Signals.Interrupt.{Action, Actions, IsActions, sa_restart}

-- Whether SIGUSR1 or SIGINT comes next, whether they are blocked, and the signals that came.
record Schedule : Type 0 where
  pub user_next : Bool
  pub blocked : Bool
  pub came : List ℕ

abbrev next_signals : Bool → List ℕ
next_signals user_next = if user_next then 10 ∷ (10 ∷ []) else 2 ∷ []

abbrev come : Bool → Bool → List ℕ → List ℕ × Schedule
come user_next true h = ([], record { user_next = user_next; blocked = true; came = h })
come user_next false h = (
  next_signals user_next,
  record { user_next = not user_next; blocked = false; came = h ++ next_signals user_next },
)

abbrev scheduled : Kernel
scheduled = record {
  State = Schedule;
  arrivals = λ s. come s.user_next s.blocked s.came;
  sigaction = λ n s. s;
  set_mask = λ sigset s. (true, record s { blocked = sigset 2 });
  get_mask = λ s. (some (λ sig. s.blocked), s);
  sigpending = λ s. (some (λ sig. sig == 10), s);
  sleep = λ n s. s;
}

come-arrives :
    (user_next blocked : Bool) (h : List ℕ)
    → ((come user_next blocked h).1.came ≡ h ++ (come user_next blocked h).0)
      × InRange (come user_next blocked h).0
come-arrives true true h = (sym (append-nil h), tt)
come-arrives false true h = (sym (append-nil h), tt)
come-arrives true false h = (refl, (omega arith, (omega arith, tt)))
come-arrives false false h = (refl, (omega arith, tt))

scheduled-IsKernel : IsKernel scheduled
scheduled-IsKernel = record {
  delivered = λ s. s.came;
  arrives = λ s. come-arrives s.user_next s.blocked s.came;
  installs = λ n s. refl;
  masks = λ sigset s. refl;
  pends = λ s. refl;
  sleeps = λ n s. refl;
}

stays_free :
    (user_next blocked : Bool) (h : List ℕ)
    → blocked ≡ false
    → (come user_next blocked h).1.blocked ≡ false
stays_free user_next true h e = e
stays_free user_next false h e = refl

comes :
    (user_next blocked : Bool) (h : List ℕ)
    → blocked ≡ false
    → 0
      < count 2
          (idle scheduled 2 (record { user_next = user_next; blocked = blocked; came = h })).came
comes user_next true h e = absurd (false≢true (sym e))
comes true false h e = omega (arith, count-append 2 (h ++ next_signals true) (next_signals false))
comes false false h e = omega (
  arith,
  count-append 2 (h ++ next_signals false) (next_signals true),
  count-append 2 h (next_signals false),
)

delivers : Delivers scheduled scheduled-IsKernel 2
unfolding scheduled-IsKernel
delivers = record {
  Free = λ s. s.blocked ≡ false;
  stays_free = λ s. stays_free s.user_next s.blocked s.came;
  installs_free = λ n s free. free;
  unblocks = λ s e. refl;
  comes = λ s. comes s.user_next s.blocked s.came;
}

-- Every call of the schedule succeeds.
no_cause : Causes scheduled ⊥
no_cause = record { masking = λ sigset s e. cc; pending = λ s e. cc }

abbrev start : Process scheduled
start = record {
  kernel = record { user_next = true; blocked = false; came = [] };
  memory = record { sig_cnt = λ _. 0; got_sigint = false };
  output = [];
}

abbrev three : String → Option ℕ
three text = some 3

receiver_main-Good_example :
    Ends ⊥
      (λ _ _. ⊥)
      (λ p.
        Good scheduled scheduled-IsKernel true p
        × ((sig : ℕ) → 1 ≤ sig → sig < nsig → Shown scheduled scheduled-IsKernel sig p))
      (receiver_main scheduled three 3 ("sig_receiver" ∷ ("3" ∷ [])) start)
unfolding scheduled-IsKernel delivers
receiver_main-Good_example =
    receiver_main-Good scheduled scheduled-IsKernel no_cause three (λ text e. cc) 2 delivers
      ("sig_receiver" ∷ ("3" ∷ [])) start.kernel refl refl

print_sigset-selected_example :
    print_sigset (λ sig. sig == 10) ≡ or_empty (selected (λ sig. sig == 10) (from 1 64))
print_sigset-selected_example = print_sigset-selected (λ sig. sig == 10)

-- Signal 10 is the only member.
one_member : print_sigset (λ sig. sig == 10) ≡ member 10 ∷ []
unfolding print_members print_sigset
one_member = refl

-- No signal arrives.
abbrev silent : Kernel
silent = record {
  State = Unit;
  arrivals = λ s. ([], s);
  sigaction = λ n s. s;
  set_mask = λ sigset s. (true, s);
  get_mask = λ s. (none, s);
  sigpending = λ s. (none, s);
  sleep = λ n s. s;
}

abbrev counted : Process silent
counted = record {
  kernel = tt;
  memory = record {
    sig_cnt = λ n. if n == 10 then 2 else if n == 12 then 1 else 0;
    got_sigint = true;
  };
  output = [];
}

-- Two signals were caught.
two_lines :
    map
      (line_of counted.memory)
      (selected (λ sig. not (counted.memory.sig_cnt sig == 0)) (from 1 64))
    ≡ caught 10 (pos 2) true ∷ (caught 12 (pos 1) false ∷ [])
two_lines = refl

abbrev actions : Actions
actions = record {
  State = ℕ → Action;
  get_action = λ sig s. (some (s sig), s);
  set_action = λ sig act s. (true, update s sig act);
}

actions-IsActions : IsActions actions
actions-IsActions = record {
  table = λ s. s;
  gets = λ sig s. (refl, inr refl);
  sets = λ sig act s. inr (refl, refl);
}

-- Every action has SA_RESTART and one other flag.
abbrev restarting : ℕ → Action
restarting sig = record { flags = sa_restart + 4; other = sig }
