-- ===== src/Signals/Defs.antt =====
-- `handler` and `main` of tlpi/c20/20.1.c, and tlpi/c20/signal_functions.c.
use Prim.Native.String.{String}
use textbooks.Base.{
  ℕ, zero, suc, ◌+◌, ◌-◌, ◌%◌, ◌^◌, Bool, true, false, not, ◌==◌, Option, none, some, List, [], ◌∷◌,
  ◌++◌, if◌then◌else◌, ltb, Cmd, ok, fault, pure, exits, exit_failure, exit_success, out_of_fuel,
  ◌>>=◌, ◌>>◌,
}
use textbooks.Base.Int.{ℤ, signed32}
use textbooks.Posix.{update}

-- NSIG and SIGINT
abbrev pub nsig : ℕ
nsig = 65

abbrev pub sigint : ℕ
sigint = 2

abbrev pub Sigset : Type 0
Sigset = ℕ → Bool

-- The calls on signals. `arrivals` gives the signals for which the kernel calls the handler before the
-- process goes on.
pub record Kernel : Type 1 where
  pub State : Type 0
  pub arrivals : State → List ℕ × State
  pub sigaction : ℕ → State → State
  pub set_mask : Sigset → State → Bool × State
  pub get_mask : State → Option Sigset × State
  pub sigpending : State → Option Sigset × State
  pub sleep : ℕ → State → State

-- What is printed, without the names of the program and of the signals.
pub data Line : Type 0 where
  pid : Line
  sleeping : ℕ → Line
  title : Line
  message : String → Line
  member : ℕ → Line
  empty_set : Line
  -- The signal, how often it was caught, and whether an "s" follows.
  caught : ℕ → ℤ → Bool → Line

-- The variables of the program, `sigCnt` with `nsig` counts of 32 bits.
pub record Memory : Type 0 where
  pub sig_cnt : ℕ → ℕ
  pub got_sigint : Bool

pub record Process (k : Kernel) : Type 0 where
  pub kernel : k.State
  pub memory : Memory
  pub output : List Line

-- The loop of printSigset from `sig` on, with `n` signals to go, and the test of `cnt` behind it.
unfoldable pub print_members : Sigset → ℕ → ℕ → ℕ → List Line
print_members sigset sig zero cnt = if cnt == 0 then empty_set ∷ [] else []
print_members sigset sig (suc n) cnt =
    let found = print_members sigset (suc sig) n (suc cnt) in
    let next = print_members sigset (suc sig) n cnt in
    if sigset sig then member sig ∷ found else next

-- What printSigset prints.
unfoldable pub print_sigset : Sigset → List Line
print_sigset sigset = print_members sigset 1 (nsig - 1) 0

module _ (k : Kernel) where
  abbrev pub Command : Type 0 → Type 0
  Command A = Cmd (Process k) A

  abbrev pub on_kernel : {A : Type 0} → (k.State → A × k.State) → Command A
  on_kernel call p = let (a, s) = call p.kernel in ok a (record p { kernel = s })

  abbrev pub print : List Line → Command (Unit {0})
  print lines p = ok tt (record p { output = p.output ++ lines })

  -- A signal that is not a number of `sigCnt` is out of its bounds.
  unfoldable pub handler : ℕ → Command (Unit {0})
  handler sig p =
      let m = p.memory in
      if sig == sigint
      then ok tt (record p { memory = record { sig_cnt = m.sig_cnt; got_sigint = true } })
      else if not (ltb sig nsig)
      then fault
      else ok tt (record p {
        memory = record {
          sig_cnt = update m.sig_cnt sig ((m.sig_cnt sig + 1) % 2 ^ 32);
          got_sigint = m.got_sigint;
        };
      })

  unfoldable pub handle_all : List ℕ → Command (Unit {0})
  handle_all [] = pure tt
  handle_all (sig ∷ sigs) = do handler sig; handle_all sigs

  -- Signals arrive between two actions of the program.
  unfoldable pub interrupted : Command (Unit {0})
  interrupted = do sigs ← on_kernel k.arrivals; handle_all sigs

  -- `for (n = 1; n < NSIG; n++) sigaction(n, &act, NULL)`, from `n` on. The result is not used.
  unfoldable pub install : ℕ → ℕ → Command (Unit {0})
  install zero n = pure tt
  install (suc left) n = do
    interrupted
    on_kernel (λ s. (tt, k.sigaction n s))
    install left (suc n)

  abbrev pub every : Sigset
  every sig = true

  abbrev pub no_signal : Sigset
  no_signal sig = false

  unfoldable pub change_mask : Sigset → Command (Unit {0})
  change_mask sigset = do
    interrupted
    set ← on_kernel (k.set_mask sigset)
    if set then pure tt else exits exit_failure

  -- The part of `main` for a time to sleep.
  unfoldable pub block_and_sleep : ℕ → Command (Unit {0})
  block_and_sleep num_secs = do
    change_mask every
    print (sleeping num_secs ∷ [])
    on_kernel (λ s. (tt, k.sleep num_secs s))
    interrupted
    pending_mask ← on_kernel k.sigpending
    elim pending_mask [
      | none ↦ exits exit_failure
      | some sigset ↦ do print (title ∷ print_sigset sigset); change_mask no_signal
    ]

  -- With a time in `argv[1]`. getInt gives its number, or exits where it refuses it (`none`).
  unfoldable pub sleep_if_asked : (String → Option ℕ) → List String → Command (Unit {0})
  sleep_if_asked get_int (argv0 ∷ (block_time ∷ rest)) = elim (get_int block_time) [
    | none ↦ exits exit_failure
    | some num_secs ↦ block_and_sleep num_secs
  ]
  sleep_if_asked get_int _ = pure tt

  -- `while (!gotSigint) continue;`
  unfoldable pub wait_loop : ℕ → Command (Unit {0})
  wait_loop zero p = out_of_fuel
  wait_loop (suc fuel) p =
      if p.memory.got_sigint then ok tt p else (do interrupted; wait_loop fuel) p

  -- The count of `n` is read for the test, to print it, and for the plural.
  unfoldable pub display : ℕ → Command (Unit {0})
  display n = do
    interrupted
    λ p.
        if p.memory.sig_cnt n == 0
        then ok tt p
        else (do
          interrupted
          λ p.
              (do
                interrupted
                λ q.
                    print
                      (caught n (signed32 (p.memory.sig_cnt n)) (not (q.memory.sig_cnt n == 1))
                        ∷ [])
                      q)
                p)
            p

  -- The last loop of `main`, from `n` on.
  unfoldable pub display_all : ℕ → ℕ → Command (Unit {0})
  display_all zero n = pure tt
  display_all (suc left) n = do display n; display_all left (suc n)

  unfoldable pub receiver_main : (String → Option ℕ) → ℕ → List String → Command (Unit {0})
  receiver_main get_int fuel argv = do
    print (pid ∷ [])
    install (nsig - 1) 1
    sleep_if_asked get_int argv
    wait_loop fuel
    display_all (nsig - 1) 1
    exits exit_success

  abbrev pub print_message : Option String → Command (Unit {0})
  print_message none = pure tt
  print_message (some msg) = print (message msg ∷ [])

  abbrev pub print_found : Option Sigset → Command ℤ
  print_found none = pure (ℤ.negsuc 0)
  print_found (some sigset) = do print (print_sigset sigset); pure (ℤ.pos 0)

  -- printSigMask
  unfoldable pub print_sig_mask : Option String → Command ℤ
  print_sig_mask msg = do print_message msg; curr_mask ← on_kernel k.get_mask; print_found curr_mask

  -- printPendingSigs
  unfoldable pub print_pending_sigs : Option String → Command ℤ
  print_pending_sigs msg = do
    print_message msg
    pending_sigs ← on_kernel k.sigpending
    print_found pending_sigs
