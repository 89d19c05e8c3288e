-- ===== src/Signals/Receiver.antt =====
-- A run of 20.1.c.
use Prim.Native.String.{String}
use mathlib.Core.Bool.{false≢true}
use textbooks.Base.{
  ℕ, zero, suc, ◌-◌, ◌≡◌, ◌<◌, ◌≤◌, refl, inl, inr, true, false, Bool, ◌==◌, Option, none, List, [],
  ◌∷◌, ◌++◌, arith, if-cases, Bool-cases, Option-cases,
}
use textbooks.Base.Returns
use textbooks.Base.Returns.{Returns, returns}
use textbooks.Base.Ends
use textbooks.Base.Ends.{Ends, returned, succeeded, failed}
use textbooks.Signals.Defs.{
  nsig, sigint, Sigset, Kernel, pid, sleeping, title, Process, print_members, print_sigset, install,
  every, no_signal, change_mask, block_and_sleep, sleep_if_asked, wait_loop, receiver_main,
}
use textbooks.Signals.Invariant.{count, IsKernel, AllTrue, Good, interrupted-Good}
use textbooks.Signals.Shown.{print-Good, Shown, display_all-Good}

-- A call that fails is a reason in `F`.
pub record Causes (k : Kernel) (F : Type 0) : Type 0 where
  pub masking : (sigset : Sigset) (s : k.State) → (k.set_mask sigset s).0 ≡ false → F
  pub pending : (s : k.State) → (k.sigpending s).0 ≡ none → F

-- The kernel when the process has done nothing for some turns.
abbrev pub idle : (k : Kernel) → ℕ → k.State → k.State
idle k zero s = s
idle k (suc n) s = idle k n (k.arrivals s).1

-- In the states that are `Free` no signal is blocked. A successful `sigprocmask` of the empty set leads
-- to one, and the arrival of signals and `sigaction` keep it so. In such a state, at most `fuel` turns
-- later SIGINT has come.
pub record Delivers (k : Kernel) (law : IsKernel k) (fuel : ℕ) : Type 1 where
  pub Free : k.State → Type 0
  pub stays_free : (s : k.State) → Free s → Free (k.arrivals s).1
  pub installs_free : (n : ℕ) (s : k.State) → Free s → Free (k.sigaction n s)
  pub unblocks :
      (s : k.State) → (k.set_mask (no_signal k) s).0 ≡ true → Free (k.set_mask (no_signal k) s).1
  pub comes : (s : k.State) → Free s → 0 < count sigint (law.delivered (idle k fuel s))

module _ (k : Kernel) (law : IsKernel k) where
  -- A change of the kernel in which no signal arrives.
  quiet-Good :
      (b : Bool) (p : Process k) (s : k.State)
      → law.delivered s ≡ law.delivered p.kernel
      → Good k law b p
      → Good k law b (record p { kernel = s })
  quiet-Good b p s e g = record { tracks = rw e g.tracks; lines = rw e g.lines; asked = g.asked }

  install-Good :
      {fuel : ℕ} (d : Delivers k law fuel) (b : Bool) (left n : ℕ) (p : Process k)
      → Good k law b p
      → d.Free p.kernel
      → Returns (λ _ p'. Good k law b p' × d.Free p'.kernel) (install k left n p)
  unfolding install
  install-Good d b zero n p g free = returns (g, free)
  install-Good d b (suc left) n p g free =
      Returns.bind (interrupted-Good k law b p g) λ _ q (g', _, same).
        install-Good d b left (suc n) (record q { kernel = k.sigaction n q.kernel })
          (quiet-Good b q _ (law.installs n q.kernel) g')
          (d.installs_free n q.kernel (rw same (d.stays_free p.kernel free)))

  print_members-true :
      (h : List ℕ) (sigset : Sigset) (sig n cnt : ℕ) → AllTrue h (print_members sigset sig n cnt)
  unfolding print_members
  print_members-true h sigset sig zero cnt = elim (Bool-cases (cnt == 0)) [
    | inl y ↦ rw y (tt, tt)
    | inr y ↦ rw y tt
  ]
  print_members-true h sigset sig (suc n) cnt = elim (Bool-cases (sigset sig)) [
    | inl y ↦ rw y (tt, print_members-true h sigset (suc sig) n (suc cnt))
    | inr y ↦ rw y (print_members-true h sigset (suc sig) n cnt)
  ]

  module _ {F : Type 0} (cause : Causes k F) {Q : Process k → Type 0} where
    change_mask-Good :
        (b : Bool) (sigset : Sigset) (p : Process k)
        → Good k law b p
        → Ends F
            (λ _ p'.
              Good k law b p'
              × ((s : k.State) × ((k.set_mask sigset s).0 ≡ true)
                  × (p'.kernel ≡ (k.set_mask sigset s).1)))
            Q
            (change_mask k sigset p)
    unfolding change_mask
    change_mask-Good b sigset p g =
        Ends.bind (Ends.ends (interrupted-Good k law b p g)) λ _ q (g', _, _).
          elim (Bool-cases (k.set_mask sigset q.kernel).0) [
            | inl y ↦
                rw y
                  (returned (quiet-Good b q _ (law.masks sigset q.kernel) g', (q.kernel, y, refl)))
            | inr y ↦ rw y (failed (cause.masking sigset q.kernel y))
          ]

    block_and_sleep-Good :
        {fuel : ℕ} (d : Delivers k law fuel) (b : Bool) (num_secs : ℕ) (p : Process k)
        → Good k law b p
        → Ends F (λ _ p'. Good k law b p' × d.Free p'.kernel) Q (block_and_sleep k num_secs p)
    unfolding block_and_sleep print_sigset
    block_and_sleep-Good d b num_secs p g =
        Ends.bind (change_mask-Good b (every k) p g) λ _ q (g1, _).
          let told = print-Good k law b (sleeping num_secs ∷ []) q g1 (tt, tt) in
          let slept =
            quiet-Good b (record q { output = q.output ++ (sleeping num_secs ∷ []) }) _
              (law.sleeps num_secs q.kernel) told in
          Ends.bind (Ends.ends (interrupted-Good k law b _ slept)) λ _ r (g2, _, _).
            let asked = quiet-Good b r _ (law.pends r.kernel) g2 in
            elim (Option-cases (k.sigpending r.kernel).0) [
              | inl e ↦ rw e (failed (cause.pending r.kernel e))
              | inr (sigset, e) ↦ rw e (
                  Ends.mono
                    (change_mask-Good b (no_signal k) _ (
                      print-Good k law b (title ∷ print_sigset sigset) _ asked
                        (tt, print_members-true _ sigset 1 (nsig - 1) 0)))
                    λ _ t (g3, (s, set, e')). (g3, rw e' (d.unblocks s set)))
            ]

    sleep_if_asked-Good :
        {fuel : ℕ} (d : Delivers k law fuel) (get_int : String → Option ℕ) (b : Bool)
        → (argv : List String) (p : Process k)
        → ((block_time : String) → get_int block_time ≡ none → F)
        → Good k law b p
        → d.Free p.kernel
        → Ends F (λ _ p'. Good k law b p' × d.Free p'.kernel) Q (sleep_if_asked k get_int argv p)
    unfolding sleep_if_asked
    sleep_if_asked-Good d get_int b [] p refused g free = returned (g, free)
    sleep_if_asked-Good d get_int b (argv0 ∷ []) p refused g free = returned (g, free)
    sleep_if_asked-Good d get_int b (argv0 ∷ (block_time ∷ rest)) p refused g free =
        elim (Option-cases (get_int block_time)) [
          | inl e ↦ rw (sleep_if_asked, e) (failed (refused block_time e))
          | inr (num_secs, e) ↦ rw (sleep_if_asked, e) (block_and_sleep-Good d b num_secs p g)
        ]

  -- The loop ends in the turn in which it sees SIGINT.
  wait_loop-Good :
      (b : Bool) (fuel : ℕ) (p : Process k)
      → Good k law b p
      → 0 < count sigint (law.delivered (idle k fuel p.kernel))
      → Returns (λ _ p'. Good k law true p') (wait_loop k (suc fuel) p)
  unfolding wait_loop
  wait_loop-Good b zero p g arrived =
      if-cases (Returns (λ _ p'. Good k law true p')) p.memory.got_sigint _ _
        (λ y. returns (record { tracks = g.tracks; lines = g.lines; asked = λ _. y }))
        (λ y. absurd (false≢true (ground (arith, y, g.tracks.got))))
  wait_loop-Good b (suc fuel) p g arrived =
      if-cases (Returns (λ _ p'. Good k law true p')) p.memory.got_sigint _ _
        (λ y. returns (record { tracks = g.tracks; lines = g.lines; asked = λ _. y }))
        (λ y.
          Returns.bind (interrupted-Good k law b p g)
            λ _ q (g', _, same). wait_loop-Good b fuel q g' (rw same arrived))

  -- If signals that arrive have a handler, and from a state in which no signal is blocked SIGINT comes
  -- at most `fuel` turns later, `receiver_main` from such a state, in which none has arrived, ends. It
  -- exits with status 0, and then SIGINT arrived, the counts are the numbers of the other signals that
  -- arrived, modulo 2 ^ 32, a count that was printed is one that the signal had, after a test at which
  -- its count was not 0, and of each number from 1 to 64 the count was printed or was 0 at a time when
  -- SIGINT had come. Or it exits with status 1, and then a call failed or the number was refused.
  pub receiver_main-Good :
      {F : Type 0} (cause : Causes k F) (get_int : String → Option ℕ)
      → ((block_time : String) → get_int block_time ≡ none → F)
      → (fuel : ℕ) (d : Delivers k law fuel) (argv : List String) (s : k.State) → d.Free s
      → law.delivered s ≡ []
      → Ends F
          (λ _ _. ⊥)
          (λ p. Good k law true p × ((sig : ℕ) → 1 ≤ sig → sig < nsig → Shown k law sig p))
          (receiver_main k get_int (suc fuel) argv (record {
            kernel = s;
            memory = record { sig_cnt = λ _. 0; got_sigint = false };
            output = [];
          }))
  unfolding receiver_main
  receiver_main-Good cause get_int refused fuel d argv s free new =
      let start : Good k law false (record {
        kernel = s;
        memory = record { sig_cnt = λ _. 0; got_sigint = false };
        output = pid ∷ [];
      }) =
        record {
          tracks = rw new (record { counts = λ sig. ground arith; got = refl });
          lines = (tt, tt);
          asked = λ y. absurd (false≢true y);
        } in
      Ends.bind (Ends.ends (install-Good d false (nsig - 1) 1 _ start free)) λ _ p (g, free1).
        Ends.bind (sleep_if_asked-Good cause d get_int false argv p refused g free1)
          λ _ q (g', free2).
            Ends.bind (Ends.ends (wait_loop-Good false fuel q g' (d.comes q.kernel free2)))
              λ _ r g2.
                Ends.bind (Ends.ends (display_all-Good k law (nsig - 1) 1 r g2))
                  λ _ t (g3, _, shown). succeeded (g3, shown)
