-- ===== src/Signals/PauseTests.antt =====
-- 20.2.c where SIGUSR2 comes at each pause, with a SIGUSR1 before it while that is caught.
use textbooks.Base.{
  ℕ, ◌≡◌, ◌≤◌, refl, Bool-cases, inl, inr, List, [], ◌∷◌, ◌++◌, arith, length, ◌==◌,
}
use textbooks.Posix.{update}
use textbooks.Signals.Pause.{
  Disposition, by_default, ignored, handled, Pauses, pid_is, pausing, after_that, wont_be_detected,
  sigusr1, shown, settle, pauses, print_line, act, handle_each, pause_while, pause_on, prepare,
  ignore_main,
}
use textbooks.Signals.Dispositions.{AllHandled, Absent, line_behind, IsPauses}
use textbooks.Signals.Ignored.{ignore_main-Absent}

abbrev with_usr1 : Disposition → List ℕ
with_usr1 handled = sigusr1 ∷ (12 ∷ [])
with_usr1 _ = 12 ∷ []

abbrev steady : Pauses
steady = record {
  State = ℕ → Disposition;
  arrivals = λ s. ([], s);
  sigaction = λ sig d s. update s sig d;
  pause = λ s. (with_usr1 (s sigusr1), s);
}

usr1_handled :
    (s : ℕ → Disposition) (d : Disposition)
    → s sigusr1 ≡ d
    → s 12 ≡ handled
    → AllHandled s (with_usr1 d)
usr1_handled s handled e up = (e, (up, tt))
usr1_handled s ignored e up = (up, tt)
usr1_handled s by_default e up = (up, tt)

some_come : (d : Disposition) → 1 ≤ length (with_usr1 d)
some_come handled = omega arith
some_come ignored = omega arith
some_come by_default = omega arith

steady-IsPauses : IsPauses steady
steady-IsPauses = record {
  disposition = λ s. s;
  comes = 12;
  comes_range = (omega arith, omega arith);
  comes_other = (
    λ q. absurd (omega (arith, q)),
    λ q. absurd (omega (arith, q)),
    λ q. absurd (omega (arith, q)),
  );
  arrives = λ s. (tt, refl);
  returns = λ s up. (usr1_handled s (s sigusr1) refl up, refl, some_come (s sigusr1));
  acts = λ sig d s a b. ground arith;
  acts_other = λ sig d s x ne. elim (Bool-cases (x == sig)) [
    | inl y ↦ absurd (ne (ground (arith, y)))
    | inr y ↦ rw y refl
  ];
}

abbrev defaults : ℕ → Disposition
defaults sig = by_default

abbrev three : ℕ
three = 3

-- Two pauses, and three more.
two_and_three :
    (ignore_main steady three defaults).output
    ≡ pid_is
      ∷ (pausing
          ∷ (after_that
              ∷ (shown (10 ∷ (12 ∷ (10 ∷ (12 ∷ []))))
                  ++ (wont_be_detected ∷ shown (12 ∷ (12 ∷ (12 ∷ [])))))))
unfolding ignore_main prepare handle_each pause_while pause_on pauses print_line act settle
two_and_three = refl

ignore_main-Absent_example :
    (a b c mid late : List ℕ) × ((ignore_main steady three defaults).output
      ≡ line_behind
          (line_behind (line_behind (line_behind [] a pid_is) b pausing) c after_that)
          mid
          wont_be_detected
        ++ shown late)
    × (2 ≤ length mid)
    × (three ≤ length late)
    × Absent sigusr1 late
ignore_main-Absent_example = ignore_main-Absent steady steady-IsPauses three defaults
