-- ===== src/Signals/Dispositions.antt =====
-- Dispositions of signals in 20.2.c, and what the manual pages promise of pause.
use textbooks.Base.{ℕ, ◌≡◌, ◌≢◌, ◌<◌, refl, sym, ap, ◌∙◌, List, [], ◌∷◌, ◌++◌, length}
use textbooks.Signals.Defs.{nsig}
use textbooks.Signals.Pause.{
  Disposition, ignored, handled, Pauses, Line, the_signal, sigusr1, shown,
}

abbrev pub AllHandled : (ℕ → Disposition) → List ℕ → Type 0
AllHandled d [] = Unit
AllHandled d (sig ∷ sigs) = (d sig ≡ handled) × AllHandled d sigs

abbrev pub Absent : ℕ → List ℕ → Type 0
Absent x [] = Unit
Absent x (sig ∷ sigs) = (sig ≢ x) × Absent x sigs

-- The handler runs only for signals whose disposition it is. While the signal `comes` is caught, signals
-- keep coming: `pause` returns, behind a handler. SIGKILL and SIGSTOP keep their dispositions.
pub record IsPauses (k : Pauses) : Type 1 where
  pub disposition : k.State → ℕ → Disposition
  pub comes : ℕ
  pub comes_range : (0 < comes) × (comes < nsig)
  pub comes_other : (comes ≢ 9) × (comes ≢ 19) × (comes ≢ sigusr1)
  pub arrives :
      (s : k.State)
      → AllHandled (disposition s) (k.arrivals s).0 × (disposition (k.arrivals s).1 ≡ disposition s)
  pub returns :
      (s : k.State)
      → disposition s comes ≡ handled
      → AllHandled (disposition s) (k.pause s).0
        × (disposition (k.pause s).1 ≡ disposition s)
        × (0 < length (k.pause s).0)
  pub acts :
      (sig : ℕ) (d : Disposition) (s : k.State)
      → sig ≢ 9
      → sig ≢ 19
      → disposition (k.sigaction sig d s) sig ≡ d
  pub acts_other :
      (sig : ℕ) (d : Disposition) (s : k.State) (x : ℕ)
      → x ≢ sig
      → disposition (k.sigaction sig d s) x ≡ disposition s x

-- The lines `out`, those of signals, and a line.
abbrev pub line_behind : List Line → List ℕ → Line → List Line
line_behind out sigs line = (out ++ shown sigs) ++ (line ∷ [])

pub shown-append : (xs ys : List ℕ) → shown (xs ++ ys) ≡ shown xs ++ shown ys
shown-append [] ys = refl
shown-append (x ∷ xs) ys = ap (λ l. the_signal x ∷ l) (shown-append xs ys)

pub Absent-append : (x : ℕ) (xs ys : List ℕ) → Absent x xs → Absent x ys → Absent x (xs ++ ys)
Absent-append x [] ys a b = b
Absent-append x (y ∷ xs) ys (ne, a) b = (ne, Absent-append x xs ys a b)

pub not_among :
    (d : ℕ → Disposition) (x : ℕ) (sigs : List ℕ)
    → d x ≡ ignored
    → AllHandled d sigs
    → Absent x sigs
not_among d x [] e h = tt
not_among d x (sig ∷ sigs) e (is_handled, h) =
    (λ same. differ (sym is_handled ∙ ap d same ∙ e), not_among d x sigs e h)
  where
    differ : handled ≢ ignored
    differ q = cc
