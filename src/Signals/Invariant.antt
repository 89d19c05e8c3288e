-- ===== src/Signals/Invariant.antt =====
-- The counts of 20.1.c are those of the signals that arrived, whenever they arrive.
use textbooks.Base.{
  ℕ, suc, ◌+◌, ◌%◌, ◌^◌, ◌≡◌, ◌≢◌, ◌<◌, refl, ap, ◌∙◌, inl, inr, true, Bool, ◌==◌, ltb,
  if◌then◌else◌, List, [], ◌∷◌, ◌++◌, arith, append_assoc, append-nil, Bool-cases,
}
use textbooks.Base.Int.{signed32}
use textbooks.Base.Returns
use textbooks.Base.Returns.{Returns, returns}
use textbooks.Signals.Defs.{
  nsig, sigint, Sigset, Kernel, Line, pid, sleeping, title, member, empty_set, message, caught,
  Memory, Process, handler, handle_all, interrupted,
}

abbrev pub count : ℕ → List ℕ → ℕ
count sig [] = 0
count sig (x ∷ xs) = let rest = count sig xs in if x == sig then suc rest else rest

pub count-append : (sig : ℕ) (xs ys : List ℕ) → count sig (xs ++ ys) ≡ count sig xs + count sig ys
count-append sig [] ys = omega arith
count-append sig (x ∷ xs) ys = ground (arith, count-append sig xs ys)

count_next :
    (x sig : ℕ) (h : List ℕ) → count x (h ++ (sig ∷ [])) ≡ count x h + (if sig == x then 1 else 0)
count_next x sig h = count-append x h (sig ∷ []) ∙ ground arith

abbrev pub InRange : List ℕ → Type 0
InRange [] = Unit
InRange (sig ∷ sigs) = (sig < nsig) × InRange sigs

-- `delivered` is the history of the signals for which the handler was called. Only an arrival adds to
-- it, and only signals with a handler arrive.
pub record IsKernel (k : Kernel) : Type 0 where
  pub delivered : k.State → List ℕ
  pub arrives :
      (s : k.State)
      → (delivered (k.arrivals s).1 ≡ delivered s ++ (k.arrivals s).0) × InRange (k.arrivals s).0
  pub installs : (n : ℕ) (s : k.State) → delivered (k.sigaction n s) ≡ delivered s
  pub masks : (sigset : Sigset) (s : k.State) → delivered (k.set_mask sigset s).1 ≡ delivered s
  pub pends : (s : k.State) → delivered (k.sigpending s).1 ≡ delivered s
  pub sleeps : (n : ℕ) (s : k.State) → delivered (k.sleep n s) ≡ delivered s

-- What `sigCnt` holds for a signal after a history: SIGINT is not counted there.
abbrev pub expected : ℕ → List ℕ → ℕ
expected sig h = if sig == sigint then 0 else count sig h % 2 ^ 32

-- A count that was printed is one that the signal had, after a test of the count that was not 0.
abbrev pub LineTrue : List ℕ → Line → Type 0
LineTrue h (caught n c plural) =
    (before : List ℕ) × (more : List ℕ) × (after : List ℕ) × (h ≡ (before ++ more) ++ after)
    × (expected n before ≢ 0)
    × (c ≡ signed32 (expected n (before ++ more)))
LineTrue h _ = Unit

abbrev pub AllTrue : List ℕ → List Line → Type 0
AllTrue h [] = Unit
AllTrue h (line ∷ lines) = LineTrue h line × AllTrue h lines

pub record Tracks (h : List ℕ) (m : Memory) : Type 0 where
  pub counts : (sig : ℕ) → m.sig_cnt sig ≡ expected sig h
  pub got : m.got_sigint ≡ ltb 0 (count sigint h)

one_later : (h more : List ℕ) (line : Line) → LineTrue h line → LineTrue (h ++ more) line
one_later h later (caught n c plural) (before, more, after, e, seen, same) = (
  before,
  more,
  after ++ later,
  ap (λ (l : List ℕ). l ++ later) e ∙ append_assoc (before ++ more) after later,
  seen,
  same,
)
one_later h more pid t = tt
one_later h more (sleeping n) t = tt
one_later h more title t = tt
one_later h more (message msg) t = tt
one_later h more (member sig) t = tt
one_later h more empty_set t = tt

all_later : (h more : List ℕ) (lines : List Line) → AllTrue h lines → AllTrue (h ++ more) lines
all_later h more [] t = tt
all_later h more (line ∷ lines) (t, ts) = (one_later h more line t, all_later h more lines ts)

pub AllTrue-append :
    (h : List ℕ) (xs ys : List Line) → AllTrue h xs → AllTrue h ys → AllTrue h (xs ++ ys)
AllTrue-append h [] ys a b = b
AllTrue-append h (x ∷ xs) ys (t, ts) b = (t, AllTrue-append h xs ys ts b)

module _ (k : Kernel) where
  handler-Tracks :
      (sig : ℕ) (h : List ℕ) (p : Process k)
      → sig < nsig
      → Tracks h p.memory
      → Returns
          (λ _ p'.
            Tracks (h ++ (sig ∷ [])) p'.memory × (p'.kernel ≡ p.kernel) × (p'.output ≡ p.output))
          (handler k sig p)
  unfolding handler
  handler-Tracks sig h p lt t = elim (Bool-cases (sig == sigint)) [
    | inl y ↦ rw y (
        returns (
          record {
            counts = λ x. t.counts x ∙ ground (arith, y, count_next x sig h);
            got = ground (arith, y, count_next sigint sig h);
          },
          refl,
          refl,
        ))
    | inr y ↦
        let fits : ltb sig nsig ≡ true = ground arith in
        rw (y, fits)
          (returns (
            record {
              counts = λ x. ground (arith, y, count_next x sig h, t.counts sig, t.counts x);
              got = t.got ∙ ground (arith, y, count_next sigint sig h);
            },
            refl,
            refl,
          ))
  ]

  handle_all-Tracks :
      (sigs h : List ℕ) (p : Process k)
      → InRange sigs
      → Tracks h p.memory
      → Returns
          (λ _ p'. Tracks (h ++ sigs) p'.memory × (p'.kernel ≡ p.kernel) × (p'.output ≡ p.output))
          (handle_all k sigs p)
  unfolding handle_all
  handle_all-Tracks [] h p r t = returns (rw (append-nil h) t, refl, refl)
  handle_all-Tracks (sig ∷ sigs) h p (lt, r) t =
      Returns.bind (handler-Tracks sig h p lt t) λ _ q (t', same, out).
        Returns.mono (handle_all-Tracks sigs (h ++ (sig ∷ [])) q r t') λ _ q' (t'', same', out').
          (rw (← append_assoc h (sig ∷ []) sigs) t'', same' ∙ same, out' ∙ out)

  module _ (law : IsKernel k) where
    -- The counts are right, and so is what was printed; `b` tells that SIGINT is among the signals.
    pub record Good (b : Bool) (p : Process k) : Type 0 where
      pub tracks : Tracks (law.delivered p.kernel) p.memory
      pub lines : AllTrue (law.delivered p.kernel) p.output
      pub asked : b ≡ true → p.memory.got_sigint ≡ true

    pub interrupted-Good :
        (b : Bool) (p : Process k)
        → Good b p
        → Returns
            (λ _ p'. Good b p' × (p'.output ≡ p.output) × (p'.kernel ≡ (k.arrivals p.kernel).1))
            (interrupted k p)
    unfolding interrupted
    interrupted-Good b p g =
        let (now, range) = law.arrives p.kernel in
        let sigs = (k.arrivals p.kernel).0 in
        Returns.mono
          (handle_all-Tracks sigs (law.delivered p.kernel)
            (record p { kernel = (k.arrivals p.kernel).1 }) range g.tracks)
          λ _ p' (t, same, out).
            let history : law.delivered p'.kernel ≡ law.delivered p.kernel ++ sigs =
              ap law.delivered same ∙ now in
            (
              record {
                tracks = rw history t;
                lines =
                    rw (history, out) (all_later (law.delivered p.kernel) sigs p.output g.lines);
                asked = λ y. ground (
                  arith,
                  g.asked y,
                  g.tracks.got,
                  t.got,
                  count-append sigint (law.delivered p.kernel) sigs,
                );
              },
              out,
              same,
            )
