-- ===== src/Signals/Display.antt =====
-- What printSigset and the last loop of 20.1.c print, against lists of the signals to print.
use textbooks.Base.{
  ℕ, zero, suc, ◌+◌, ◌-◌, ◌≡◌, refl, sym, ap, ◌∙◌, inl, inr, false, not, Bool, ◌==◌, List, [], ◌∷◌,
  ◌++◌, if◌then◌else◌, arith, append_assoc, append-nil, length, Bool-cases, ok, ◌>>=◌, ◌>>◌,
}
use mathlib.Core.List.{map}
use textbooks.Base.Int.{signed32}
use textbooks.Signals.Defs.{
  nsig, Sigset, Kernel, Line, member, empty_set, caught, Process, Memory, print_members,
  print_sigset, interrupted, handle_all, display, display_all,
}

-- The `n` numbers from `sig` on.
abbrev pub from : ℕ → ℕ → List ℕ
from sig zero = []
from sig (suc n) = sig ∷ from (suc sig) n

abbrev pub selected : (ℕ → Bool) → List ℕ → List ℕ
selected f [] = []
selected f (x ∷ xs) = let rest = selected f xs in if f x then x ∷ rest else rest

abbrev pub or_empty : List ℕ → List Line
or_empty [] = empty_set ∷ []
or_empty (sig ∷ sigs) = map member (sig ∷ sigs)

print_members-map :
    (sigset : Sigset) (n sig cnt : ℕ)
    → print_members sigset sig n cnt
      ≡ map member (selected sigset (from sig n))
        ++ (if cnt + length (selected sigset (from sig n)) == 0 then empty_set ∷ [] else [])
unfolding print_members
print_members-map sigset zero sig cnt =
    ap (λ x. if x == 0 then empty_set ∷ [] else []) (omega arith)
print_members-map sigset (suc n) sig cnt = elim (Bool-cases (sigset sig)) [
  | inl y ↦ rw y (
      ap (λ (l : List Line). member sig ∷ l)
        (print_members-map sigset n (suc sig) (suc cnt)
          ∙ ap
              (λ x.
                map member (selected sigset (from (suc sig) n))
                ++ (if x == 0 then empty_set ∷ [] else []))
              (omega arith)))
  | inr y ↦ rw y (print_members-map sigset n (suc sig) cnt)
]

listed :
    (sigs : List ℕ)
    → map member sigs ++ (if 0 + length sigs == 0 then empty_set ∷ [] else []) ≡ or_empty sigs
listed [] = refl
listed (sig ∷ sigs) =
    let some_printed : (0 + length (sig ∷ sigs) == 0) ≡ false = ground arith in
    rw some_printed (append-nil (map member (sig ∷ sigs)))

-- printSigset prints the signals from 1 to NSIG - 1 that are in the set, in this order, or that the
-- set is empty, where none of them is.
pub print_sigset-selected :
    (sigset : Sigset) → print_sigset sigset ≡ or_empty (selected sigset (from 1 (nsig - 1)))
unfolding print_sigset
print_sigset-selected sigset =
    print_members-map sigset (nsig - 1) 1 0 ∙ listed (selected sigset (from 1 (nsig - 1)))

-- The line on a signal that was caught.
abbrev pub line_of : Memory → ℕ → Line
line_of m n = caught n (signed32 (m.sig_cnt n)) (not (m.sig_cnt n == 1))

module _ (k : Kernel) (calm : (s : k.State) → k.arrivals s ≡ ([], s)) where
  interrupted-ok : (p : Process k) → interrupted k p ≡ ok tt p
  unfolding interrupted handle_all
  interrupted-ok p = rw (calm p.kernel) refl

  -- Where no signal arrives, the last loop of `main` prints for each of its signals that was caught, in
  -- their order, how often it was, with an "s" but for once.
  pub display_all-from :
      (left n : ℕ) (p : Process k)
      → display_all k left n p
        ≡ ok tt (record p {
          output =
              p.output
              ++ map
                  (line_of p.memory)
                  (selected (λ sig. not (p.memory.sig_cnt sig == 0)) (from n left));
        })
  unfolding display_all display
  display_all-from zero n p =
      ap (λ (l : List Line). ok tt (record p { output = l })) (sym (append-nil p.output))
  display_all-from (suc left) n p = elim (Bool-cases (p.memory.sig_cnt n == 0)) [
    | inl y ↦ rw (interrupted-ok p, y) (display_all-from left (suc n) p)
    | inr y ↦
        let q : Process k = record p { output = p.output ++ (line_of p.memory n ∷ []) } in
        let later = selected (λ sig. not (p.memory.sig_cnt sig == 0)) (from (suc n) left) in
        rw (interrupted-ok p, y, ◌>>◌, ◌>>=◌, interrupted-ok p, ◌>>◌, ◌>>=◌, interrupted-ok p)
          (display_all-from left (suc n) q
            ∙ ap (λ (l : List Line). ok tt (record p { output = l }))
                (append_assoc p.output (line_of p.memory n ∷ []) (map (line_of p.memory) later)))
  ]
