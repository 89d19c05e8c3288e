-- ===== src/Signals/Shown.antt =====
-- The last loop of `main` of 20.1.c, which prints the counts.
use textbooks.Base.{
  ℕ, zero, suc, ◌+◌, ◌≤◌, ◌<◌, ◌≡◌, refl, sym, ap, ◌∙◌, ◌⊎◌, inl, inr, Bool, true, ◌==◌, List, [],
  ◌∷◌, ◌++◌, arith, append_assoc, append-nil, Bool-cases,
}
use textbooks.Base.Int.{ℤ, signed32}
use textbooks.Base.Returns
use textbooks.Base.Returns.{Returns, returns}
use textbooks.Signals.Defs.{sigint, Kernel, Line, caught, Process, display, display_all}
use textbooks.Signals.Invariant.{
  count, expected, IsKernel, AllTrue, AllTrue-append, Good, interrupted-Good,
}

module _ (k : Kernel) (law : IsKernel k) where
  pub print-Good :
      (b : Bool) (lines : List Line) (p : Process k)
      → Good k law b p
      → AllTrue (law.delivered p.kernel) lines
      → Good k law b (record p { output = p.output ++ lines })
  print-Good b lines p g t = record {
    tracks = g.tracks;
    lines = AllTrue-append (law.delivered p.kernel) p.output lines g.lines t;
    asked = g.asked;
  }

  -- The count of the signal was printed, or it was 0 at a time when SIGINT had come.
  abbrev pub Shown : ℕ → Process k → Type 0
  Shown n p =
      ((xs : List Line) × (ys : List Line) × (c : ℤ) × (plural : Bool) × (p.output
          ≡ xs ++ (caught n c plural ∷ ys)))
      ⊎ ((before : List ℕ) × (after : List ℕ) × (law.delivered p.kernel ≡ before ++ after)
          × (0 < count sigint before)
          × (expected n before ≡ 0))

  -- Lines are added at the end, and signals may have come.
  pub record Later (p p' : Process k) : Type 0 where
    printed : (outs : List Line) × (p'.output ≡ p.output ++ outs)
    grown : (more : List ℕ) × (law.delivered p'.kernel ≡ law.delivered p.kernel ++ more)

  Later-Shown : (n : ℕ) (p p' : Process k) → Later p p' → Shown n p → Shown n p'
  Later-Shown n p p' l (inl (xs, ys, c, plural, e)) =
      let (outs, printed) = l.printed in
      inl (
        xs,
        ys ++ outs,
        c,
        plural,
        printed
            ∙ ap (λ (o : List Line). o ++ outs) e
            ∙ append_assoc xs (caught n c plural ∷ ys) outs,
      )
  Later-Shown n p p' l (inr (before, after, e, asked, none_left)) =
      let (more, grown) = l.grown in
      inr (
        before,
        after ++ more,
        grown ∙ ap (λ (o : List ℕ). o ++ more) e ∙ append_assoc before after more,
        asked,
        none_left,
      )

  Later-trans : (p q r : Process k) → Later p q → Later q r → Later p r
  Later-trans p q r a b =
      let (outs, printed) = a.printed in
      let (outs', printed') = b.printed in
      let (more, grown) = a.grown in
      let (more', grown') = b.grown in
      record {
        printed = (
          outs ++ outs',
          printed' ∙ ap (λ (o : List Line). o ++ outs') printed ∙ append_assoc p.output outs outs',
        );
        grown = (
          more ++ more',
          grown'
              ∙ ap (λ (o : List ℕ). o ++ more') grown
              ∙ append_assoc (law.delivered p.kernel) more more',
        );
      }

  interrupted-Later :
      (p q : Process k) → q.output ≡ p.output → q.kernel ≡ (k.arrivals p.kernel).1 → Later p q
  interrupted-Later p q out same = record {
    printed = ([], out ∙ sym (append-nil p.output));
    grown = ((k.arrivals p.kernel).0, ap law.delivered same ∙ (law.arrives p.kernel).0);
  }

  print-Later :
      (lines : List Line) (p q : Process k)
      → Later p q
      → Later p (record q { output = q.output ++ lines })
  print-Later lines p q l =
      let (outs, printed) = l.printed in
      record {
        printed = (
          outs ++ lines,
          ap (λ (o : List Line). o ++ lines) printed ∙ append_assoc p.output outs lines,
        );
        grown = l.grown;
      }

  -- A count that is 0 when it is tested.
  unseen :
      (n : ℕ) (p : Process k) → Good k law true p → (p.memory.sig_cnt n == 0) ≡ true → Shown n p
  unseen n p g zero_count = inr (
    law.delivered p.kernel,
    [],
    sym (append-nil (law.delivered p.kernel)),
    ground (arith, g.asked refl, g.tracks.got),
    sym (g.tracks.counts n) ∙ ground (arith, zero_count),
  )

  display-Good :
      (n : ℕ) (p : Process k)
      → Good k law true p
      → Returns (λ _ p'. Good k law true p' × Later p p' × Shown n p') (display k n p)
  unfolding display
  display-Good n p g = Returns.bind (interrupted-Good k law true p g) λ _ q (g1, out1, same1).
      let before = interrupted-Later p q out1 same1 in
      elim (Bool-cases (q.memory.sig_cnt n == 0)) [
        | inl y ↦ rw y (returns (g1, before, unseen n q g1 y))
        | inr y ↦ rw y (
            Returns.bind (interrupted-Good k law true q g1) λ _ r (g2, out2, same2).
              Returns.bind (interrupted-Good k law true r g2) λ _ t (g3, out3, same3).
                let grown = ap law.delivered same2 ∙ (law.arrives q.kernel).0 in
                let after = Later-trans p q t before (
                  Later-trans q r t (interrupted-Later q r out2 same2)
                    (interrupted-Later r t out3 same3)) in
                returns (
                  print-Good true _ t g3 (
                    (
                      law.delivered q.kernel,
                      (k.arrivals q.kernel).0,
                      (k.arrivals r.kernel).0,
                      ap law.delivered same3
                          ∙ (law.arrives r.kernel).0
                          ∙ ap (λ (o : List ℕ). o ++ (k.arrivals r.kernel).0) grown,
                      λ none_seen. ground (arith, y, g1.tracks.counts n, none_seen),
                      ap signed32 (g2.tracks.counts n ∙ ap (expected n) grown),
                    ),
                    tt,
                  ),
                  print-Later _ p t after,
                  inl (t.output, [], _, _, refl),
                ))
      ]

  pub display_all-Good :
      (left n : ℕ) (p : Process k)
      → Good k law true p
      → Returns
          (λ _ p'.
            Good k law true p' × Later p p' × ((sig : ℕ) → n ≤ sig → sig < n + left → Shown sig p'))
          (display_all k left n p)
  unfolding display_all
  display_all-Good zero n p g = returns (
    g,
    record {
      printed = ([], sym (append-nil p.output));
      grown = ([], sym (append-nil (law.delivered p.kernel)));
    },
    λ sig from below. absurd (omega arith),
  )
  display_all-Good (suc left) n p g = Returns.bind (display-Good n p g) λ _ q (g', l, shown).
      Returns.mono (display_all-Good left (suc n) q g') λ _ r (g'', l', others). (
        g'',
        Later-trans p q r l l',
        λ sig from below. elim (Bool-cases (sig == n)) [
          | inl y ↦ let same : sig ≡ n = ground (arith, y) in rw same (Later-Shown n q r l' shown)
          | inr y ↦ others sig (ground arith) (omega arith)
        ],
      )
