-- ===== src/Tee/Turns.antt =====
-- Turns of the loop of tee.c: what goes from the standard input to both outputs.
use mathlib.Core.Bool.{false≢true}
use textbooks.Base.{
  ℕ, zero, suc, ◌+◌, ◌≡◌, ◌≢◌, ◌≤◌, ◌<◌, ◌⊎◌, refl, sym, ap, ◌∙◌, inl, inr, ltb, ◌==◌, ◌-◌, none,
  some, List, ◌++◌, arith, append_assoc, append-nil, length, length-drop, take, drop, min,
  Bool-cases,
}
use textbooks.Posix.{Posix, Blames}
use textbooks.Posix.Splice.{take_all, take-add, drop-drop}
use textbooks.Tee.Defs.{Console, max_bytes, stdin_fileno, stdout_fileno, tee_turn, tee_loop}

-- `incoming` is what the standard input still gives before its end, and `outgoing` what calls of write
-- gave to a descriptor. A read takes some of what comes, or none of it at the end; a write takes a
-- part, or all, of its bytes.
pub record IsStreams (k : Posix) (io : Console k) : Type 0 where
  pub incoming : k.State → List ℕ
  pub outgoing : ℕ → k.State → List ℕ
  pub reads :
      (n : ℕ) (s : k.State)
      → ((out : ℕ) → outgoing out (k.read stdin_fileno n s).1 ≡ outgoing out s)
        × (((k.read stdin_fileno n s).0 ≡ none)
            ⊎ ((m : ℕ) × ((k.read stdin_fileno n s).0 ≡ some (take m (incoming s)))
                × (m ≤ length (incoming s))
                × (0 < n → 0 < length (incoming s) → 0 < m)
                × (incoming (k.read stdin_fileno n s).1 ≡ drop m (incoming s))))
  pub writes :
      (fd : ℕ) (bs : List ℕ) (s : k.State)
      → (incoming (k.write fd bs s).1 ≡ incoming s)
        × ((out : ℕ) → out ≢ fd → outgoing out (k.write fd bs s).1 ≡ outgoing out s)
        × (((k.write fd bs s).0 ≡ none)
            ⊎ ((m : ℕ) × ((k.write fd bs s).0 ≡ some m)
                × (m ≤ length bs)
                × (outgoing fd (k.write fd bs s).1 ≡ outgoing fd s ++ take m bs)))
  pub flushes :
      (s : k.State)
      → (incoming (io.flush s) ≡ incoming s)
        × ((out : ℕ) → outgoing out (io.flush s) ≡ outgoing out s)

-- From `s` to `s'`, `n` bytes of the standard input went to `fd` and to the standard output.
pub record Teed (k : Posix) (io : Console k) (law : IsStreams k io) (fd n : ℕ) (s s' : k.State)
    : Type 0 where
  pub to_file : law.outgoing fd s' ≡ law.outgoing fd s ++ take n (law.incoming s)
  pub to_stdout :
      law.outgoing stdout_fileno s' ≡ law.outgoing stdout_fileno s ++ take n (law.incoming s)
  pub left : law.incoming s' ≡ drop n (law.incoming s)

module _ (k : Posix) (io : Console k) (law : IsStreams k io) where
  no_turn : (fd : ℕ) (s : k.State) → Teed k io law fd 0 s s
  no_turn fd s = record {
    to_file = sym (append-nil (law.outgoing fd s));
    to_stdout = sym (append-nil (law.outgoing stdout_fileno s));
    left = refl;
  }

  -- What went behind what went.
  went_on :
      (m n : ℕ) (o o' o'' c c' : List ℕ)
      → o' ≡ o ++ take m c
      → c' ≡ drop m c
      → o'' ≡ o' ++ take n c'
      → o'' ≡ o ++ take (m + n) c
  went_on m n o o' o'' c c' e d e' =
      e'
      ∙ ap (λ (l : List ℕ). l ++ take n c') e
      ∙ append_assoc o (take m c) (take n c')
      ∙ ap (λ (l : List ℕ). o ++ (take m c ++ take n l)) d
      ∙ ap (λ (l : List ℕ). o ++ l) (take-add m n c)

  both_turns :
      (fd m n : ℕ) (s s' s'' : k.State)
      → Teed k io law fd m s s'
      → Teed k io law fd n s' s''
      → Teed k io law fd (m + n) s s''
  both_turns fd m n s s' s'' a b = record {
    to_file = went_on m n _ _ _ _ _ a.to_file a.left b.to_file;
    to_stdout = went_on m n _ _ _ _ _ a.to_stdout a.left b.to_stdout;
    left = b.left ∙ ap (drop n) a.left ∙ drop-drop m n (law.incoming s);
  }

  module _ {F : Type 0} (blame : Blames k F)
      (filling : (s : k.State) (bs : List ℕ)
        → (k.read stdin_fileno max_bytes s).0 ≡ some bs
        → max_bytes ≤ length bs
        → F)
      (fd : ℕ) (other : fd ≢ stdout_fileno) where
    -- A write of all bytes.
    all_written :
        (out : ℕ) (bs : List ℕ) (s : k.State)
        → F
          ⊎ ((m : ℕ) × ((k.write out bs s).0 ≡ some m)
              × (law.outgoing out (k.write out bs s).1 ≡ law.outgoing out s ++ bs))
    all_written out bs s =
        let (same, others, how) = law.writes out bs s in
        elim how [
          | inl e ↦ inl (blame.writing out bs s (λ q. cc))
          | inr (m, e, le, now) ↦ elim (Bool-cases (m == length bs)) [
            | inl full ↦ inr (
              m,
              e,
              now ∙ ap (λ (l : List ℕ). law.outgoing out s ++ l) (take_all m bs (ground arith)),
            )
            | inr short ↦ inl (blame.writing out bs s (λ q. false≢true (ground (arith, e, q))))
          ]
        ]

    -- A turn takes a byte, where there is one, and goes on.
    turn-Teed :
        (s : k.State)
        → F
          ⊎ ((n : ℕ) × (s' : k.State) × (n ≤ length (law.incoming s))
              × (0 < length (law.incoming s) → 0 < n)
              × Teed k io law fd n s s'
              × ((fuel : ℕ)
                  → tee_loop k io (suc fuel) (some fd) s ≡ tee_loop k io fuel (some fd) s'))
    unfolding tee_loop tee_turn
    turn-Teed s =
        let (quiet, how) = law.reads max_bytes s in
        elim how [
          | inl e ↦ inl (blame.reading stdin_fileno max_bytes s e)
          | inr (m, e, le, more, left) ↦
              let bs = take m (law.incoming s) in
              let s1 = (k.read stdin_fileno max_bytes s).1 in
              let s2 = (k.write fd bs s1).1 in
              let s3 = (k.write stdout_fileno bs s2).1 in
              let (same2, others2, _) = law.writes fd bs s1 in
              let (same3, others3, _) = law.writes stdout_fileno bs s2 in
              let (same4, others4) = law.flushes s3 in
              elim (all_written fd bs s1) [
                | inl f ↦ inl f
                | inr (w, e2, now2) ↦ elim (Bool-cases (ltb (length bs) max_bytes)) [
                  | inr full ↦ inl (filling s bs e (ground arith))
                  | inl fits ↦ elim (all_written stdout_fileno bs s2) [
                    | inl f ↦ inl f
                    | inr (w', e3, now3) ↦ inr (
                      m,
                      io.flush s3,
                      le,
                      more (omega arith),
                      record {
                        to_file =
                            others4 fd
                            ∙ others3 fd other
                            ∙ now2
                            ∙ ap (λ (l : List ℕ). l ++ bs) (quiet fd);
                        to_stdout =
                            others4 stdout_fileno
                            ∙ now3
                            ∙ ap (λ (l : List ℕ). l ++ bs)
                                (others2 stdout_fileno (λ q. other (sym q)) ∙ quiet stdout_fileno);
                        left = same4 ∙ same3 ∙ same2 ∙ left;
                      },
                      λ fuel. rw (e, e2, fits, e3) refl,
                    )
                  ]
                ]
              ]
        ]

    -- After any number of turns the loop is in its next one.
    pub turns-Teed :
        (turns : ℕ) (s : k.State)
        → F
          ⊎ ((n : ℕ) × (s' : k.State) × (n ≤ length (law.incoming s))
              × (min turns (length (law.incoming s)) ≤ n)
              × Teed k io law fd n s s'
              × ((fuel : ℕ)
                  → tee_loop k io (turns + fuel) (some fd) s ≡ tee_loop k io fuel (some fd) s'))
    turns-Teed zero s = inr (
      0,
      s,
      omega arith,
      omega arith,
      no_turn fd s,
      λ fuel. ap (λ x. tee_loop k io x (some fd) s) (omega arith),
    )
    turns-Teed (suc turns) s = elim (turn-Teed s) [
      | inl f ↦ inl f
      | inr (m, s1, le, more, a, step) ↦ elim (turns-Teed turns s1) [
        | inl f ↦ inl f
        | inr (n, s2, le', least, b, steps) ↦
            let size : length (law.incoming s1) ≡ length (law.incoming s) - m =
              ap (λ (l : List ℕ). length l) a.left ∙ length-drop m (law.incoming s) in
            inr (
              m + n,
              s2,
              omega (arith, size),
              grind (arith, size),
              both_turns fd m n s s1 s2 a b,
              λ fuel.
                  ap (λ x. tee_loop k io x (some fd) s) (omega arith)
                  ∙ step (turns + fuel)
                  ∙ steps fuel,
            )
      ]
    ]
