-- ===== src/Signals/Ignored.antt =====
-- What 20.2.c prints, and that it detects SIGUSR1 no more at its end.
use textbooks.Base.{
  ℕ, zero, suc, ◌+◌, ◌≡◌, ◌≢◌, ◌≤◌, ◌<◌, refl, sym, ap, ◌∙◌, ◌==◌, List, [], ◌∷◌, ◌++◌, arith,
  length, length-append, append_assoc, append-nil, Bool-cases, inl, inr,
}
use textbooks.Signals.Pause.{
  Disposition, ignored, handled, Pauses, Line, pid_is, pausing, after_that, wont_be_detected,
  sigusr1, shown, Program, handle, settle, pauses, print_line, act, handle_each, pause_while,
  pause_on, prepare, ignore_main,
}
use textbooks.Signals.Dispositions.{
  Absent, IsPauses, line_behind, shown-append, Absent-append, not_among,
}

module _ (k : Pauses) (law : IsPauses k) where
  -- `out` was printed, and then the lines of these signals.
  Since : List Line → List ℕ → Program k → Type 0
  Since out sigs p = p.output ≡ out ++ shown sigs

  handle-Since :
      (out : List Line) (sigs more : List ℕ) (s : k.State) (p : Program k)
      → Since out sigs p
      → Since out (sigs ++ more) (handle k (more, s) p)
  unfolding Since
  handle-Since out sigs more s p e =
      ap (λ l. l ++ shown more) e
      ∙ append_assoc out (shown sigs) (shown more)
      ∙ ap (λ l. out ++ l) (sym (shown-append sigs more))

  settle-Since :
      (out : List Line) (sigs : List ℕ) (p : Program k)
      → Since out sigs p
      → Since out (sigs ++ (k.arrivals p.kernel).0) (settle k p)
  unfolding settle
  settle-Since out sigs p e =
      handle-Since out sigs (k.arrivals p.kernel).0 (k.arrivals p.kernel).1 p e

  -- Behind a line.
  print_line-Since :
      (out : List Line) (sigs : List ℕ) (line : Line) (p : Program k)
      → Since out sigs p
      → (more : List ℕ) × (length sigs ≤ length more)
        × Since (line_behind out more line) [] (print_line k line p)
        × (law.disposition (print_line k line p).kernel ≡ law.disposition p.kernel)
  unfolding print_line Since settle
  print_line-Since out sigs line p e = (
    sigs ++ (k.arrivals p.kernel).0,
    omega (arith, length-append sigs (k.arrivals p.kernel).0),
    ap (λ l. l ++ (line ∷ [])) (settle-Since out sigs p e) ∙ sym (append-nil _),
    (law.arrives p.kernel).1,
  )

  Up : Program k → Type 0
  Up p = law.disposition p.kernel law.comes ≡ handled

  act-Since :
      (out : List Line) (sigs : List ℕ) (sig : ℕ) (d : Disposition) (p : Program k)
      → Since out sigs p
      → (more : List ℕ) × (length sigs ≤ length more)
        × Since out more (act k sig d p)
        × ((x : ℕ)
            → x ≢ sig
            → law.disposition (act k sig d p).kernel x ≡ law.disposition p.kernel x)
  unfolding act settle Since
  act-Since out sigs sig d p e = (
    sigs ++ (k.arrivals p.kernel).0,
    omega (arith, length-append sigs (k.arrivals p.kernel).0),
    settle-Since out sigs p e,
    λ x ne.
        law.acts_other sig d (k.arrivals p.kernel).1 x ne
        ∙ ap (λ (f : ℕ → Disposition). f x) (law.arrives p.kernel).1,
  )

  -- Once its turn came, the signal that comes is caught.
  act-Up :
      (i : ℕ) (p : Program k) → (law.comes < i → Up p) → law.comes < suc i → Up (act k i handled p)
  unfolding act settle Up Since
  act-Up i p before h = elim (Bool-cases (law.comes == i)) [
    | inl y ↦
        let same : law.comes ≡ i = ground arith in
        let (not_9, not_19, _) = law.comes_other in
        ap (λ x. law.disposition (act k i handled p).kernel x) same
        ∙ law.acts i handled (k.arrivals p.kernel).1 (λ q. not_9 (same ∙ q))
            (λ q. not_19 (same ∙ q))
    | inr y ↦
        let (_, _, _, other) = act-Since p.output [] i handled p (sym (append-nil p.output)) in
        other law.comes (λ q. ground (arith, y, q)) ∙ before (ground (arith, y, h))
  ]

  handle_each-Since :
      (left i : ℕ) (out : List Line) (sigs : List ℕ) (p : Program k)
      → Since out sigs p
      → (law.comes < i → Up p)
      → law.comes < i + left
      → (more : List ℕ) × Since out more (handle_each k left i p) × Up (handle_each k left i p)
  unfolding handle_each
  handle_each-Since zero i out sigs p e before h = (sigs, e, before (omega (arith, h)))
  handle_each-Since (suc left) i out sigs p e before h =
      let (more, _, e', _) = act-Since out sigs i handled p e in
      handle_each-Since left (suc i) out more (act k i handled p) e' (act-Up i p before)
        (omega (arith, h))

  -- The handlers ran before a `pause` returned, once at least and not for an ignored signal.
  pauses-Since :
      (out : List Line) (sigs : List ℕ) (p : Program k)
      → Since out sigs p
      → Up p
      → (more : List ℕ) × (0 < length more)
        × Since out (sigs ++ more) (pauses k p)
        × (law.disposition (pauses k p).kernel ≡ law.disposition p.kernel)
        × ((x : ℕ) → law.disposition p.kernel x ≡ ignored → Absent x more)
  unfolding pauses settle Since Up
  pauses-Since out sigs p e up =
      let (first, s1) = k.arrivals p.kernel in
      let (now, same) = law.arrives p.kernel in
      let (paused, kept, some_came) =
        law.returns s1 (ap (λ (d : ℕ → Disposition). d law.comes) same ∙ up) in
      let more = first ++ (k.pause s1).0 in
      (
        more,
        omega (arith, some_came, length-append first (k.pause s1).0),
        handle-Since out (sigs ++ first) (k.pause s1).0 (k.pause s1).1 (settle k p)
              (settle-Since out sigs p e)
            ∙ ap (λ l. out ++ shown l) (append_assoc sigs first (k.pause s1).0),
        kept ∙ same,
        λ x e'.
            Absent-append x first (k.pause s1).0
              (not_among (law.disposition p.kernel) x first e' now)
              (not_among (law.disposition s1) x (k.pause s1).0
                (ap (λ (d : ℕ → Disposition). d x) same ∙ e') paused),
      )

  at_same :
      (x : ℕ) (d : Disposition) (p q : Program k)
      → law.disposition q.kernel ≡ law.disposition p.kernel
      → law.disposition p.kernel x ≡ d
      → law.disposition q.kernel x ≡ d
  at_same x d p q same e = ap (λ (f : ℕ → Disposition). f x) same ∙ e

  pause_on-Since :
      (rounds : ℕ) (out : List Line) (sigs : List ℕ) (p : Program k)
      → Since out sigs p
      → Up p
      → law.disposition p.kernel sigusr1 ≡ ignored
      → Absent sigusr1 sigs
      → (late : List ℕ) × (length sigs + rounds ≤ length late)
        × Since out late (pause_on k rounds p)
        × Absent sigusr1 late
  unfolding pause_on Up
  pause_on-Since zero out sigs p e up off absent = (sigs, omega arith, e, absent)
  pause_on-Since (suc rounds) out sigs p e up off absent =
      let (more, some_came, e', kept, without) = pauses-Since out sigs p e up in
      let (late, long, e'', absent') =
        pause_on-Since rounds out (sigs ++ more) (pauses k p) e'
          (at_same law.comes handled p (pauses k p) kept up)
          (at_same sigusr1 ignored p (pauses k p) kept off)
          (Absent-append sigusr1 sigs more absent (without sigusr1 off)) in
      (late, omega (arith, long, some_came, length-append sigs more), e'', absent')

  -- `ignore_main` prints its lines in their order, and between them the signals that the handler is called
  -- for: at least two while it pauses first, though it asks for three; and behind the last line one at
  -- least for each further `pause`, and never SIGUSR1.
  pub ignore_main-Absent :
      (rounds : ℕ) (s : k.State)
      → (a b c mid late : List ℕ) × ((ignore_main k rounds s).output
          ≡ line_behind
              (line_behind (line_behind (line_behind [] a pid_is) b pausing) c after_that)
              mid
              wont_be_detected
            ++ shown late)
        × (2 ≤ length mid)
        × (rounds ≤ length late)
        × Absent sigusr1 late
  unfolding ignore_main prepare pause_while act settle Since Up
  ignore_main-Absent rounds s =
      let start : Program k = record { kernel = s; output = [] } in
      let p0 = handle_each k 64 1 start in
      let (x0, e0, up0) =
        handle_each-Since 64 1 [] [] start refl (λ h. absurd (omega (arith, h, law.comes_range.0)))
          (omega (arith, law.comes_range.1)) in
      let (a, _, e1, same1) = print_line-Since [] x0 pid_is p0 e0 in
      let p1 = print_line k pid_is p0 in
      let (b, _, e2, same2) = print_line-Since (line_behind [] a pid_is) [] pausing p1 e1 in
      let p2 = print_line k pausing p1 in
      let out2 = line_behind (line_behind [] a pid_is) b pausing in
      let (c, _, e3, same3) = print_line-Since out2 [] after_that p2 e2 in
      let p3 = print_line k after_that p2 in
      let up3 : Up p3 = at_same law.comes handled p0 p3 (same3 ∙ same2 ∙ same1) up0 in
      let out3 = line_behind out2 c after_that in
      let (m1, some1, e4, same4, _) = pauses-Since out3 [] p3 e3 up3 in
      let p4 = pauses k p3 in
      let up4 : Up p4 = at_same law.comes handled p3 p4 same4 up3 in
      let (m2, some2, e5, same5, _) = pauses-Since out3 ([] ++ m1) p4 e4 up4 in
      let p5 = pauses k p4 in
      let (m3, le3, e6, other) = act-Since out3 (([] ++ m1) ++ m2) sigusr1 ignored p5 e5 in
      let p6 = act k sigusr1 ignored p5 in
      let up6 : Up p6 =
        other law.comes law.comes_other.2 ∙ at_same law.comes handled p4 p5 same5 up4 in
      let off : law.disposition p6.kernel sigusr1 ≡ ignored =
        law.acts sigusr1 ignored (k.arrivals p5.kernel).1 (λ q. absurd (omega (arith, q)))
          (λ q. absurd (omega (arith, q))) in
      let (mid, le4, e7, same7) = print_line-Since out3 m3 wont_be_detected p6 e6 in
      let p7 = print_line k wont_be_detected p6 in
      let (late, long, e8, absent) =
        pause_on-Since rounds (line_behind out3 mid wont_be_detected) [] p7 e7
          (at_same law.comes handled p6 p7 same7 up6) (at_same sigusr1 ignored p6 p7 same7 off)
          tt in
      (
        a,
        b,
        c,
        mid,
        late,
        e8,
        omega (arith, some1, some2, le3, le4, length-append m1 m2),
        omega (arith, long),
        absent,
      )
