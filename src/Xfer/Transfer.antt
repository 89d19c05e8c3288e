-- ===== src/Xfer/Transfer.antt =====
-- What is read until the end of a stream is written to the other.
use mathlib.Core.Bool.{false≢true}
use textbooks.Base.{
  ℕ, zero, suc, ◌≡◌, ◌≢◌, ◌≤◌, ◌<◌, ◌⊎◌, refl, sym, ap, ◌∙◌, false, ◌==◌, none, some, List, [], ◌∷◌,
  ◌++◌, arith, length, append_assoc, append-nil, length-take, length-drop, take, drop,
  take-append-drop, inl, inr, Cmd, Bool-cases, Option-cases,
}
use textbooks.Base.Ends
use textbooks.Base.Ends.{Ends, returned, succeeded, failed}
use textbooks.Posix.Splice.{take_all}
use textbooks.Xfer.Defs.{
  Sockets, address, stdin_fileno, stdout_fileno, buf_size, transfer_chunk, transfer, client_main,
  serve, hang_up,
}

-- The streams: what still comes from a descriptor before its end, and what went to it. A read takes
-- some of what comes, or none of it at the end; a write takes a part, or all, of its bytes.
pub record IsSockets (k : Sockets) : Type 0 where
  pub incoming : ℕ → k.State → List ℕ
  pub outgoing : ℕ → k.State → List ℕ
  pub reads :
      (fd n : ℕ) (s : k.State)
      → ((out : ℕ) → outgoing out (k.read fd n s).1 ≡ outgoing out s)
        × (((k.read fd n s).0 ≡ none)
            ⊎ ((m : ℕ) × ((k.read fd n s).0 ≡ some (take m (incoming fd s)))
                × (m ≤ length (incoming fd s))
                × (0 < n → 0 < length (incoming fd s) → 0 < m)
                × (incoming fd (k.read fd n s).1 ≡ drop m (incoming fd s))))
  pub writes :
      (fd : ℕ) (bs : List ℕ) (s : k.State)
      → ((input : ℕ) → incoming input (k.write fd bs s).1 ≡ incoming input s)
        × (((k.write fd bs s).0 ≡ none)
            ⊎ ((m : ℕ) × ((k.write fd bs s).0 ≡ some m)
                × (m ≤ length bs)
                × (outgoing fd (k.write fd bs s).1 ≡ outgoing fd s ++ take m bs)))
  -- A new socket has sent nothing, and connecting it does not send.
  pub starts :
      (fd : ℕ) (s : k.State)
      → (k.socket s).0 ≡ some fd
      → (outgoing fd (k.socket s).1 ≡ [])
        × (incoming stdin_fileno (k.socket s).1 ≡ incoming stdin_fileno s)
  pub connects :
      (fd : ℕ) (name : List ℕ) (s : k.State)
      → (outgoing fd (k.connect fd name s).1 ≡ outgoing fd s)
        × (incoming stdin_fileno (k.connect fd name s).1 ≡ incoming stdin_fileno s)
  pub accepts : (fd out : ℕ) (s : k.State) → outgoing out (k.accept fd s).1 ≡ outgoing out s
  pub closes :
      (fd out : ℕ) (s : k.State) → out ≢ fd → outgoing out (k.close fd s).1 ≡ outgoing out s
  pub says : (out : ℕ) (s : k.State) → outgoing out (k.err_msg s) ≡ outgoing out s

-- A call that failed, or a write that fell short, is a reason in `F`.
pub record Faults (k : Sockets) (F : Type 0) : Type 0 where
  pub making : (s : k.State) → (k.socket s).0 ≡ none → F
  pub connecting : (fd : ℕ) (name : List ℕ) (s : k.State) → (k.connect fd name s).0 ≡ false → F
  pub binding : (fd : ℕ) (name : List ℕ) (s : k.State) → (k.bind fd name s).0 ≡ false → F
  pub listening : (fd n : ℕ) (s : k.State) → (k.listen fd n s).0 ≡ false → F
  pub accepting : (fd : ℕ) (s : k.State) → (k.accept fd s).0 ≡ none → F
  pub reading : (fd n : ℕ) (s : k.State) → (k.read fd n s).0 ≡ none → F
  pub writing : (fd : ℕ) (bs : List ℕ) (s : k.State) → (k.write fd bs s).0 ≢ some (length bs) → F

nil_of : (l : List ℕ) → length l ≡ 0 → l ≡ []
nil_of [] e = refl
nil_of (x ∷ l) e = absurd (omega arith)

module _ (k : Sockets) (law : IsSockets k) {F : Type 0} (fault : Faults k F) where
  transfer_chunk-failed :
      {P : Unit {0} → k.State → Type 0} {Q : k.State → Type 0} (rest : Cmd k.State (Unit {0}))
      (output : ℕ) (s : k.State)
      → F
      → Ends F P Q (transfer_chunk k rest output none s)
  unfolding transfer_chunk
  transfer_chunk-failed rest output s f = failed f

  transfer_chunk-lem :
      {P : Unit {0} → k.State → Type 0} {Q : k.State → Type 0} (rest : Cmd k.State (Unit {0}))
      (output : ℕ) (bs : List ℕ) (s : k.State)
      → (length bs ≡ 0 → P tt s)
      → ((s' : k.State)
          → 0 < length bs
          → law.outgoing output s' ≡ law.outgoing output s ++ bs
          → ((input : ℕ) → law.incoming input s' ≡ law.incoming input s)
          → Ends F P Q (rest s'))
      → Ends F P Q (transfer_chunk k rest output (some bs) s)
  unfolding transfer_chunk
  transfer_chunk-lem rest output [] s end next = returned (end refl)
  transfer_chunk-lem rest output (b ∷ bs) s end next =
      let (same, how) = law.writes output (b ∷ bs) s in
      elim how [
        | inl r ↦ rw r (failed (fault.writing output (b ∷ bs) s (λ q. cc)))
        | inr (m, r, le, now) ↦ rw r (elim (Bool-cases (m == length (b ∷ bs))) [
          | inl full ↦ rw full (
              next _ (omega arith)
                (now
                  ∙ ap (λ (l : List ℕ). law.outgoing output s ++ l)
                      (take_all m (b ∷ bs) (ground arith)))
                same)
          | inr short ↦
              rw short (failed (fault.writing output (b ∷ bs) s (λ q. false≢true (ground arith))))
        ])
      ]

  transfer_lem :
      {Q : k.State → Type 0} (fuel input output : ℕ) (s : k.State)
      → length (law.incoming input s) < fuel
      → Ends F
          (λ _ s'. law.outgoing output s' ≡ law.outgoing output s ++ law.incoming input s)
          Q
          (transfer k fuel input output s)
  unfolding transfer
  transfer_lem zero input output s enough = absurd (omega arith)
  transfer_lem (suc fuel) input output s enough =
      let (quiet, how) = law.reads input buf_size s in
      elim how [
        | inl r ↦ rw r (transfer_chunk-failed _ output _ (fault.reading input buf_size s r))
        | inr (m, r, le, more, left) ↦
            let c = law.incoming input s in
            let size : length (take m c) ≡ m = omega (arith, length-take m c) in
            rw r (
              transfer_chunk-lem (transfer k fuel input output) output (take m c) _
                (λ z.
                  quiet output
                  ∙ sym (append-nil (law.outgoing output s))
                  ∙ ap (λ (l : List ℕ). law.outgoing output s ++ l)
                      (sym (nil_of c (ground (arith, more)))))
                (λ s' pos sent same.
                  let now : law.incoming input s' ≡ drop m c = same input ∙ left in
                  Ends.mono
                    (transfer_lem fuel input output s'
                      (omega (arith, ap (λ (l : List ℕ). length l) now, length-drop m c)))
                    λ _ t e.
                      e
                      ∙ ap (λ l. law.outgoing output s' ++ l) now
                      ∙ ap (λ (l : List ℕ). l ++ drop m c)
                          (sent ∙ ap (λ (l : List ℕ). l ++ take m c) (quiet output))
                      ∙ append_assoc (law.outgoing output s) (take m c) (drop m c)
                      ∙ ap (λ l. law.outgoing output s ++ l) (take-append-drop m c)))
      ]

  -- With fuel for its input, the client ends: it exits with status 0 and has sent on its socket what
  -- came from the standard input, or it exits with status 1, and then a call failed or a write fell
  -- short.
  pub client_main-sends :
      (fuel : ℕ) (s : k.State)
      → length (law.incoming stdin_fileno s) < fuel
      → Ends F
          (λ _ _. ⊥)
          (λ s'.
            (fd : ℕ) × ((k.socket s).0 ≡ some fd)
            × (law.outgoing fd s' ≡ law.incoming stdin_fileno s))
          (client_main k fuel s)
  unfolding client_main
  client_main-sends fuel s enough = elim (Option-cases (k.socket s).0) [
    | inl r ↦ rw r (failed (fault.making s r))
    | inr (fd, r) ↦
        let s1 = (k.socket s).1 in
        let s2 = (k.connect fd address s1).1 in
        let (none_sent, waiting) = law.starts fd s r in
        let (silent, waits) = law.connects fd address s1 in
        let same : law.incoming stdin_fileno s2 ≡ law.incoming stdin_fileno s = waits ∙ waiting in
        rw r (elim (Bool-cases (k.connect fd address s1).0) [
          | inl y ↦ rw y (
              Ends.bind (transfer_lem fuel stdin_fileno fd s2 (rw same enough)) λ _ t e. succeeded (
                fd,
                refl,
                e
                    ∙ ap (λ (l : List ℕ). l ++ law.incoming stdin_fileno s2) (silent ∙ none_sent)
                    ∙ same,
              ))
          | inr y ↦ rw y (failed (fault.connecting fd address s1 y))
        ])
  ]

  hang_up-silent :
      {Q : k.State → Type 0} (cfd : ℕ) (s : k.State)
      → stdout_fileno ≢ cfd
      → Ends F
          (λ _ s'. law.outgoing stdout_fileno s' ≡ law.outgoing stdout_fileno s)
          Q
          (hang_up k cfd s)
  unfolding hang_up
  hang_up-silent cfd s ne =
      let same = law.closes cfd stdout_fileno s ne in
      elim (Bool-cases (k.close cfd s).0) [
        | inl y ↦ rw y (returned same)
        | inr y ↦ rw y (returned (law.says stdout_fileno (k.close cfd s).1 ∙ same))
      ]

  -- With fuel for what the client sends, and standard output open, the server's round for one
  -- connection ends: it returns, and what came from the connection was written to the standard
  -- output, or it exits with status 1, and then a call failed or a write fell short.
  pub serve-copies :
      (fuel sfd : ℕ) (s : k.State)
      → ((cfd : ℕ)
          → (k.accept sfd s).0 ≡ some cfd
          → (stdout_fileno ≢ cfd) × (length (law.incoming cfd (k.accept sfd s).1) < fuel))
      → Ends F
          (λ _ s'.
            (cfd : ℕ) × ((k.accept sfd s).0 ≡ some cfd)
            × (law.outgoing stdout_fileno s'
                ≡ law.outgoing stdout_fileno s ++ law.incoming cfd (k.accept sfd s).1))
          (λ _. ⊥)
          (serve k fuel sfd s)
  unfolding serve
  serve-copies fuel sfd s enough = elim (Option-cases (k.accept sfd s).0) [
    | inl r ↦ rw r (failed (fault.accepting sfd s r))
    | inr (cfd, r) ↦
        let s1 = (k.accept sfd s).1 in
        let (ne, small) = enough cfd r in
        rw r (
          Ends.bind (transfer_lem fuel cfd stdout_fileno s1 small) λ _ t e.
            Ends.mono (hang_up-silent cfd t ne) λ _ u same. (
              cfd,
              refl,
              same
                  ∙ e
                  ∙ ap (λ (l : List ℕ). l ++ law.incoming cfd s1) (law.accepts sfd stdout_fileno s),
            ))
  ]
