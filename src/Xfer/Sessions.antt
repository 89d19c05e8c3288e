-- ===== src/Xfer/Sessions.antt =====
-- The server over several connections.
use textbooks.Base.{
  ℕ, zero, suc, ◌+◌, ◌≡◌, ◌≢◌, ◌<◌, ◌⊎◌, refl, sym, ap, ◌∙◌, some, List, [], ◌∷◌, ◌++◌, arith,
  length, append_assoc, append-nil, inl, inr, ok, and_then, Bool-cases, Option-cases,
}
use textbooks.Base.Ends.{Ends, returned, failed, outcome}
use textbooks.Xfer.Defs.{
  Sockets, address, backlog, stdout_fileno, server_socket, serve, server_loop, server_main,
}
use textbooks.Xfer.Transfer.{IsSockets, Faults, serve-copies}

abbrev pub concat : List (List ℕ) → List ℕ
concat [] = []
concat (c ∷ cs) = c ++ concat cs

module _ (k : Sockets) (law : IsSockets k) (fuel sfd : ℕ) where
  -- From the first state to the second, the server served one client after the other: the list has
  -- what came from each, and all of it went to the standard output.
  pub data Sessions : List (List ℕ) → k.State → k.State → Type 0 where
    none_yet : {s : k.State} → Sessions [] s s
    one_more :
        {c : List ℕ} {cs : List (List ℕ)} {s s1 s2 : k.State} (cfd : ℕ)
        → (k.accept sfd s).0 ≡ some cfd
        → law.incoming cfd (k.accept sfd s).1 ≡ c
        → serve k fuel sfd s ≡ ok tt s1
        → law.outgoing stdout_fileno s1 ≡ law.outgoing stdout_fileno s ++ c
        → Sessions cs s1 s2
        → Sessions (c ∷ cs) s s2

  pub Sessions-concat :
      (cs : List (List ℕ)) (s s' : k.State)
      → Sessions cs s s'
      → law.outgoing stdout_fileno s' ≡ law.outgoing stdout_fileno s ++ concat cs
  Sessions-concat cs s s' none_yet = sym (append-nil (law.outgoing stdout_fileno s))
  Sessions-concat (c ∷ cs) s s' (one_more {s1 = s1} cfd accepted came ran wrote rest) =
      Sessions-concat cs s1 s' rest
      ∙ ap (λ (l : List ℕ). l ++ concat cs) wrote
      ∙ append_assoc (law.outgoing stdout_fileno s) c (concat cs)

  -- The loop goes on behind what was served.
  Sessions-server_loop :
      (cs : List (List ℕ)) (s s' : k.State)
      → Sessions cs s s'
      → (more : ℕ) → server_loop k fuel (length cs + more) sfd s ≡ server_loop k fuel more sfd s'
  unfolding server_loop
  Sessions-server_loop cs s s' none_yet more = ap (λ n. server_loop k fuel n sfd s) (omega arith)
  Sessions-server_loop (c ∷ cs) s s' (one_more {s1 = s1} cfd accepted came ran wrote rest) more =
      let sum : length (c ∷ cs) + more ≡ suc (length cs + more) = omega arith in
      ap (λ n. server_loop k fuel n sfd s) sum
      ∙ ap (λ r. and_then r (λ _. server_loop k fuel (length cs + more) sfd)) ran
      ∙ Sessions-server_loop cs s1 s' rest more

  module _ {F : Type 0} (fault : Faults k F)
      (enough : (s : k.State) (cfd : ℕ)
        → (k.accept sfd s).0 ≡ some cfd
        → (stdout_fileno ≢ cfd) × (length (law.incoming cfd (k.accept sfd s).1) < fuel)) where
    serves :
        (n : ℕ) (s : k.State)
        → F ⊎ ((cs : List (List ℕ)) × (s' : k.State) × (length cs ≡ n) × Sessions cs s s')
    serves zero s = inr ([], s, refl, none_yet)
    serves (suc n) s = elim (outcome (serve-copies k law fault fuel sfd s (enough s))) [
      | inl f ↦ inl f
      | inr (_, s1, ran, (cfd, accepted, wrote)) ↦ elim (serves n s1) [
        | inl f ↦ inl f
        | inr (cs, s', size, rest) ↦ inr (
          law.incoming cfd (k.accept sfd s).1 ∷ cs,
          s',
          ap suc size,
          one_more cfd accepted refl ran wrote rest,
        )
      ]
    ]

module _ (k : Sockets) (law : IsSockets k) {F : Type 0} (fault : Faults k F) where
  server_socket-made : (s : k.State) → Ends F (λ _ _. Unit) (λ _. ⊥) (server_socket k s)
  unfolding server_socket
  server_socket-made s = elim (Option-cases (k.socket s).0) [
    | inl e ↦ rw e (failed (fault.making s e))
    | inr (fd, e) ↦
        let s1 = (k.socket s).1 in
        let s2 = (k.bind fd address s1).1 in
        rw e (elim (Bool-cases (k.bind fd address s1).0) [
          | inr y ↦ rw y (failed (fault.binding fd address s1 y))
          | inl y ↦ rw y (elim (Bool-cases (k.listen fd backlog s2).0) [
            | inr z ↦ rw z (failed (fault.listening fd backlog s2 z))
            | inl z ↦ rw z (returned tt)
          ])
        ])
  ]

  -- Let each connection get a descriptor that is not the standard output, and send less than `fuel`
  -- bytes. Then a call fails, or a write falls short, or the server gets its socket and does not end:
  -- after any number of rounds its loop is in the next one, it served one client in each, and it wrote
  -- what they sent, one behind the other, to the standard output.
  pub server_main-Sessions :
      (fuel rounds : ℕ) (s : k.State)
      → ((sfd : ℕ) (t : k.State) (cfd : ℕ)
          → (k.accept sfd t).0 ≡ some cfd
          → (stdout_fileno ≢ cfd) × (length (law.incoming cfd (k.accept sfd t).1) < fuel))
      → F
        ⊎ ((sfd : ℕ) × (s0 : k.State) × (s' : k.State) × (cs : List (List ℕ)) × (server_socket k s
              ≡ ok sfd s0)
            × (length cs ≡ rounds)
            × Sessions k law fuel sfd cs s0 s'
            × (law.outgoing stdout_fileno s' ≡ law.outgoing stdout_fileno s0 ++ concat cs)
            × ((more : ℕ) → server_main k fuel (rounds + more) s ≡ server_loop k fuel more sfd s'))
  unfolding server_main
  server_main-Sessions fuel rounds s enough = elim (outcome (server_socket-made s)) [
    | inl f ↦ inl f
    | inr (sfd, s0, made, _) ↦ elim (serves k law fuel sfd fault (enough sfd) rounds s0) [
      | inl f ↦ inl f
      | inr (cs, s', size, sessions) ↦ inr (
        sfd,
        s0,
        s',
        cs,
        made,
        size,
        sessions,
        Sessions-concat k law fuel sfd cs s0 s' sessions,
        λ more.
            ap (λ r. and_then r (λ fd. server_loop k fuel (rounds + more) fd)) made
            ∙ ap (λ n. server_loop k fuel (n + more) sfd s0) (sym size)
            ∙ Sessions-server_loop k law fuel sfd cs s0 s' sessions more,
      )
    ]
  ]
