-- ===== src/Dup/Runs.antt =====
-- What the demonstrations of 5_4.c leave in the table of descriptors.
use Prim.Native.String.{String}
use textbooks.Base.{
  ℕ, ◌≡◌, ◌≢◌, ◌⊎◌, sym, ap, ◌∙◌, ◌==◌, false, not, Option, none, some, inl, inr, arith,
  Option-cases, Run, exit, Cmd, and_then,
}
use textbooks.Base.Ends
use textbooks.Base.Ends.{Ends, returned, succeeded, failed}
use textbooks.Posix.{update, is_none}
use textbooks.Dup.Defs.{Fcntl, dup2_fd}
use textbooks.Dup.Table.{IsFcntl, dup2_fd-Duplicated}
use textbooks.Dup.Main.{Opening, duplicate2, using_dup2, dup_main}

-- A new descriptor is a free one, and refers to a description.
pub record IsOpening (k : Fcntl) (law : IsFcntl k) (o : Opening k) : Type 0 where
  pub opens :
      (path : String) (s : k.State)
      → ((o.open_file path s).0 ≡ none)
        ⊎ ((fd d : ℕ) × ((o.open_file path s).0 ≡ some fd)
            × (law.table s fd ≡ none)
            × (law.table (o.open_file path s).1 ≡ update (law.table s) fd (some d)))

-- There is a reason for each -1, also for one that a caller finds where no value was returned.
pub record Refuses (k : Fcntl) (o : Opening k) (leftover : ℕ → ℕ → Option ℕ) (F : Type 0)
    : Type 0 where
  pub opening : (path : String) (s : k.State) → (o.open_file path s).0 ≡ none → F
  pub duplicating : (fd least : ℕ) (s : k.State) → (k.dup_from fd least s).0 ≡ none → F
  pub left_over : (oldfd newfd : ℕ) → leftover oldfd newfd ≡ none → F

-- A run that exits with status 1 in a state with `P`.
pub data Exits {S A : Type 0} (P : S → Type 0) : Run S A → Type 0 where
  exited : {s : S} → P s → Exits P (exit 1 s)

pub never_none : {x : ℕ} → some x ≢ none
never_none e = cc

pub not_same : (x y : ℕ) → (x == y) ≡ false → (y == x) ≡ false
not_same x y e = ground (arith, e)

bind-Exits :
    {S A B F : Type 0} {P : A → S → Type 0} {Q : S → Type 0} {r : Run S A} {k : A → Cmd S B}
    → Ends F P (λ _. ⊥) r
    → ((a : A) (s : S) → P a s → Exits (λ s'. F ⊎ Q s') (k a s))
    → Exits (λ s'. F ⊎ Q s') (and_then r k)
bind-Exits (returned p) next = next _ _ p
bind-Exits (succeeded q) next = absurd q
bind-Exits (failed f) next = exited (inl f)

module _ (k : Fcntl) (law : IsFcntl k) (o : Opening k) (more : IsOpening k law o)
    (leftover : ℕ → ℕ → Option ℕ) {F : Type 0} (refuse : Refuses k o leftover F) where
  duplicate2-table :
      (oldfd newfd : ℕ) (s : k.State)
      → law.table s oldfd ≢ none
      → Ends F
          (λ _ s'. (x : ℕ) → law.table s' x ≡ update (law.table s) newfd (law.table s oldfd) x)
          (λ _. ⊥)
          (duplicate2 k leftover oldfd newfd s)
  unfolding duplicate2
  duplicate2-table oldfd newfd s is_open =
      Ends.bind (Ends.ends (dup2_fd-Duplicated k law oldfd newfd s)) λ r s' how. elim how [
        | inl (closed, _, _) ↦ absurd (is_open closed)
        | inr (inl (same, e, now)) ↦ rw e (returned λ x. rw (now, same) (ground arith))
        | inr (inr (inl (e, none_free, now))) ↦
            rw e (failed (refuse.duplicating oldfd newfd _ none_free))
        | inr (inr (inr (e, now))) ↦ rw e (elim (Option-cases (leftover oldfd newfd)) [
          | inl l ↦ rw l (failed (refuse.left_over oldfd newfd l))
          | inr (n, l) ↦ rw l (returned now)
        ])
      ]

  -- A descriptor that is not open is not duplicated.
  duplicate2_closed :
      (Q : k.State → Type 0) (oldfd newfd : ℕ) (s : k.State)
      → law.table s oldfd ≡ none
      → ((s' : k.State) → law.table s' ≡ law.table s → Q s')
      → Exits (λ s'. F ⊎ Q s') (duplicate2 k leftover oldfd newfd s)
  unfolding duplicate2 dup2_fd
  duplicate2_closed Q oldfd newfd s closed holds =
      let (has, same) = law.gets oldfd s in
      let shut : (k.get_fd oldfd s).0 ≡ false = has ∙ ap (λ o. not (is_none o)) closed in
      rw shut (exited (inr (holds _ same)))

  -- Whatever ints the callers find where `dup2_fd` returns no value, `dup_main` exits with status 1, and
  -- either a call failed, or one of these ints is -1, or the last duplication failed since descriptor 20 was
  -- closed before it: then descriptor 10 refers to the description that was opened, and 20 to none.
  pub dup_main-Exits :
      (s : k.State)
      → Exits
          (λ s'.
            F
            ⊎ ((fd d : ℕ) × (law.table (o.open_file "hello" s).1 fd ≡ some d)
                × (law.table s fd ≡ none)
                × (law.table s' 10 ≡ some d)
                × (law.table s' 20 ≡ none)))
          (dup_main k o leftover s)
  unfolding dup_main using_dup2
  dup_main-Exits s = elim (more.opens "hello" s) [
    | inl e ↦ rw e (exited (inl (refuse.opening "hello" s e)))
    | inr (fd, d, e, free, now) ↦
        let s1 = (o.open_file "hello" s).1 in
        let at_fd : law.table s1 fd ≡ some d = ap (λ (t : ℕ → Option ℕ). t fd) now ∙ ground arith in
        rw e (
          bind-Exits (duplicate2-table fd 10 s1 (λ q. never_none (sym at_fd ∙ q))) λ _ s2 now2.
            let at_10 : law.table s2 10 ≡ some d = now2 10 ∙ at_fd in
            bind-Exits (duplicate2-table 10 20 s2 (λ q. never_none (sym at_10 ∙ q))) λ _ s3 now3.
              let now4 = law.closes 20 s3 in
              duplicate2_closed _ 20 25 (k.close 20 s3).1 (ap (λ (t : ℕ → Option ℕ). t 20) now4)
                λ s5 same. (
                  fd,
                  d,
                  at_fd,
                  free,
                  ap (λ (t : ℕ → Option ℕ). t 10) (same ∙ now4) ∙ now3 10 ∙ at_10,
                  ap (λ (t : ℕ → Option ℕ). t 20) (same ∙ now4),
                ))
  ]
