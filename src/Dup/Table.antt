-- ===== src/Dup/Table.antt =====
-- What dup_fd and dup2_fd do to the table of descriptors.
use mathlib.Core.Bool.{false≢true}
use textbooks.Base.{
  ℕ, ◌≡◌, ◌≢◌, ◌≤◌, ◌<◌, ◌⊎◌, refl, ap, ◌∙◌, ◌==◌, true, not, Option, none, some, inl, inr, arith,
  Bool-cases,
}
use textbooks.Base.Returns.{Returns, returns}
use textbooks.Posix.{update, is_none}
use textbooks.Dup.Defs.{
  Fcntl, Outcome, failed_call, bad_descriptor, number, no_value, dup_fd, check_status, dup2_fd,
}

-- The table says which open file description a descriptor refers to. F_DUPFD takes the least free
-- number from the given one on.
pub record IsFcntl (k : Fcntl) : Type 0 where
  pub table : k.State → ℕ → Option ℕ
  pub gets :
      (fd : ℕ) (s : k.State)
      → ((k.get_fd fd s).0 ≡ not (is_none (table s fd))) × (table (k.get_fd fd s).1 ≡ table s)
  pub closes : (fd : ℕ) (s : k.State) → table (k.close fd s).1 ≡ update (table s) fd none
  pub dups :
      (fd least : ℕ) (s : k.State)
      → (((k.dup_from fd least s).0 ≡ none) × (table (k.dup_from fd least s).1 ≡ table s))
        ⊎ ((new : ℕ) × ((k.dup_from fd least s).0 ≡ some new)
            × (least ≤ new)
            × (table s new ≡ none)
            × ((x : ℕ) → least ≤ x → x < new → table s x ≢ none)
            × (table (k.dup_from fd least s).1 ≡ update (table s) new (table s fd)))

none_of : (o : Option ℕ) → is_none o ≡ true → o ≡ none
none_of none e = refl
none_of (some x) e = absurd (false≢true e)

module _ (k : Fcntl) (law : IsFcntl k) where
  -- `dup_fd` fails and leaves the table alone, or the new descriptor is the least free one and refers
  -- to the same description.
  pub dup_fd-least :
      (fd : ℕ) (s : k.State)
      → Returns
          (λ r s'.
            ((r ≡ none) × (law.table s' ≡ law.table s))
            ⊎ ((new : ℕ) × (r ≡ some new)
                × (law.table s new ≡ none)
                × ((x : ℕ) → x < new → law.table s x ≢ none)
                × (law.table s' ≡ update (law.table s) new (law.table s fd))))
          (dup_fd k fd s)
  unfolding dup_fd
  dup_fd-least fd s = returns (elim (law.dups fd 0 s) [
    | inl e ↦ inl e
    | inr (new, r, le, free, least, now) ↦ inr (new, r, free, λ x h. least x (omega arith) h, now)
  ])

  -- How `dup2_fd` ends: with a descriptor that is not open it fails with EBADF; with two equal ones it
  -- returns the second; otherwise the second is closed, and F_DUPFD fails, or the second refers to
  -- the description of the first, and the function ends without a value.
  abbrev pub Duplicated : ℕ → ℕ → k.State → Outcome → k.State → Type 0
  Duplicated oldfd newfd s r s' =
      ((law.table s oldfd ≡ none) × (r ≡ bad_descriptor) × (law.table s' ≡ law.table s))
      ⊎ ((oldfd ≡ newfd) × (r ≡ number newfd) × (law.table s' ≡ law.table s))
      ⊎ ((r ≡ failed_call)
          × ((k.dup_from oldfd newfd (k.close newfd (k.get_fd oldfd s).1).1).0 ≡ none)
          × (law.table s' ≡ update (law.table s) newfd none))
      ⊎ ((r ≡ no_value)
          × ((x : ℕ) → law.table s' x ≡ update (law.table s) newfd (law.table s oldfd) x))

  -- `dup2_fd` returns, and never with EBUSY. With a first descriptor that is not open it fails with
  -- EBADF; with two equal ones it returns the second; otherwise F_DUPFD fails and the second is
  -- closed, or the second refers to the description of the first, and there is no value.
  pub dup2_fd-Duplicated :
      (oldfd newfd : ℕ) (s : k.State) → Returns (Duplicated oldfd newfd s) (dup2_fd k oldfd newfd s)
  unfolding dup2_fd check_status
  dup2_fd-Duplicated oldfd newfd s =
      let (has, same) = law.gets oldfd s in
      let s1 = (k.get_fd oldfd s).1 in
      let s2 = (k.close newfd s1).1 in
      let gone : law.table s2 ≡ update (law.table s) newfd none =
        law.closes newfd s1 ∙ ap (λ (f : ℕ → Option ℕ). update f newfd none) same in
      elim (Bool-cases (is_none (law.table s oldfd))) [
        | inl closed ↦
            rw (has, closed) (returns (inl (none_of (law.table s oldfd) closed, refl, same)))
        | inr open_ ↦ elim (Bool-cases (oldfd == newfd)) [
          | inl eq ↦ rw (has, open_, eq) (returns (inr (inl (ground arith, refl, same))))
          | inr ne ↦ elim (law.dups oldfd newfd s2) [
            | inl (r, now) ↦
                rw (has, open_, ne, r) (returns (inr (inr (inl (refl, r, now ∙ gone)))))
            | inr (new, r, le, free, least, now) ↦
                let empty : law.table s2 newfd ≡ none =
                  ap (λ (f : ℕ → Option ℕ). f newfd) gone ∙ ground arith in
                let at : new ≡ newfd = elim (Bool-cases (new == newfd)) [
                  | inl y ↦ ground arith
                  | inr y ↦ absurd (least newfd (omega arith) (ground arith) empty)
                ] in
                let hit : (new == newfd) ≡ true = ground arith in
                rw (has, open_, ne, r, hit)
                  (returns (inr (inr (inr (refl, λ x. rw (now, gone, at) (ground (arith, ne)))))))
          ]
        ]
      ]
