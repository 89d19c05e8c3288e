-- ===== src/Signals/Interrupt.antt =====
-- `siginterrupt` of tlpi/c20/20.4.c.
use mathlib.Core.Bool.{false≢true}
use textbooks.Base.{
  ℕ, ◌+◌, ◌-◌, ◌*◌, ◌/◌, ◌%◌, ◌^◌, ◌≡◌, ◌≢◌, ◌⊎◌, refl, inl, inr, true, false, Bool, ◌==◌, Option,
  none, some, if◌then◌else◌, arith, not, sym, ◌∙◌, ==_iff, ==_refl, Cmd, pure, Bool-cases, ◌>>=◌,
}
use textbooks.Base.Int.{ℤ, pos, negsuc}
use textbooks.Base.Returns.{Returns, returns}
use textbooks.Posix.{call, update}

-- The action for a signal: `flags` are the 32 bits of `sa_flags`, and `other` is the rest.
pub record Action : Type 0 where
  pub flags : ℕ
  pub other : ℕ

-- sigaction, with a null pointer for the one or the other argument.
pub record Actions : Type 1 where
  pub State : Type 0
  pub get_action : ℕ → State → Option Action × State
  pub set_action : ℕ → Action → State → Bool × State

-- SA_RESTART
abbrev pub sa_restart : ℕ
sa_restart = 2 ^ 28

abbrev pub restarts : ℕ → Bool
restarts flags = flags / sa_restart % 2 == 1

-- `flags & ~SA_RESTART` and `flags | SA_RESTART`
abbrev pub without_restart : ℕ → ℕ
without_restart flags = if restarts flags then flags - sa_restart else flags

abbrev pub with_restart : ℕ → ℕ
with_restart flags = if restarts flags then flags else flags + sa_restart

module _ (k : Actions) where
  unfoldable pub siginterrupt : ℕ → Bool → Cmd k.State ℤ
  siginterrupt sig flag = do
    prev_act ← call (k.get_action sig)
    elim prev_act [
      | none ↦ pure (negsuc 0)
      | some act ↦ do
        set ← call (
            k.set_action sig (record act {
              flags = if flag then without_restart act.flags else with_restart act.flags;
            }))
        if set then pure (pos 0) else pure (negsuc 0)
    ]

-- sigaction(2): the table of actions is read, and an action is set, or the call fails.
pub record IsActions (k : Actions) : Type 0 where
  pub table : k.State → ℕ → Action
  pub gets :
      (sig : ℕ) (s : k.State)
      → (table (k.get_action sig s).1 ≡ table s)
        × (((k.get_action sig s).0 ≡ none) ⊎ ((k.get_action sig s).0 ≡ some (table s sig)))
  pub sets :
      (sig : ℕ) (act : Action) (s : k.State)
      → (((k.set_action sig act s).0 ≡ false) × (table (k.set_action sig act s).1 ≡ table s))
        ⊎ (((k.set_action sig act s).0 ≡ true)
            × (table (k.set_action sig act s).1 ≡ update (table s) sig act))

-- An action `new` that differs from `old` at most in SA_RESTART, which is set just where `b` is true.
pub record Restarts (b : Bool) (old new : Action) : Type 0 where
  pub asked : restarts new.flags ≡ b
  pub low : new.flags % sa_restart ≡ old.flags % sa_restart
  pub high : new.flags / (2 * sa_restart) ≡ old.flags / (2 * sa_restart)
  pub same : new.other ≡ old.other

without_restart-Restarts :
    (act : Action) → Restarts false act (record act { flags = without_restart act.flags })
without_restart-Restarts act = elim (Bool-cases (restarts act.flags)) [
  | inl y ↦
      let set : act.flags / sa_restart % 2 ≡ 1 = (==_iff (act.flags / sa_restart % 2) 1).0 y in
      let clear : (act.flags - sa_restart) / sa_restart % 2 ≡ 0 = omega arith in
      rw y (record {
        asked = ground (arith, clear);
        low = omega arith;
        high = omega arith;
        same = refl;
      })
  | inr y ↦ rw y (record { asked = y; low = refl; high = refl; same = refl })
]

with_restart-Restarts :
    (act : Action) → Restarts true act (record act { flags = with_restart act.flags })
with_restart-Restarts act = elim (Bool-cases (restarts act.flags)) [
  | inl y ↦ rw y (record { asked = y; low = refl; high = refl; same = refl })
  | inr y ↦
      let clear : act.flags / sa_restart % 2 ≢ 1 =
        λ e. false≢true (sym y ∙ (==_iff (act.flags / sa_restart % 2) 1).1 e) in
      let set : (act.flags + sa_restart) / sa_restart % 2 ≡ 1 = omega arith in
      rw y
        (record { asked = ground (arith, set); low = omega arith; high = omega arith; same = refl })
]

asked-Restarts :
    (flag : Bool) (act : Action)
    → Restarts
        (not flag)
        act
        (record act { flags = if flag then without_restart act.flags else with_restart act.flags })
asked-Restarts true act = without_restart-Restarts act
asked-Restarts false act = with_restart-Restarts act

-- siginterrupt returns. It gives -1 and the actions are as they were, or it gives 0, and then the action
-- for the signal restarts calls just where `flag` is 0, its other flags and fields are as they were,
-- and so are the actions for the other signals.
pub siginterrupt-Restarts :
    (k : Actions) (law : IsActions k) (sig : ℕ) (flag : Bool) (s : k.State)
    → Returns
        (λ r s'.
          ((r ≡ negsuc 0) × (law.table s' ≡ law.table s))
          ⊎ ((r ≡ pos 0)
              × Restarts (not flag) (law.table s sig) (law.table s' sig)
              × ((other : ℕ) → other ≢ sig → law.table s' other ≡ law.table s other)))
        (siginterrupt k sig flag s)
unfolding siginterrupt
siginterrupt-Restarts k law sig flag s =
    let (same, how) = law.gets sig s in
    let s1 = (k.get_action sig s).1 in
    let old = law.table s sig in
    let act : Action = record old {
      flags = if flag then without_restart old.flags else with_restart old.flags;
    } in
    elim how [
      | inl e ↦ rw e (returns (inl (refl, same)))
      | inr e ↦ rw e (elim (law.sets sig act s1) [
        | inl (e2, kept) ↦ rw e2 (returns (inl (refl, kept ∙ same)))
        | inr (e2, now) ↦ rw e2 (
            returns (
              inr (
                refl,
                rw (now, ==_refl sig) (asked-Restarts flag old),
                λ other ne. rw (now, same) (ground arith),
              )))
      ])
    ]
