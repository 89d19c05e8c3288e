-- ===== src/Writes/Append.antt =====
-- 5_3.c appends its bytes, with O_APPEND or by seeking to the end before each write.
use Prim.Native.String.{String}
use mathlib.Core.Bool.{false≢true}
use mathlib.Core.Path.{subst}
use textbooks.Base.{
  ℕ, zero, suc, ◌+◌, ◌-◌, ◌≡◌, refl, ap, ◌∙◌, Bool, true, false, ◌==◌, none, some, List, ◌++◌,
  append_assoc, append-nil, arith, length, replicate, Cmd, Bool-cases, inl, inr,
}
use textbooks.Base.Ends
use textbooks.Base.Ends.{Ends, returned, failed}
use textbooks.Base.Int.{pos}
use textbooks.Posix.{Posix, View, IsPosix, Reasons, seek_end, move, written, write_at, file_of}
use textbooks.Posix.Splice.{splice_end, take_all}
use textbooks.Writes.Defs.{append_flags, one, expect, append_loop, append_file}

-- `fd` is open on the file `i`, which holds `c`.
pub record Appending (v : View) (atomic : Bool) (fd d i : ℕ) (c : List ℕ) : Type 0 where
  pub has_desc : v.desc fd ≡ some d
  pub has_inode : v.inode d ≡ i
  pub has_mode : v.append d ≡ atomic
  pub has_file : v.file i ≡ c

module _ {v : View} {atomic : Bool} {fd d i : ℕ} {c : List ℕ}
    (p : Appending v atomic fd d i c) where
  Appending-move : (o : ℕ) → Appending (move v d o) atomic fd d i c
  Appending-move o = record {
    has_desc = p.has_desc;
    has_inode = p.has_inode;
    has_mode = p.has_mode;
    has_file = p.has_file;
  }

  Appending-written : write_at v d ≡ length c → Appending (written v d one) atomic fd d i (c ++ one)
  Appending-written at_end =
      let self : (i == v.inode d) ≡ true = ground (arith, p.has_inode) in
      let old : v.file (v.inode d) ≡ c = ap v.file p.has_inode ∙ p.has_file in
      record {
        has_desc = p.has_desc;
        has_inode = p.has_inode;
        has_mode = p.has_mode;
        has_file = rw (self, at_end, old) (splice_end c one);
      }

module _ (k : Posix) (law : IsPosix k) {F : Type 0} (blame : Reasons k law F) where
  end_of_append :
      (v : View) (fd d i : ℕ) (c : List ℕ) → Appending v true fd d i c → write_at v d ≡ length c
  end_of_append v fd d i c p =
      rw p.has_mode (ap (λ (l : List ℕ). length l) (ap v.file p.has_inode ∙ p.has_file))

  end_of_seek :
      (v : View) (fd d i : ℕ) (c : List ℕ)
      → Appending v false fd d i c
      → write_at (move v d (length (file_of v d) + 0 - 0)) d ≡ length c
  end_of_seek v fd d i c p =
      let size : length (file_of v d) ≡ length c =
        ap (λ (l : List ℕ). length l) (ap v.file p.has_inode ∙ p.has_file) in
      rw (p.has_mode, size) (ground arith)

  -- The loop on -1 fails, unless it has nothing to do.
  append_nowhere :
      (n : ℕ) (atomic : Bool) (s : k.State)
      → F
      → Ends F
          (λ _ s'. (n ≡ 0) × (law.view s' ≡ law.view s))
          (λ _. ⊥)
          (append_loop k none atomic n s)
  unfolding append_loop
  append_nowhere zero atomic s f = returned (refl, refl)
  append_nowhere (suc n) true s f = failed f
  append_nowhere (suc n) false s f = failed f

  -- One write at the end, and the rest of the loop.
  append_once :
      {P : Unit {0} → k.State → Type 0} {Q : k.State → Type 0} (rest : Cmd k.State (Unit {0}))
      (atomic : Bool) (fd d i : ℕ) (c : List ℕ) (s : k.State)
      → Appending (law.view s) atomic fd d i c
      → write_at (law.view s) d ≡ length c
      → ((s' : k.State) → Appending (law.view s') atomic fd d i (c ++ one) → Ends F P Q (rest s'))
      → Ends F P Q (expect k 1 rest (k.write fd one s).0 (k.write fd one s).1)
  append_once rest atomic fd d i c s p at_end next = elim (law.writes fd d one s p.has_desc) [
    | inl (r, _) ↦ rw r (failed (blame.writing fd d one s p.has_desc (λ q. cc)))
    | inr (m, r, le, now) ↦ rw r (elim (Bool-cases (m == 1)) [
      | inl full ↦
          rw full (next _ (rw (now, take_all m one (ground arith)) (Appending-written p at_end)))
      | inr short ↦
          rw short (failed (blame.writing fd d one s p.has_desc (λ q. false≢true (ground arith))))
    ])
  ]

  abbrev Appended : Bool → ℕ → ℕ → ℕ → List ℕ → ℕ → k.State → Type 0
  Appended atomic fd d i c n s = Appending (law.view s) atomic fd d i (c ++ replicate n 49)

  append_loop-Appended :
      (n : ℕ) (atomic : Bool) (fd d i : ℕ) (c : List ℕ) (s : k.State)
      → Appending (law.view s) atomic fd d i c
      → Ends F (λ _. Appended atomic fd d i c n) (λ _. ⊥) (append_loop k (some fd) atomic n s)
  unfolding append_loop
  append_loop-Appended zero atomic fd d i c s p = returned (rw append-nil p)
  append_loop-Appended (suc n) true fd d i c s p =
      append_once (append_loop k (some fd) true n) true fd d i c s p
        (end_of_append (law.view s) fd d i c p)
        λ s' p'. Ends.mono (append_loop-Appended n true fd d i (c ++ one) s' p') λ _ t q.
          subst (λ l. Appending (law.view t) true fd d i l) (append_assoc c one (replicate n 49)) q
  append_loop-Appended (suc n) false fd d i c s p =
      elim (law.seeks fd d (pos 0) seek_end s p.has_desc) [
        | inl (r, _) ↦
            rw r (failed (blame.seeking fd d (pos 0) seek_end s p.has_desc (omega arith) r))
        | inr (le, r, now) ↦ rw r (
            append_once (append_loop k (some fd) false n) false fd d i c _
              (rw now (Appending-move p _)) (rw now (end_of_seek (law.view s) fd d i c p))
              λ s' p'. Ends.mono (append_loop-Appended n false fd d i (c ++ one) s' p') λ _ t q.
                subst (λ l. Appending (law.view t) false fd d i l)
                  (append_assoc c one (replicate n 49)) q)
      ]

  -- `append_file` on a file ends: it returns, and its bytes are behind those that the file had, with
  -- O_APPEND and without, or it exits with status 1, and then a call failed or a write fell short.
  pub append_file-Appended :
      (atomic : Bool) (filename : String) (nbytes i : ℕ) (c : List ℕ) (s : k.State)
      → (law.view s).named filename ≡ some i
      → (law.view s).file i ≡ c
      → Ends F
          (λ _ s'. (law.view s').file i ≡ c ++ replicate nbytes 49)
          (λ _. ⊥)
          (append_file k atomic filename nbytes s)
  unfolding append_file
  append_file-Appended atomic filename nbytes i c s n f =
      elim (law.opens filename (append_flags atomic) s) [
        | inl (r, now) ↦ rw r (
            Ends.bind
              (append_nowhere nbytes atomic _
                (blame.opening filename (append_flags atomic) i s n r))
              λ _ t (z, same). returned (rw (same, now, z, append-nil) f))
        | inr (fd, d, i', r, free, fresh, which, now) ↦
            let same : i ≡ i' = ground (arith, n, which) in
            rw r (
              Ends.bind
                (append_loop-Appended nbytes atomic fd d i c _ (
                  rw (now, ← same)
                    (record {
                      has_desc = ground arith;
                      has_inode = ground arith;
                      has_mode = ground arith;
                      has_file = rw n f;
                    })))
                λ _ t p. returned (rw (law.closes fd t) p.has_file))
      ]
