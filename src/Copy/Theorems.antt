-- ===== src/Copy/Theorems.antt =====
-- What a run of 13.1.c does, from its arguments to its exit status.
use Prim.Native.String.{String}
use text.Mathlib.Text.{◌==◌ as str_eq}
use text.Mathlib.TextPositions.{eq_refl as str_refl}
use mathlib.Core.Path.{subst}
use textbooks.Base.{
  ℕ, ◌≡◌, ◌≢◌, ◌<◌, refl, sym, ap, ◌∙◌, true, false, Option, none, some, List, [], ◌∷◌, arith,
  length, ◌⊎◌, inl, inr, Bool-cases, ◌==◌,
}
use textbooks.Base.Ends
use textbooks.Base.Ends.{Ends, succeeded, failed}
use textbooks.Posix.{Posix, View, IsPosix, Reasons, opened, update}
use textbooks.Posix.Opening.{names_differ, names_differ_sym}
use textbooks.Posix.Splice.{take_all}
use textbooks.Copy.Defs.{close_files, copy_opened_source, copy_files, copy_main, read_only, replace}
use textbooks.Copy.Loop.{Copying, copy_loop-Copying}

-- The file behind the name `new` holds `c`.
abbrev pub Holds : View → String → List ℕ → Type 0
Holds v name c = (j : ℕ) × (v.named name ≡ some j) × (v.file j ≡ c)

module _ (v : View) (old new : String) (i : ℕ) (c : List ℕ) (source : v.named old ≡ some i)
    (bytes : v.file i ≡ c) (differ : v.named new ≢ some i) where
  -- The file that `new` names is not the one that `old` names.
  other_inode :
      (fd d j : ℕ)
      → let w = opened v old read_only fd d i in
        (w.named new ≡ some j)
          ⊎ ((w.named new ≡ none)
              × (replace.create ≡ true)
              × ((name : String) → w.named name ≢ some j))
        → j ≢ i
  other_inode fd d j (inl e) q =
      differ (ground (arith, e, names_differ v old new i source differ, q))
  other_inode fd d j (inr (_, _, fresh)) q = fresh old (ground (arith, source, q))

  -- The two descriptors once both files are open.
  opened-Copying :
      (fd d fd' d' j : ℕ)
      → let w = opened v old read_only fd d i in
        w.desc fd' ≡ none
        → ((other : ℕ) → w.desc other ≢ some d')
        → j ≢ i
        → let x = opened w new replace fd' d' j in Copying x x.named fd fd' d d' i j c 0
  opened-Copying fd d fd' d' j free fresh ne =
      let nd : d ≢ d' = λ q. fresh fd (ground arith) in
      record {
        same_names = refl;
        in_desc = ground arith;
        out_desc = ground arith;
        ne_desc = nd;
        in_inode = ground arith;
        out_inode = ground arith;
        ne_inode = λ q. ne (sym q);
        in_file = ground (arith, names_differ v old new i source differ);
        in_offset = ground arith;
        within = omega arith;
        out_file = ground arith;
        out_offset = ground arith;
        not_append = ground arith;
      }

-- The file was copied: `old` holds what it held, and `new` holds the same.
abbrev pub IsCopied : (k : Posix) → IsPosix k → String → String → List ℕ → k.State → Type 0
IsCopied k law old new c s = Holds (law.view s) old c × Holds (law.view s) new c

-- Another descriptor is open still.
still :
    (fd fd' d d' : ℕ) (desc : ℕ → Option ℕ)
    → desc fd ≡ some d
    → desc fd' ≡ some d'
    → d ≢ d'
    → update desc fd none fd' ≡ some d'
still fd fd' d d' desc e e' ne = elim (Bool-cases (fd' == fd)) [
  | inl q ↦ let same : fd' ≡ fd = ground arith in absurd (ne (ground (arith, rw same at e', e)))
  | inr q ↦ rw q e'
]

module _ (k : Posix) (law : IsPosix k) {F : Type 0} (blame : Reasons k law F) (buf_size : ℕ)
    (pos_size : 0 < buf_size) where
  -- After the loop both descriptors are closed.
  close_both :
      (input output d d' : ℕ) (old new : String) (i j : ℕ) (c : List ℕ) (s : k.State)
      → (law.view s).named old ≡ some i
      → (law.view s).named new ≡ some j
      → (law.view s).file i ≡ c
      → (law.view s).file j ≡ c
      → (law.view s).desc input ≡ some d
      → (law.view s).desc output ≡ some d'
      → d ≢ d'
      → Ends F (λ _ _. ⊥) (IsCopied k law old new c) (close_files k buf_size input output s)
  unfolding close_files
  close_both input output d d' old new i j c s ni nj fi fj in_desc out_desc ne =
      elim (Bool-cases (k.close input s).0) [
        | inl y ↦ rw y (elim (Bool-cases (k.close output (k.close input s).1).0) [
          | inl z ↦ rw z (
              succeeded (
                rw (law.closes output (k.close input s).1, law.closes input s)
                  ((i, ni, fi), (j, nj, fj))))
          | inr z ↦ rw z (
              failed (
                blame.closing output d' _
                  (rw (law.closes input s)
                    (still input output d d' (law.view s).desc in_desc out_desc ne))
                  z))
        ])
        | inr y ↦ rw y (failed (blame.closing input d s in_desc y))
      ]

  -- With `old` open as `input`, 13.1.c opens `new` and copies.
  copy_opened :
      (fuel : ℕ) (old new : String) (v : View) (fd d i : ℕ) (c : List ℕ) (s : k.State)
      → v.named old ≡ some i
      → v.file i ≡ c
      → v.named new ≢ some i
      → length c < fuel
      → law.view s ≡ opened v old read_only fd d i
      → Ends F (λ _ _. ⊥) (IsCopied k law old new c) (copy_opened_source k buf_size fuel new fd s)
  unfolding copy_opened_source
  copy_opened fuel old new v fd d i c s ni fi differ enough now =
      elim (rw now at (law.opens new replace s)) [
        | inl (r, _) ↦ rw r (failed (blame.creating new replace s refl r))
        | inr (fd', d', j, r, free, fresh, which, now') ↦
            let ne = other_inode v old new i c ni fi differ fd d j which in
            let start = opened-Copying v old new i c ni fi differ fd d fd' d' j free fresh ne in
            let names = (opened (opened v old read_only fd d i) new replace fd' d' j).named in
            rw r (
              Ends.bind
                (copy_loop-Copying k law blame buf_size pos_size fuel names fd fd' d d' i j c 0
                  (k.open_file new replace s).1
                  (subst (λ (x : View). Copying x names fd fd' d d' i j c 0) (sym now') start)
                  (omega arith))
                λ _ t p.
                  close_both fd fd' d d' old new i j c t
                    (ap (λ (n : String → Option ℕ). n old) p.same_names
                      ∙ rw (names_differ_sym v old new i ni differ) (ground (arith, ni)))
                    (ap (λ (n : String → Option ℕ). n new) p.same_names ∙ rw (str_refl new))
                    p.in_file (p.out_file ∙ take_all (length c) c (omega arith)) p.in_desc
                    p.out_desc p.ne_desc)
      ]

  -- With fuel for the source, `copy_main` called with the names of two different files ends: it
  -- exits with status 0 and the second file holds what the first held and still holds, or it exits
  -- with status 1, and then a call failed or a write fell short.
  pub copy_main-IsCopied :
      (fuel : ℕ) (program old new : String) (i : ℕ) (c : List ℕ) (s : k.State)
      → str_eq old "--help" ≡ false
      → (law.view s).named old ≡ some i
      → (law.view s).file i ≡ c
      → (law.view s).named new ≢ some i
      → length c < fuel
      → Ends F
          (λ _ _. ⊥)
          (IsCopied k law old new c)
          (copy_main k buf_size fuel (program ∷ (old ∷ (new ∷ []))) s)
  unfolding copy_main copy_files
  copy_main-IsCopied fuel program old new i c s plain ni fi differ enough =
      rw plain (elim (law.opens old read_only s) [
        | inl (r, _) ↦ rw r (failed (blame.opening old read_only i s ni r))
        | inr (fd, d, i', r, free, fresh, which, now) ↦
            let same : i ≡ i' = ground (arith, ni, which) in
            rw r (
              copy_opened fuel old new (law.view s) fd d i c _ ni fi differ enough
                (now ∙ ap (λ n. opened (law.view s) old read_only fd d n) (sym same)))
      ])
