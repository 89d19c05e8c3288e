-- ===== src/Seek/Theorems.antt =====
-- Where 5_1.c and 5_2.c write.
use Prim.Native.String.{String}
use text.Mathlib.Text.{◌==◌ as str_eq}
use mathlib.Core.Bool.{false≢true}
use textbooks.Base.{
  ℕ, ◌≡◌, ◌≢◌, ◌⊎◌, refl, sym, ap, ◌∙◌, Bool, true, false, ◌==◌, ==_refl, if◌then◌else◌, some, List,
  [], ◌∷◌, ◌++◌, arith, length, inl, inr, Bool-cases, Option-cases,
}
use textbooks.Base.Int.{ℤ, pos, negsuc}
use textbooks.Base.Ends
use textbooks.Base.Ends.{Ends, returned, failed}
use textbooks.Posix.{Posix, View, IsPosix, Reasons, OpenFlags, seek_set, written, splice, opened}
use textbooks.Posix.Splice.{splice_end, take_all}
use textbooks.Seek.Defs.{
  or_create, at_end, first_bytes, second_bytes, write_and_close, create_file, append_second,
  append_main,
}

-- `fd` is open on the file `i`, which holds `c`, at `o`, and appends or not.
record On (v : View) (append : Bool) (fd d i o : ℕ) (c : List ℕ) : Type 0 where
  pub has_desc : v.desc fd ≡ some d
  pub has_inode : v.inode d ≡ i
  pub has_mode : v.append d ≡ append
  pub has_offset : v.offset d ≡ o
  pub has_file : v.file i ≡ c

-- What a file that held `c` holds when `bs` are written at `o`, or at its end.
abbrev after_write : Bool → ℕ → List ℕ → List ℕ → List ℕ
after_write append o c bs = if append then c ++ bs else splice c o bs

On-opened :
    (v : View) (path : String) (flags : OpenFlags) (fd d i : ℕ) (c : List ℕ)
    → flags.truncate ≡ false
    → v.named path ≡ some i
    → v.file i ≡ c
    → On (opened v path flags fd d i) flags.append fd d i 0 c
On-opened v path flags fd d i c whole name bytes = record {
  has_desc = rw (==_refl fd) refl;
  has_inode = rw (==_refl d) refl;
  has_mode = rw (==_refl d) refl;
  has_offset = rw (==_refl d) refl;
  has_file = rw (whole, name) bytes;
}

On-written :
    (v : View) (append : Bool) (fd d i o : ℕ) (c : List ℕ) (x : ℕ) (xs : List ℕ)
    → On v append fd d i o c
    → (written v d (x ∷ xs)).file i ≡ after_write append o c (x ∷ xs)
On-written v true fd d i o c x xs p =
    let self : (i == v.inode d) ≡ true = ground (arith, p.has_inode) in
    let old : v.file (v.inode d) ≡ c = ap v.file p.has_inode ∙ p.has_file in
    rw (self, p.has_mode, old) (splice_end c (x ∷ xs))
On-written v false fd d i o c x xs p =
    let self : (i == v.inode d) ≡ true = ground (arith, p.has_inode) in
    let old : v.file (v.inode d) ≡ c = ap v.file p.has_inode ∙ p.has_file in
    rw (self, p.has_mode, old, p.has_offset) refl

abbrev pub Negative : ℤ → Type 0
Negative z = (n : ℕ) × (z ≡ negsuc n)

module _ (k : Posix) (law : IsPosix k) {F : Type 0} (blame : Reasons k law F) where
  -- A write is whole, or it is a reason.
  whole_write :
      (append : Bool) (fd d i o : ℕ) (c : List ℕ) (x : ℕ) (xs : List ℕ) (s : k.State)
      → On (law.view s) append fd d i o c
      → (F × ((k.write fd (x ∷ xs) s).0 ≢ some (length (x ∷ xs))))
        ⊎ (((k.write fd (x ∷ xs) s).0 ≡ some (length (x ∷ xs)))
            × (law.view (k.write fd (x ∷ xs) s).1 ≡ written (law.view s) d (x ∷ xs)))
  whole_write append fd d i o c x xs s p = elim (law.writes fd d (x ∷ xs) s p.has_desc) [
    | inl (e, _) ↦
        let short : (k.write fd (x ∷ xs) s).0 ≢ some (length (x ∷ xs)) = λ q. cc in
        inl (blame.writing fd d (x ∷ xs) s p.has_desc short, short)
    | inr (m, e, le, now) ↦ elim (Bool-cases (m == length (x ∷ xs))) [
      | inr y ↦
          let short : (k.write fd (x ∷ xs) s).0 ≢ some (length (x ∷ xs)) =
            λ q. false≢true (ground (arith, e, q)) in
          inl (blame.writing fd d (x ∷ xs) s p.has_desc short, short)
      | inl y ↦
          let full : m ≡ length (x ∷ xs) = ground arith in
          inr (
            e ∙ ap some full,
            now ∙ ap (written (law.view s) d) (take_all m (x ∷ xs) (omega arith)),
          )
    ]
  ]

  -- What `write_and_close` leaves.
  abbrev Left : ℕ → List ℕ → String → k.State → Type 0
  Left i c path s = ((law.view s).file i ≡ c) × ((law.view s).named path ≡ some i)

  write_and_close-Left :
      (append : Bool) (fd d i o : ℕ) (c : List ℕ) (x : ℕ) (xs : List ℕ) (path : String)
      (s : k.State)
      → On (law.view s) append fd d i o c
      → (law.view s).named path ≡ some i
      → Ends F
          (λ _. Left i (after_write append o c (x ∷ xs)) path)
          (λ _. ⊥)
          (write_and_close k fd (length (x ∷ xs)) (x ∷ xs) s)
  unfolding write_and_close
  write_and_close-Left append fd d i o c x xs path s p name =
      let s1 = (k.write fd (x ∷ xs) s).1 in
      elim (whole_write append fd d i o c x xs s p) [
        | inr (e, now) ↦
            rw (e, ==_refl (length (x ∷ xs)))
              (returned (
                rw (law.closes fd s1, now)
                  (On-written (law.view s) append fd d i o c x xs p, name)))
        | inl (f, short) ↦ elim (Option-cases (k.write fd (x ∷ xs) s).0) [
          | inl e ↦ rw e (failed f)
          | inr (m, e) ↦ rw e (elim (Bool-cases (m == length (x ∷ xs))) [
            | inr y ↦ rw y (failed f)
            | inl y ↦ absurd (short (e ∙ ap some (ground (arith, y))))
          ])
        ]
      ]

  -- `main` of 5_2.c behind `createFile`.
  reopened :
      (i : ℕ) (c : List ℕ) (s : k.State)
      → (law.view s).named "tmp.out" ≡ some i
      → (law.view s).file i ≡ c
      → Ends F (λ _ s'. (law.view s').file i ≡ c ++ second_bytes) (λ _. ⊥) (append_second k s)
  unfolding append_second
  reopened i c s name bytes = elim (law.opens "tmp.out" at_end s) [
    | inl (e, _) ↦ rw e (failed (blame.opening "tmp.out" at_end i s name e))
    | inr (fd, d, i', e, free, fresh, which, now) ↦
        let s1 = (k.open_file "tmp.out" at_end s).1 in
        let same : i ≡ i' = ground (arith, name, which) in
        let open_at : On (law.view s1) true fd d i 0 c =
          rw (now, ← same) (On-opened (law.view s) "tmp.out" at_end fd d i c refl name bytes) in
        let name1 : (law.view s1).named "tmp.out" ≡ some i = rw now (ap some (sym same)) in
        rw e (elim (law.seeks fd d (pos 0) seek_set s1 open_at.has_desc) [
          | inl (e2, _) ↦
              rw e2
                (failed (blame.seeking fd d (pos 0) seek_set s1 open_at.has_desc (omega arith) e2))
          | inr (le, e2, now2) ↦
              let s2 = (k.lseek fd (pos 0) seek_set s1).1 in
              let moved : On (law.view s2) true fd d i 0 c = rw now2 (record {
                has_desc = open_at.has_desc;
                has_inode = open_at.has_inode;
                has_mode = open_at.has_mode;
                has_offset = rw (==_refl d) refl;
                has_file = open_at.has_file;
              }) in
              rw e2 (
                Ends.mono
                  (write_and_close-Left true fd d i 0 c 101 (101 ∷ []) "tmp.out" s2 moved
                    (rw now2 name1))
                  λ _ s3 left. left.0)
        ])
  ]

  -- `append_main` where "tmp.out" is a file ends: it returns, and the file holds what it held with
  -- "djfdf" over its beginning and "ee" behind its end, in spite of the seek to 0; or it exits with
  -- status 1, and then a call failed or a write fell short.
  pub append_main-appended :
      (i : ℕ) (c : List ℕ) (s : k.State)
      → (law.view s).named "tmp.out" ≡ some i
      → (law.view s).file i ≡ c
      → Ends F
          (λ _ s'. (law.view s').file i ≡ splice c 0 first_bytes ++ second_bytes)
          (λ _. ⊥)
          (append_main k s)
  unfolding append_main create_file
  append_main-appended i c s name bytes = elim (law.opens "tmp.out" or_create s) [
    | inl (e, _) ↦ rw e (failed (blame.opening "tmp.out" or_create i s name e))
    | inr (fd, d, i', e, free, fresh, which, now) ↦
        let s1 = (k.open_file "tmp.out" or_create s).1 in
        let same : i ≡ i' = ground (arith, name, which) in
        let open_at : On (law.view s1) false fd d i 0 c =
          rw (now, ← same) (On-opened (law.view s) "tmp.out" or_create fd d i c refl name bytes) in
        rw e (
          Ends.bind
            (write_and_close-Left false fd d i 0 c 100 (106 ∷ (102 ∷ (100 ∷ (102 ∷ [])))) "tmp.out"
              s1 open_at (rw now (ap some (sym same))))
            λ _ s2 (bytes2, name2). reopened i (splice c 0 first_bytes) s2 name2 bytes2)
  ]
