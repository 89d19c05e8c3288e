-- ===== src/Tail/Search.antt =====
-- The search leaves the offset where the last lines begin.
use textbooks.Base.{
  ℕ, zero, suc, ◌+◌, ◌-◌, ◌≡◌, ◌≤◌, ◌<◌, refl, ap, ◌∙◌, inl, inr, true, false, none, some, List, [],
  ◌∷◌, arith, min, length, take, drop, leb, ltb, length-take, length-drop, Bool-cases, Cmd, pure,
}
use textbooks.Base.Int.{ℤ, pos}
use textbooks.Base.Ends
use textbooks.Base.Ends.{Ends, returned, failed}
use textbooks.Posix.{Posix, View, IsPosix, Reasons, seek_set, seek_end, move, file_of, reads_at}
use textbooks.Posix.Splice.{drop_all}
use textbooks.Tail.Defs.{Stdio, buffer_size, check_seek, tail_chunk, tail_loop, tail_search}
use textbooks.Posix.{WholeReads}
use textbooks.Tail.Stdio.{IsStdio}
use textbooks.Tail.Places.{TailAt, chunk-TailAt, newlines-chunk}
use textbooks.Tail.Scan.{newlines, scan_back-Stops}

-- `fd` is open on the file `i`, which holds `c`, at `p`.
pub record Reading (v : View) (fd d i : ℕ) (c : List ℕ) (p : ℕ) : Type 0 where
  pub has_desc : v.desc fd ≡ some d
  pub has_inode : v.inode d ≡ i
  pub has_file : v.file i ≡ c
  pub has_offset : v.offset d ≡ p

Reading-move :
    {v : View} {fd d i : ℕ} {c : List ℕ} {p : ℕ} (o : ℕ)
    → Reading v fd d i c p
    → Reading (move v d o) fd d i c o
Reading-move o r = record {
  has_desc = r.has_desc;
  has_inode = r.has_inode;
  has_file = r.has_file;
  has_offset = ground arith;
}

module _ (k : Posix) (law : IsPosix k) (io : Stdio k) (std : IsStdio k law io)
    (whole : WholeReads k law) {F : Type 0} (blame : Reasons k law F) (fd d i n : ℕ)
    (c : List ℕ) where
  -- The search is over, with nothing printed since `s₀`.
  pub record Found (s₀ s : k.State) : Type 0 where
    pub place : ℕ
    pub reading : Reading (law.view s) fd d i c place
    pub is_tail : TailAt n c place
    pub quiet : std.out s ≡ std.out s₀

  -- A seek to `o`.
  seek_to :
      {P : Unit {0} → k.State → Type 0} {Q : k.State → Type 0} (o p : ℕ) (s : k.State)
      (next : ℕ → Cmd k.State (Unit {0}))
      → Reading (law.view s) fd d i c p
      → ((s' : k.State)
          → Reading (law.view s') fd d i c o
          → std.out s' ≡ std.out s
          → Ends F P Q (next o s'))
      → Ends F P Q
          (check_seek k next (k.lseek fd (pos o) seek_set s).0 (k.lseek fd (pos o) seek_set s).1)
  seek_to o p s next r go = elim (law.seeks fd d (pos o) seek_set s r.has_desc) [
    | inl (e, now) ↦
        rw e (failed (blame.seeking fd d (pos o) seek_set s r.has_desc (omega arith) e))
    | inr (le, e, now) ↦
        let at : 0 + o - 0 ≡ o = omega arith in
        rw (e, at) (go _ (rw (now, at) (Reading-move o r)) (std.quiet_lseek fd (pos o) seek_set s))
  ]

  -- The chunk before `q` is read, and `l` lines are left: `n` less the newlines from `q` on.
  abbrev Ready : ℕ → ℕ → ℕ → ℕ → Type 0
  Ready bytes p q l =
      (min bytes (length c - p) ≡ q - p)
      × (p ≤ q)
      × (q ≤ length c)
      × (p ≡ q → p ≡ 0)
      × (10 ≤ p → bytes ≡ 10)
      × (n ≡ l + newlines (drop q c))

  distant_start :
      (bytes p q l' : ℕ)
      → p ≤ q
      → q ≤ length c
      → (10 ≤ p → bytes ≡ 10)
      → min bytes (length c - p) ≡ q - p
      → p < q
      → leb buffer_size p ≡ true
      → n ≡ l' + newlines (drop p c)
      → Ready bytes (p - buffer_size) p l'
  distant_start bytes p q l' le inside ten size lt far count =
      let ten' : bytes ≡ 10 = ten (ground arith) in
      let big : 10 ≤ p = ground arith in
      (omega arith, omega arith, omega arith, λ x. absurd (omega arith), λ x. ten', count)

  abbrev Loop : Type 0
  Loop = ℕ → ℕ → ℤ → Cmd k.State (Unit {0})

  tail_chunk-failed :
      {P : Unit {0} → k.State → Type 0} {Q : k.State → Type 0} (loop : Loop) (bytes p l : ℕ)
      (s : k.State)
      → F
      → Ends F P Q (tail_chunk k loop fd bytes p (pos l) none s)
  unfolding tail_chunk
  tail_chunk-failed loop bytes p l s f = failed f

  tail_chunk-Found :
      {Q : k.State → Type 0} (loop : Loop) (bytes p q l : ℕ) (bs : List ℕ) (s₀ s : k.State)
      → Reading (law.view s) fd d i c q
      → Ready bytes p q l
      → bs ≡ take (q - p) (drop p c)
      → std.out s ≡ std.out s₀
      → ((bytes' p' l' : ℕ) (s' : k.State)
          → p < q
          → Reading (law.view s') fd d i c p'
          → Ready bytes' p' p l'
          → std.out s' ≡ std.out s₀
          → Ends F (λ _. Found s₀) Q (loop bytes' p' (pos l') s'))
      → Ends F (λ _. Found s₀) Q (tail_chunk k loop fd bytes p (pos l) (some bs) s)
  unfolding tail_chunk
  tail_chunk-Found loop bytes p q l [] s₀ s r (size, le, inside, end, ten, count) e quiet next =
      let none_read : q - p ≡ 0 =
        omega (
          arith,
          ap (λ (x : List ℕ). length x) e,
          length-take (q - p) (drop p c),
          length-drop p c,
        ) in
      let same : q ≡ 0 = ground (arith, end) in
      returned (record {
        place = 0;
        reading = rw (← same) r;
        is_tail = inl (refl, omega (arith, rw same at count));
        quiet = quiet;
      })
  tail_chunk-Found loop bytes p q l (b ∷ bs) s₀ s r (size, le, inside, end, ten, count) e quiet
        next =
      let size' : length (b ∷ bs) ≡ q - p =
        ap (λ (x : List ℕ). length x) e
        ∙ omega (arith, length-take (q - p) (drop p c), length-drop p c) in
      elim (scan_back-Stops (b ∷ bs) (length (b ∷ bs)) l (omega arith)) [
        | inl (l', scanned, total) ↦
            let more : ltb (l' + 0) 0 ≡ false = ground arith in
            let count' = newlines-chunk n p q (b ∷ bs) c le e size' l l' count total in
            rw (scanned, more)
              (elim (Bool-cases (leb buffer_size p)) [
                | inl far ↦ rw far (
                    seek_to (p - buffer_size) q s (λ position. loop bytes position (pos l')) r
                      λ s' r' quiet'.
                        next bytes (p - buffer_size) l' s' (omega (arith, size')) r'
                          (distant_start bytes p q l' le inside ten size (omega (arith, size')) far
                            count')
                          (quiet' ∙ quiet))
                | inr near ↦ rw near (
                    seek_to 0 q s (λ position. loop p position (pos l')) r
                      λ s' r' quiet'.
                        next p 0 l' s' (omega (arith, size')) r'
                          (
                            omega arith,
                            omega arith,
                            omega arith,
                            λ x. refl,
                            λ x. absurd (omega arith),
                            count',
                          )
                          (quiet' ∙ quiet))
              ])
        | inr (j, scanned, inside_j, found, total) ↦ rw scanned (
            seek_to (p + suc j) q s (λ _. pure tt) r
              λ s' r' quiet'. returned (record {
                place = p + suc j;
                reading = r';
                is_tail = chunk-TailAt n p q (b ∷ bs) c le e size' l j count inside_j found total;
                quiet = quiet' ∙ quiet;
              }))
      ]

  tail_loop-Found :
      {Q : k.State → Type 0} (fuel bytes p q l : ℕ) (s₀ s : k.State)
      → Reading (law.view s) fd d i c p
      → Ready bytes p q l
      → std.out s ≡ std.out s₀
      → q < fuel
      → Ends F (λ _. Found s₀) Q (tail_loop k fuel fd bytes p (pos l) s)
  unfolding tail_loop
  tail_loop-Found zero bytes p q l s₀ s r ready quiet enough = absurd (omega arith)
  tail_loop-Found (suc fuel) bytes p q l s₀ s r ready quiet enough =
      let here = ap (law.view s).file r.has_inode ∙ r.has_file in
      elim (reads_at k law fd bytes d s c p r.has_desc here r.has_offset) [
        | inl (e, now) ↦ rw e (
            tail_chunk-failed (tail_loop k fuel fd) bytes p l _
              (blame.reading fd bytes d s r.has_desc e))
        | inr (m, e, small, within, more, now) ↦
            let full : length (take m (drop p c)) ≡ min bytes (length c - p) =
              whole fd bytes d s (take m (drop p c)) r.has_desc e ∙ rw (here, r.has_offset) in
            let size : m ≡ q - p =
              omega (arith, full, length-take m (drop p c), length-drop p c, ready.0) in
            let all : p + m ≡ q = omega (arith, ready.1) in
            rw e (
              tail_chunk-Found (tail_loop k fuel fd) bytes p q l _ s₀ _
                (rw (now, all) (Reading-move q r)) ready (ap (λ x. take x (drop p c)) size)
                (std.quiet_read fd bytes s ∙ quiet)
                (λ bytes' p' l' s' lt r' ready' quiet'.
                  tail_loop-Found fuel bytes' p' p l' s₀ s' r' ready' quiet' (omega arith)))
      ]

  -- With more fuel than the file has bytes, the search for the last `n` lines ends: the offset of the
  -- file is where they begin, or a call failed.
  pub tail_search-Found :
      {Q : k.State → Type 0} (fuel p : ℕ) (s : k.State)
      → Reading (law.view s) fd d i c p
      → length c < fuel
      → Ends F (λ _. Found s) Q (tail_search k fuel fd (pos n) s)
  unfolding tail_search
  tail_search-Found fuel p s r enough = elim (law.seeks fd d (pos 0) seek_end s r.has_desc) [
    | inl (e, now) ↦
        rw e (failed (blame.seeking fd d (pos 0) seek_end s r.has_desc (omega arith) e))
    | inr (le, e, now) ↦
        let s1 = (k.lseek fd (pos 0) seek_end s).1 in
        let size : length (file_of (law.view s) d) + 0 - 0 ≡ length c =
          ap (λ (x : List ℕ). length x + 0 - 0) (ap (law.view s).file r.has_inode ∙ r.has_file)
          ∙ omega arith in
        let r1 : Reading (law.view s1) fd d i c (length c) =
          rw (now, size) (Reading-move (length c) r) in
        rw (e, size)
          (seek_to (length c + 1 - buffer_size) (length c) s1
            (λ p'. tail_loop k fuel fd buffer_size p' (pos n)) r1
            λ s2 r2 quiet.
              Ends.mono
                (tail_loop-Found fuel buffer_size (length c + 1 - buffer_size) (length c) n s s2 r2
                  (
                    omega arith,
                    omega arith,
                    omega arith,
                    λ x. omega arith,
                    λ x. refl,
                    rw (drop_all (length c) c (omega arith)) (omega arith),
                  )
                  (quiet ∙ std.quiet_lseek fd (pos 0) seek_end s) enough)
                (λ _ t found. found))
  ]
