-- ===== src/Sparse/Theorems.antt =====
-- What a run of cp.c does, from its arguments to its end.
use Prim.Native.String.{String}
use mathlib.Core.Path.{subst}
use text.Mathlib.TextPositions.{eq_refl as str_refl}
use textbooks.Base.{
  ℕ, zero, suc, ◌+◌, ◌-◌, ◌≡◌, ◌≢◌, ◌≤◌, ◌<◌, ◌⊎◌, refl, sym, ap, ◌∙◌, true, Option, none, some,
  List, [], ◌∷◌, ◌++◌, arith, length, length-take, length-drop, take, drop, replicate, inl, inr,
  Cmd,
}
use textbooks.Base.Returns
use textbooks.Base.Returns.{Returns, returns}
use textbooks.Base.Ends
use textbooks.Base.Ends.{Ends, returned, failed}
use textbooks.Posix.{Posix, View, IsPosix, Reasons, opened, move, reads_at}
use textbooks.Posix.Opening.{names_differ}
use textbooks.Posix.Splice.{take-add, take_all}
use textbooks.Copy.{read_only}
use textbooks.Writes.{create_only}
use textbooks.Sparse.Defs.{batch_size, sparse_chunk, sparse_loop, sparse_files, sparse_main}
use textbooks.Sparse.Segments.{
  Half, Sparse, Half-read, Sparse-read, Written, write_segments-Written,
}

module _ (k : Posix) (law : IsPosix k) {F : Type 0} (blame : Reasons k law F)
    (names : String → Option ℕ) (sfd dfd ds dd i j : ℕ) (c : List ℕ) where
  abbrev Done : k.State → Type 0
  Done s = ((law.view s).named ≡ names) × (Sparse (law.view s) dd j c ⊎ F)

  abbrev Progress : ℕ → List ℕ → k.State → Type 0
  Progress = Written k law blame names sfd dfd ds dd i j c

  Written-read :
      (o n : ℕ) (w : List ℕ) (s s' : k.State)
      → Progress o w s
      → law.view s' ≡ move (law.view s) ds n
      → Progress n w s'
  Written-read o n w s s' p now = record {
    half = rw now (Half-read p.half n);
    sparse = elim p.sparse [ inl q ↦ inl (rw now (Sparse-read p.half w n q)) | inr f ↦ inr f ];
  }

  sparse_chunk-ended :
      (rest : Cmd k.State (Unit {0})) (s : k.State)
      → (law.view s).named ≡ names
      → F
      → Returns (λ _. Done) (sparse_chunk k rest dfd none s)
  unfolding sparse_chunk
  sparse_chunk-ended rest s e f = returns (e, inr f)

  sparse_chunk-Done :
      (rest : Cmd k.State (Unit {0})) (o m : ℕ) (bs : List ℕ) (s : k.State)
      → Progress (o + m) (take o c) s
      → bs ≡ take m (drop o c)
      → m ≤ batch_size
      → m ≤ length c - o
      → (o < length c → 0 < m)
      → o ≤ length c
      → ((s' : k.State)
          → 0 < m
          → Progress (o + m) (take (o + m) c) s'
          → Returns (λ _. Done) (rest s'))
      → Returns (λ _. Done) (sparse_chunk k rest dfd (some bs) s)
  unfolding sparse_chunk
  sparse_chunk-Done rest o m [] s p e small within more inside next =
      let none_read : m ≡ 0 =
        omega (arith, ap (λ (l : List ℕ). length l) e, length-take m (drop o c), length-drop o c) in
      let end : length c ≤ o = ground (arith, more) in
      returns
        (p.half.same_names, subst (λ l. Sparse (law.view s) dd j l ⊎ F) (take_all o c end) p.sparse)
  sparse_chunk-Done rest o m (b ∷ bs) s p e small within more inside next =
      let size = length-take m (drop o c) in
      let taken : length (b ∷ bs) ≡ m =
        ap (λ (l : List ℕ). length l) e ∙ omega (arith, size, length-drop o c) in
      Returns.bind
        (write_segments-Written k law blame names sfd dfd ds dd i j c batch_size (o + m) (take o c)
          (b ∷ bs) s (omega arith) p)
        λ _ s' q. next s' (omega arith) (
          subst (λ l. Progress (o + m) l s') (ap (λ (l : List ℕ). take o c ++ l) e ∙ take-add o m c)
            q)

  sparse_loop-Done :
      (rounds o : ℕ) (s : k.State)
      → Progress o (take o c) s
      → o ≤ length c
      → length c - o < rounds
      → Returns (λ _. Done) (sparse_loop k rounds sfd dfd s)
  unfolding sparse_loop
  sparse_loop-Done zero o s p inside enough = absurd (omega arith)
  sparse_loop-Done (suc rounds) o s p inside enough =
      elim (reads_at k law sfd batch_size ds s c o p.half.src_desc
        (ap (law.view s).file p.half.src_inode ∙ p.half.src_file) p.half.src_offset) [
          | inl (r, now) ↦ rw r (
              sparse_chunk-ended (sparse_loop k rounds sfd dfd) _ (rw now p.half.same_names)
                (blame.reading sfd batch_size ds s p.half.src_desc r))
          | inr (m, r, small, within, more, now) ↦ rw r (
              sparse_chunk-Done (sparse_loop k rounds sfd dfd) o m _ _
                (Written-read o (o + m) (take o c) s _ p now) refl small within (more (omega arith))
                inside
                (λ s' z p'. sparse_loop-Done rounds (o + m) s' p' (omega arith) (omega arith)))
        ]

-- Once both files are open, nothing is copied.
module _ (v : View) (old new : String) (i : ℕ) (c : List ℕ) (source : v.named old ≡ some i)
    (bytes : v.file i ≡ c) (differ : v.named new ≢ some i)
    (empty : (j : ℕ) → v.named new ≡ some j → v.file j ≡ []) (fd d : ℕ) where
  abbrev first : View
  first = opened v old read_only fd d i

  target_inode :
      (j : ℕ)
      → ((first.named new ≡ some j)
          ⊎ ((first.named new ≡ none)
              × (create_only.create ≡ true)
              × ((name : String) → first.named name ≢ some j)))
      → j ≢ i
  target_inode j (inl e) q = differ (ground (arith, e, names_differ v old new i source differ, q))
  target_inode j (inr (_, _, fresh)) q = fresh old (ground (arith, source, q))

  opened-Half :
      (fd' d' j : ℕ)
      → first.desc fd' ≡ none
      → ((other : ℕ) → first.desc other ≢ some d')
      → j ≢ i
      → let x = opened first new create_only fd' d' j in Half x x.named fd fd' d d' i j 0 c
  opened-Half fd' d' j free fresh ne =
      let nd : d ≢ d' = λ q. fresh fd (ground arith) in
      record {
        same_names = refl;
        src_desc = ground arith;
        dst_desc = ground arith;
        ne_desc = nd;
        src_inode = ground arith;
        dst_inode = ground arith;
        ne_inode = λ q. ne (sym q);
        src_file = ground (arith, names_differ v old new i source differ);
        src_offset = ground arith;
      }

  opened-Sparse :
      (fd' d' j : ℕ)
      → ((first.named new ≡ some j)
          ⊎ ((first.named new ≡ none)
              × (create_only.create ≡ true)
              × ((name : String) → first.named name ≢ some j)))
      → Sparse (opened first new create_only fd' d' j) d' j []
  opened-Sparse fd' d' j which =
      let nothing : (opened first new create_only fd' d' j).file j ≡ [] = elim which [
        | inl e ↦
            let same : v.named new ≡ some j =
              ground (arith, e, names_differ v old new i source differ) in
            rw e (ground (arith, source, empty j same))
        | inr (e, _, _) ↦ rw e (ground arith)
      ] in
      record { plain = ground arith; at_end = ground arith; padded = rw nothing }

-- The file behind the name holds `c`, but for null bytes at its end.
abbrev pub IsSparse : View → String → List ℕ → Type 0
IsSparse v name c = (j n : ℕ) × (v.named name ≡ some j) × (v.file j ++ replicate n 0 ≡ c)

module _ (k : Posix) (law : IsPosix k) {F : Type 0} (blame : Reasons k law F) where
  copied :
      (t : k.State) (names : String → Option ℕ) (input output j dd : ℕ) (c : List ℕ)
      → (law.view t).named ≡ names
      → {new : String} → names new ≡ some j
      → Sparse (law.view t) dd j c
      → IsSparse (law.view (k.close output (k.close input t).1).1) new c
  copied t names input output j dd c e {new} is_j p =
      rw (law.closes output (k.close input t).1, law.closes input t)
        (
          j,
          length c - length ((law.view t).file j),
          ap (λ (n : String → Option ℕ). n new) e ∙ is_j,
          p.padded,
        )

  -- With a round for each byte of the source, `sparse_main` called with the names of two different
  -- files, of which the second is empty or not there, ends. Either it returns, and the second file
  -- holds what the first held but for null bytes at the end, or a call failed or a write fell short.
  pub sparse_main-IsSparse :
      (rounds : ℕ) (program old new : String) (i : ℕ) (c : List ℕ) (s : k.State)
      → (law.view s).named old ≡ some i
      → (law.view s).file i ≡ c
      → (law.view s).named new ≢ some i
      → ((j : ℕ) → (law.view s).named new ≡ some j → (law.view s).file j ≡ [])
      → length c < rounds
      → Ends F
          (λ _ s'. IsSparse (law.view s') new c ⊎ F)
          (λ _. ⊥)
          (sparse_main k rounds (program ∷ (old ∷ (new ∷ []))) s)
  unfolding sparse_main sparse_files
  sparse_main-IsSparse rounds program old new i c s ni fi differ empty enough =
      elim (law.opens old read_only s) [
        | inl (r, _) ↦ rw r (failed (blame.opening old read_only i s ni r))
        | inr (fd, d, i', r, free, fresh, which, now) ↦
            let s1 = (k.open_file old read_only s).1 in
            let v = law.view s in
            let same : i ≡ i' = ground (arith, ni, which) in
            let now1 : law.view s1 ≡ first v old new i c ni fi differ empty fd d =
              now ∙ ap (λ n. opened v old read_only fd d n) (sym same) in
            rw r (elim (rw now1 at (law.opens new create_only s1)) [
              | inl (r', _) ↦ rw r' (failed (blame.creating new create_only s1 refl r'))
              | inr (fd', d', j, r', free', fresh', which', now') ↦ rw r' (
                  let s2 = (k.open_file new create_only s1).1 in
                  let x =
                    opened (first v old new i c ni fi differ empty fd d) new create_only fd' d' j in
                  let ne = target_inode v old new i c ni fi differ empty fd d j which' in
                  let half =
                    opened-Half v old new i c ni fi differ empty fd d fd' d' j free' fresh' ne in
                  let start : Written k law blame x.named fd fd' d d' i j c 0 [] s2 = record {
                    half = rw now' half;
                    sparse = inl (
                        rw now'
                          (opened-Sparse v old new i c ni fi differ empty fd d fd' d' j which'));
                  } in
                  Ends.bind
                    (Ends.ends (
                      sparse_loop-Done k law blame x.named fd fd' d d' i j c rounds 0 s2 start
                        (omega arith) (omega arith)))
                    λ _ t (names, q). returned (elim q [
                      | inl sparse ↦
                          inl (copied t x.named fd fd' j d' c (names) (rw (str_refl new)) sparse)
                      | inr f ↦ inr f
                    ]))
            ])
      ]
