-- ===== src/Ccp/Chunks.antt =====
-- The loop of ccp.c: it copies what it reads, or a write fell short before.
use Prim.Native.String.{String}
use mathlib.Core.Path.{subst}
use mathlib.Core.Bool.{false≢true}
use textbooks.Base.{
  ℕ, zero, suc, ◌+◌, ◌-◌, ◌≡◌, ◌≢◌, ◌≤◌, ◌<◌, ◌⊎◌, refl, ap, ◌∙◌, true, false, ◌==◌, Option, none,
  some, List, [], ◌∷◌, ◌++◌, arith, length, append-nil, length-append, length-take, length-drop,
  take, drop, inl, inr, Cmd, Bool-cases,
}
use textbooks.Base.Ends.{Ends, returned, failed}
use textbooks.Posix.{Posix, View, IsPosix, Reasons, move, written, write_at, reads_at}
use textbooks.Posix.Splice.{take-add, take_all, splice_end}
use textbooks.Sparse.Segments.{Half, Half-read, Half-written}
use textbooks.Copy.{ccp_chunk, ccp_loop}

-- The file `j` is `w`, and the offset is at its end.
pub record Exact (v : View) (dd j : ℕ) (w : List ℕ) : Type 0 where
  pub plain : v.append dd ≡ false
  pub at_end : v.offset dd ≡ length w
  pub holds : v.file j ≡ w

Exact-written :
    {v : View} {dd j : ℕ} (w bs : List ℕ)
    → v.inode dd ≡ j
    → Exact v dd j w
    → Exact (written v dd bs) dd j (w ++ bs)
Exact-written w [] e q = rw append-nil q
Exact-written {v} {dd} {j} w (b ∷ bs) e q =
    let self : (j == v.inode dd) ≡ true = ground (arith, e) in
    let old : v.file (v.inode dd) ≡ w = ap v.file e ∙ q.holds in
    let at : write_at v dd ≡ length w = rw q.plain q.at_end in
    record {
      plain = q.plain;
      at_end = rw (q.plain, q.at_end, length-append w (b ∷ bs)) (ground arith);
      holds = rw (self, at, old) (splice_end w (b ∷ bs));
    }

Exact-read :
    {v : View} {ds dd j : ℕ} (w : List ℕ) (n : ℕ)
    → ds ≢ dd
    → Exact v dd j w
    → Exact (move v ds n) dd j w
Exact-read w n ne q = record {
  plain = q.plain;
  at_end = ground (arith, q.at_end, ne);
  holds = q.holds;
}

module _ (k : Posix) (law : IsPosix k) {F : Type 0} (blame : Reasons k law F) (buf_size : ℕ)
    (pos_size : 0 < buf_size) where
  -- With no destination, a write fails.
  pub ccp_nowhere :
      {Q : k.State → Type 0} (fuel source : ℕ) (s : k.State)
      → F
      → Ends F (λ _ _. Unit {0}) Q (ccp_loop k buf_size (suc fuel) source none s)
  unfolding ccp_loop ccp_chunk
  ccp_nowhere {Q} fuel source s f =
      elim (k.read source buf_size s).0
        as (λ r.
          Ends F (λ _ _. Unit {0}) Q
            (ccp_chunk k buf_size (ccp_loop k buf_size fuel source none) none r
              (k.read source buf_size s).1)) [
                | none ↦ failed f
                | some [] ↦ returned tt
                | some (b ∷ bs) ↦ failed f
              ]

  module _ (names : String → Option ℕ) (source dest ds dd i j : ℕ) (c : List ℕ) where
    -- `w` was copied, or a write fell short.
    pub record Fed (o : ℕ) (w : List ℕ) (s : k.State) : Type 0 where
      pub half : Half (law.view s) names source dest ds dd i j o c
      pub exact : Exact (law.view s) dd j w ⊎ F

    Fed-read :
        (o n : ℕ) (w : List ℕ) (s s' : k.State)
        → Fed o w s
        → law.view s' ≡ move (law.view s) ds n
        → Fed n w s'
    Fed-read o n w s s' p now = record {
      half = rw now (Half-read p.half n);
      exact = elim p.exact [
        | inl q ↦ inl (rw now (Exact-read w n p.half.ne_desc q))
        | inr f ↦ inr f
      ];
    }

    Fed-written :
        (o m : ℕ) (w bs : List ℕ) (s : k.State)
        → Fed o w s
        → (k.write dest bs s).0 ≡ some m
        → law.view (k.write dest bs s).1 ≡ written (law.view s) dd (take m bs)
        → Fed o (w ++ bs) (k.write dest bs s).1
    Fed-written o m w bs s p r now = record {
      half = rw now (Half-written p.half (take m bs));
      exact = elim (Bool-cases (m == length bs)) [
        | inl full ↦ elim p.exact [
          | inl q ↦
              inl (rw (now, take_all m bs (ground arith)) (Exact-written w bs p.half.dst_inode q))
          | inr f ↦ inr f
        ]
        | inr short ↦
            inr (blame.writing dest dd bs s p.half.dst_desc (λ q. false≢true (ground arith)))
      ];
    }

    ccp_chunk-failed :
        {P : Unit {0} → k.State → Type 0} {Q : k.State → Type 0} (rest : Cmd k.State (Unit {0}))
        (s : k.State)
        → F
        → Ends F P Q (ccp_chunk k buf_size rest (some dest) none s)
    unfolding ccp_chunk
    ccp_chunk-failed rest s f = failed f

    ccp_chunk-Fed :
        {Q : k.State → Type 0} (rest : Cmd k.State (Unit {0})) (o m : ℕ) (bs : List ℕ) (s : k.State)
        → Fed (o + m) (take o c) s
        → bs ≡ take m (drop o c)
        → m ≤ length c - o
        → (o < length c → 0 < m)
        → ((s' : k.State)
            → 0 < m
            → Fed (o + m) (take (o + m) c) s'
            → Ends F (λ _ s'. (e : ℕ) × Fed e c s') Q (rest s'))
        → Ends F
            (λ _ s'. (e : ℕ) × Fed e c s')
            Q
            (ccp_chunk k buf_size rest (some dest) (some bs) s)
    unfolding ccp_chunk
    ccp_chunk-Fed rest o m [] s p e within more next =
        let none_read : m ≡ 0 =
          omega
            (arith, ap (λ (l : List ℕ). length l) e, length-take m (drop o c), length-drop o c) in
        let end : length c ≤ o = ground (arith, more) in
        returned (o + m, subst (λ l. Fed (o + m) l s) (take_all o c end) p)
    ccp_chunk-Fed rest o m (b ∷ bs) s p e within more next =
        elim (law.writes dest dd (b ∷ bs) s p.half.dst_desc) [
          | inl (r, now) ↦
              rw r (failed (blame.writing dest dd (b ∷ bs) s p.half.dst_desc (λ q. cc)))
          | inr (m', r, le, now) ↦
              let some_read : 0 < m =
                omega (arith, ap (λ (l : List ℕ). length l) e, length-take m (drop o c)) in
              rw r (
                next _ some_read (
                  subst (λ l. Fed (o + m) l (k.write dest (b ∷ bs) s).1)
                    (ap (λ (l : List ℕ). take o c ++ l) e ∙ take-add o m c)
                    (Fed-written (o + m) m' (take o c) (b ∷ bs) s p r now)))
        ]

    pub ccp_loop-Fed :
        {Q : k.State → Type 0} (fuel o : ℕ) (s : k.State)
        → Fed o (take o c) s
        → o ≤ length c
        → length c - o < fuel
        → Ends F (λ _ s'. (e : ℕ) × Fed e c s') Q (ccp_loop k buf_size fuel source (some dest) s)
    unfolding ccp_loop
    ccp_loop-Fed zero o s p inside enough = absurd (omega arith)
    ccp_loop-Fed (suc fuel) o s p inside enough =
        elim (reads_at k law source buf_size ds s c o p.half.src_desc
          (ap (law.view s).file p.half.src_inode ∙ p.half.src_file) p.half.src_offset) [
            | inl (r, now) ↦
                rw r (ccp_chunk-failed _ _ (blame.reading source buf_size ds s p.half.src_desc r))
            | inr (m, r, small, within, more, now) ↦ rw r (
                ccp_chunk-Fed (ccp_loop k buf_size fuel source (some dest)) o m _ _
                  (Fed-read o (o + m) (take o c) s _ p now) refl within (more pos_size)
                  (λ s' z p'. ccp_loop-Fed fuel (o + m) s' p' (omega arith) (omega arith)))
          ]
