-- ===== src/Copy/Loop.antt =====
-- The loop of 13.1.c copies what is left of the input, or the program fails.
use Prim.Native.String.{String}
use mathlib.Core.Bool.{false≢true}
use textbooks.Base.{
  ℕ, zero, suc, ◌+◌, ◌-◌, ◌≡◌, ◌≢◌, ◌≤◌, ◌<◌, refl, ap, ◌∙◌, ◌==◌, true, false, Option, none, some,
  List, [], ◌∷◌, ◌++◌, arith, length, take, drop, inl, inr, Bool-cases, length-take, length-drop,
  Cmd,
}
use textbooks.Base.Ends.{Ends, returned, failed}
use textbooks.Posix.{Posix, View, IsPosix, Reasons, move, reads_at, written, write_at}
use textbooks.Posix.Splice.{take-add, take_all, splice_end}
use textbooks.Copy.Defs.{copy_chunk, copy_loop}

-- `o` bytes of the file `c`, open as `input`, are in the file that is open as `output`.
pub record Copying (v : View) (names : String → Option ℕ) (input output ds dd i j : ℕ) (c : List ℕ)
    (o : ℕ) : Type 0 where
  pub same_names : v.named ≡ names
  pub in_desc : v.desc input ≡ some ds
  pub out_desc : v.desc output ≡ some dd
  pub ne_desc : ds ≢ dd
  pub in_inode : v.inode ds ≡ i
  pub out_inode : v.inode dd ≡ j
  pub ne_inode : i ≢ j
  pub in_file : v.file i ≡ c
  pub in_offset : v.offset ds ≡ o
  pub within : o ≤ length c
  pub out_file : v.file j ≡ take o c
  pub out_offset : v.offset dd ≡ o
  pub not_append : v.append dd ≡ false

module _ {v : View} {names : String → Option ℕ} {input output ds dd i j : ℕ} {c : List ℕ} {o : ℕ}
    (p : Copying v names input output ds dd i j c o) where
  -- A read that finds the end.
  pub Copying-move : Copying (move v ds o) names input output ds dd i j c o
  Copying-move = record {
    same_names = p.same_names;
    in_desc = p.in_desc;
    out_desc = p.out_desc;
    ne_desc = p.ne_desc;
    in_inode = p.in_inode;
    out_inode = p.out_inode;
    ne_inode = p.ne_inode;
    in_file = p.in_file;
    in_offset = ground arith;
    within = p.within;
    out_file = p.out_file;
    out_offset = ground (arith, p.out_offset, p.ne_desc);
    not_append = p.not_append;
  }

  -- A read of `m` bytes, and a write of them all.
  pub Copying-step :
      (m b : ℕ) (bs : List ℕ)
      → m ≤ length c - o
      → b ∷ bs ≡ take m (drop o c)
      → Copying (written (move v ds (o + m)) dd (b ∷ bs)) names input output ds dd i j c (o + m)
  Copying-step m b bs h e =
      let size : length (b ∷ bs) ≡ m =
        ap (λ (l : List ℕ). length l) e
        ∙ omega (arith, length-take m (drop o c), length-drop o c) in
      let other : (i == v.inode dd) ≡ false = ground (arith, p.ne_inode, p.out_inode) in
      let self : (j == v.inode dd) ≡ true = ground (arith, p.out_inode) in
      let old : v.file (v.inode dd) ≡ take o c = ap v.file p.out_inode ∙ p.out_file in
      let at : write_at (move v ds (o + m)) dd ≡ length (take o c) =
        ground (arith, p.not_append, p.out_offset, p.ne_desc, p.within, length-take o c) in
      record {
        same_names = p.same_names;
        in_desc = p.in_desc;
        out_desc = p.out_desc;
        ne_desc = p.ne_desc;
        in_inode = p.in_inode;
        out_inode = p.out_inode;
        ne_inode = p.ne_inode;
        in_file = rw other p.in_file;
        in_offset = ground (arith, p.ne_desc);
        within = omega (arith, p.within);
        out_file =
            rw (self, at, old)
              (splice_end (take o c) (b ∷ bs) ∙ ap (λ l. take o c ++ l) e ∙ take-add o m c);
        out_offset = ground (arith, p.not_append, p.out_offset, p.ne_desc);
        not_append = p.not_append;
      }

module _ (k : Posix) (law : IsPosix k) {F : Type 0} (blame : Reasons k law F) (buf_size : ℕ)
    (pos_size : 0 < buf_size) where
  abbrev view : k.State → View
  view = law.view

  abbrev Copied :
      (names : String → Option ℕ) (input output ds dd i j : ℕ) (c : List ℕ) → k.State → Type 0
  Copied names input output ds dd i j c s =
      Copying (view s) names input output ds dd i j c (length c)

  copy_chunk-failed :
      {P : Unit {0} → k.State → Type 0} {Q : k.State → Type 0} (rest : Cmd k.State (Unit {0}))
      (output : ℕ) (s : k.State)
      → F
      → Ends F P Q (copy_chunk k buf_size rest output none s)
  unfolding copy_chunk
  copy_chunk-failed rest output s f = failed f

  copy_chunk-Copied :
      {Q : k.State → Type 0} (rest : Cmd k.State (Unit {0})) (names : String → Option ℕ)
      (input output ds dd i j : ℕ) (c : List ℕ) (o m : ℕ) (v : View) (bs : List ℕ) (s : k.State)
      → Copying v names input output ds dd i j c o
      → bs ≡ take m (drop o c)
      → m ≤ length c - o
      → (o < length c → 0 < m)
      → view s ≡ move v ds (o + m)
      → ((s' : k.State)
          → 0 < m
          → Copying (view s') names input output ds dd i j c (o + m)
          → Ends F (λ _. Copied names input output ds dd i j c) Q (rest s'))
      → Ends F
          (λ _. Copied names input output ds dd i j c)
          Q
          (copy_chunk k buf_size rest output (some bs) s)
  unfolding copy_chunk
  copy_chunk-Copied rest names input output ds dd i j c o m v [] s p e h more now next =
      let none_read : m ≡ 0 =
        omega (arith, ap (λ (l : List ℕ). length l) e, length-take m (drop o c), length-drop o c) in
      let end : o ≡ length c = ground (arith, p.within, more) in
      let stay : o + m ≡ o = omega arith in returned (rw now (rw (stay, ← end) (Copying-move p)))
  copy_chunk-Copied rest names input output ds dd i j c o m v (b ∷ bs) s p e h more now next =
      elim (law.writes output dd (b ∷ bs) s (rw now p.out_desc)) [
        | inl (r, _) ↦
            rw r (failed (blame.writing output dd (b ∷ bs) s (rw now p.out_desc) (λ q. cc)))
        | inr (n, r, le, then_) ↦ rw r (elim (Bool-cases (n == length (b ∷ bs))) [
          | inl full ↦ rw full (
              next _ (omega (arith, ap (λ (l : List ℕ). length l) e, length-take m (drop o c)))
                (rw (then_, now, take_all n (b ∷ bs) (ground arith)) (Copying-step p m b bs h e)))
          | inr short ↦ rw short (
              failed (
                blame.writing output dd (b ∷ bs) s (rw now p.out_desc)
                  (λ q. false≢true (ground arith))))
        ])
      ]

  -- With fuel for the bytes that are left, the loop ends; if it returns, the copy is whole.
  pub copy_loop-Copying :
      {Q : k.State → Type 0} (fuel : ℕ) (names : String → Option ℕ) (input output ds dd i j : ℕ)
      (c : List ℕ) (o : ℕ) (s : k.State)
      → Copying (view s) names input output ds dd i j c o
      → length c - o < fuel
      → Ends F
          (λ _ s'. Copying (view s') names input output ds dd i j c (length c))
          Q
          (copy_loop k buf_size fuel input output s)
  unfolding copy_loop
  copy_loop-Copying zero names input output ds dd i j c o s p f = absurd (omega arith)
  copy_loop-Copying (suc fuel) names input output ds dd i j c o s p f =
      elim (reads_at k law input buf_size ds s c o p.in_desc
        (ap (view s).file p.in_inode ∙ p.in_file) p.in_offset) [
          | inl (r, v) ↦
              rw r (copy_chunk-failed _ output _ (blame.reading input buf_size ds s p.in_desc r))
          | inr (m, r, small, within, more, v) ↦ rw r (
              copy_chunk-Copied (copy_loop k buf_size fuel input output) names input output ds dd i
                j c o m (view s) _ _ p refl within (more pos_size) v
                (λ s' z p'.
                  copy_loop-Copying fuel names input output ds dd i j c (o + m) s' p'
                    (omega arith)))
        ]
