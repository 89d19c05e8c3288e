-- ===== src/Sparse/Segments.antt =====
-- What the inner loop of cp.c writes: the file and the null bytes that a seek stands for.
use Prim.Native.String.{String}
use mathlib.Core.Path.{subst}
use mathlib.Core.Bool.{false≢true}
use textbooks.Base.{
  ℕ, zero, suc, ◌+◌, ◌-◌, ◌≡◌, ◌≢◌, ◌≤◌, ◌<◌, ◌⊎◌, refl, sym, ap, ◌∙◌, true, false, ◌==◌, Option,
  some, List, [], ◌∷◌, ◌++◌, append_assoc, append-nil, arith, length, length-append,
  length-replicate, length-drop, replicate, take, drop, take-append-drop, inl, inr, Bool-cases,
}
use textbooks.Base.Returns
use textbooks.Base.Returns.{Returns, returns}
use textbooks.Base.Int.{pos}
use textbooks.Posix.{Posix, View, IsPosix, Reasons, seek_cur, move, written, write_at, splice}
use textbooks.Posix.Splice.{splice_past, take_all}
use textbooks.Sparse.Defs.{text_length, null_length, report, write_segments}

-- `sfd` is open on the file `i` at `o`, and `dfd` on another file `j`.
pub record Half (v : View) (names : String → Option ℕ) (sfd dfd ds dd i j o : ℕ) (c : List ℕ)
    : Type 0 where
  pub same_names : v.named ≡ names
  pub src_desc : v.desc sfd ≡ some ds
  pub dst_desc : v.desc dfd ≡ some dd
  pub ne_desc : ds ≢ dd
  pub src_inode : v.inode ds ≡ i
  pub dst_inode : v.inode dd ≡ j
  pub ne_inode : i ≢ j
  pub src_file : v.file i ≡ c
  pub src_offset : v.offset ds ≡ o

-- The file `j` is `w` without null bytes at the end, and the offset is behind `w`.
pub record Sparse (v : View) (dd j : ℕ) (w : List ℕ) : Type 0 where
  pub plain : v.append dd ≡ false
  pub at_end : v.offset dd ≡ length w
  pub padded : v.file j ++ replicate (length w - length (v.file j)) 0 ≡ w

replicate-add : (a b : ℕ) → replicate {A = ℕ} (a + b) 0 ≡ replicate a 0 ++ replicate b 0
replicate-add zero b = let z : 0 + b ≡ b = omega arith in rw z
replicate-add (suc a) b =
    let s : suc a + b ≡ suc (a + b) = omega arith in
    rw s (ap (λ (l : List ℕ). 0 ∷ l) (replicate-add a b))

module _ {v : View} {names : String → Option ℕ} {sfd dfd ds dd i j o : ℕ} {c : List ℕ}
    (p : Half v names sfd dfd ds dd i j o c) where
  Half-move : (n : ℕ) → Half (move v dd n) names sfd dfd ds dd i j o c
  Half-move n = record {
    same_names = p.same_names;
    src_desc = p.src_desc;
    dst_desc = p.dst_desc;
    ne_desc = p.ne_desc;
    src_inode = p.src_inode;
    dst_inode = p.dst_inode;
    ne_inode = p.ne_inode;
    src_file = p.src_file;
    src_offset = ground (arith, p.src_offset, p.ne_desc);
  }

  pub Half-written : (bs : List ℕ) → Half (written v dd bs) names sfd dfd ds dd i j o c
  Half-written [] = p
  Half-written (b ∷ bs) =
      let other : (i == v.inode dd) ≡ false = ground (arith, p.ne_inode, p.dst_inode) in
      record {
        same_names = p.same_names;
        src_desc = p.src_desc;
        dst_desc = p.dst_desc;
        ne_desc = p.ne_desc;
        src_inode = p.src_inode;
        dst_inode = p.dst_inode;
        ne_inode = p.ne_inode;
        src_file = rw other p.src_file;
        src_offset = ground (arith, p.src_offset, p.ne_desc);
      }

  shorter : (w : List ℕ) → Sparse v dd j w → length (v.file j) ≤ length w
  shorter w q =
      let sizes = ap (λ (l : List ℕ). length l) q.padded in
      omega (arith, sizes, length-append (v.file j) (replicate (length w - length (v.file j)) 0))

  -- A write of bytes at the offset.
  Sparse-written : (w bs : List ℕ) → Sparse v dd j w → Sparse (written v dd bs) dd j (w ++ bs)
  Sparse-written w [] q = rw append-nil q
  Sparse-written w (b ∷ bs) q =
      let self : (j == v.inode dd) ≡ true = ground (arith, p.dst_inode) in
      let pad = length w - length (v.file j) in
      let here : length w ≡ length (v.file j) + pad = omega (arith, shorter w q) in
      let new : splice (v.file j) (length w) (b ∷ bs) ≡ w ++ (b ∷ bs) =
        ap (λ n. splice (v.file j) n (b ∷ bs)) here
        ∙ splice_past (v.file j) pad b bs
        ∙ ap (λ (l : List ℕ). l ++ (b ∷ bs)) q.padded in
      let old : v.file (v.inode dd) ≡ v.file j = ap v.file p.dst_inode in
      let at : write_at v dd ≡ length w = rw q.plain q.at_end in
      let none_missing : length (w ++ (b ∷ bs)) - length (w ++ (b ∷ bs)) ≡ 0 = omega arith in
      record {
        plain = q.plain;
        at_end = rw (q.plain, q.at_end, length-append w (b ∷ bs)) (ground arith);
        padded = rw (self, at, old, new, none_missing) (append-nil (w ++ (b ∷ bs)));
      }

  -- A seek over null bytes.
  Sparse-move :
      (w : List ℕ) (z n : ℕ)
      → Sparse v dd j w
      → n ≡ length w + z
      → Sparse (move v dd n) dd j (w ++ replicate z 0)
  Sparse-move w z n q e =
      let pad = length w - length (v.file j) in
      let size : length (w ++ replicate z 0) ≡ length w + z =
        omega (arith, length-append w (replicate {A = ℕ} z 0), length-replicate {A = ℕ} z 0) in
      let more : length w + z - length (v.file j) ≡ pad + z = omega (arith, shorter w q) in
      record {
        plain = q.plain;
        at_end = rw size (ground (arith, e));
        padded =
            rw (size, more)
              (ap (λ (l : List ℕ). v.file j ++ l) (replicate-add pad z)
                ∙ sym (append_assoc (v.file j) (replicate pad 0) (replicate z 0))
                ∙ ap (λ (l : List ℕ). l ++ replicate z 0) q.padded);
      }

module _ {v : View} {names : String → Option ℕ} {sfd dfd ds dd i j o : ℕ} {c : List ℕ}
    (p : Half v names sfd dfd ds dd i j o c) where
  -- A read moves the offset of the source.
  pub Half-read : (n : ℕ) → Half (move v ds n) names sfd dfd ds dd i j n c
  Half-read n = record {
    same_names = p.same_names;
    src_desc = p.src_desc;
    dst_desc = p.dst_desc;
    ne_desc = p.ne_desc;
    src_inode = p.src_inode;
    dst_inode = p.dst_inode;
    ne_inode = p.ne_inode;
    src_file = p.src_file;
    src_offset = ground arith;
  }

  pub Sparse-read : (w : List ℕ) (n : ℕ) → Sparse v dd j w → Sparse (move v ds n) dd j w
  Sparse-read w n q = record {
    plain = q.plain;
    at_end = ground (arith, q.at_end, p.ne_desc);
    padded = q.padded;
  }

text_length-le : (bs : List ℕ) → text_length bs ≤ length bs
text_length-le [] = omega arith
text_length-le (zero ∷ bs) = omega arith
text_length-le (suc b ∷ bs) = omega (arith, text_length-le bs)

null_length-le : (bs : List ℕ) → null_length bs ≤ length bs
null_length-le [] = omega arith
null_length-le (zero ∷ bs) = omega (arith, null_length-le bs)
null_length-le (suc b ∷ bs) = omega arith

-- The bytes that the seek stands for are null.
null-replicate : (bs : List ℕ) → replicate (null_length bs) 0 ++ drop (null_length bs) bs ≡ bs
null-replicate [] = refl
null-replicate (zero ∷ bs) =
    let s : null_length bs + 1 ≡ suc (null_length bs) = omega arith in
    rw s (ap (λ (l : List ℕ). 0 ∷ l) (null-replicate bs))
null-replicate (suc b ∷ bs) = refl

-- Each round takes a byte.
round-pos :
    (b : ℕ) (bs : List ℕ)
    → 0 < text_length (b ∷ bs) + null_length (drop (text_length (b ∷ bs)) (b ∷ bs))
round-pos zero bs = omega arith
round-pos (suc b) bs = omega arith

module _ (k : Posix) (law : IsPosix k) {F : Type 0} (blame : Reasons k law F)
    (names : String → Option ℕ) (sfd dfd ds dd i j : ℕ) (c : List ℕ) where
  -- The file is a sparse copy of `w`, or a call failed or fell short before.
  pub record Written (o : ℕ) (w : List ℕ) (s : k.State) : Type 0 where
    pub half : Half (law.view s) names sfd dfd ds dd i j o c
    pub sparse : Sparse (law.view s) dd j w ⊎ F

  write_text :
      (o : ℕ) (w bs : List ℕ) (s : k.State)
      → Written o w s
      → Returns
          (λ _ s'. Written o (w ++ bs) s')
          (report k (k.write dfd bs s).0 (k.write dfd bs s).1)
  write_text o w bs s p = elim (law.writes dfd dd bs s p.half.dst_desc) [
    | inl (r, now) ↦ rw r (
        returns {s = k.err_msg (k.write dfd bs s).1} (record {
          half = rw (law.says (k.write dfd bs s).1, now) p.half;
          sparse = inr (blame.writing dfd dd bs s p.half.dst_desc (λ q. cc));
        }))
    | inr (n, r, le, now) ↦ rw r (
        returns {s = (k.write dfd bs s).1} (record {
          half = rw now (Half-written p.half (take n bs));
          sparse = elim (Bool-cases (n == length bs)) [
            | inl full ↦ elim p.sparse [
              | inl q ↦ inl (rw (now, take_all n bs (ground arith)) (Sparse-written p.half w bs q))
              | inr f ↦ inr f
            ]
            | inr short ↦
                inr (blame.writing dfd dd bs s p.half.dst_desc (λ q. false≢true (ground arith)))
          ];
        }))
  ]

  seek_null :
      (o : ℕ) (w : List ℕ) (z : ℕ) (s : k.State)
      → Written o w s
      → Returns
          (λ _ s'. Written o (w ++ replicate z 0) s')
          (report k (k.lseek dfd (pos z) seek_cur s).0 (k.lseek dfd (pos z) seek_cur s).1)
  seek_null o w z s p = elim (law.seeks dfd dd (pos z) seek_cur s p.half.dst_desc) [
    | inl (r, now) ↦ rw r (
        returns {s = k.err_msg (k.lseek dfd (pos z) seek_cur s).1} (record {
          half = rw (law.says (k.lseek dfd (pos z) seek_cur s).1, now) p.half;
          sparse = inr (blame.seeking dfd dd (pos z) seek_cur s p.half.dst_desc (omega arith) r);
        }))
    | inr (le, r, now) ↦ rw r (
        returns {s = (k.lseek dfd (pos z) seek_cur s).1} (record {
          half = rw now (Half-move p.half _);
          sparse = elim p.sparse [
            | inl q ↦ inl (rw now (Sparse-move p.half w z _ q (omega (arith, q.at_end))))
            | inr f ↦ inr f
          ];
        }))
  ]

  pub write_segments-Written :
      (fuel o : ℕ) (w bs : List ℕ) (s : k.State)
      → length bs ≤ fuel
      → Written o w s
      → Returns (λ _ s'. Written o (w ++ bs) s') (write_segments k fuel dfd bs s)
  unfolding write_segments
  write_segments-Written fuel o w [] s enough p = returns (rw append-nil p)
  write_segments-Written zero o w (b ∷ bs) s enough p = absurd (omega arith)
  write_segments-Written (suc fuel) o w (b ∷ bs) s enough p =
      let n = text_length (b ∷ bs) in
      let rest = drop n (b ∷ bs) in
      let z = null_length rest in
      let left : length (drop z rest) ≤ fuel =
        omega (arith, round-pos b bs, length-drop z rest, length-drop n (b ∷ bs)) in
      let whole : ((w ++ take n (b ∷ bs)) ++ replicate z 0) ++ drop z rest ≡ w ++ (b ∷ bs) =
        append_assoc (w ++ take n (b ∷ bs)) (replicate z 0) (drop z rest)
        ∙ ap (λ (l : List ℕ). (w ++ take n (b ∷ bs)) ++ l) (null-replicate rest)
        ∙ append_assoc w (take n (b ∷ bs)) rest
        ∙ ap (λ (l : List ℕ). w ++ l) (take-append-drop n (b ∷ bs)) in
      Returns.bind (write_text o w (take n (b ∷ bs)) s p) λ _ s1 p1.
        Returns.bind (seek_null o (w ++ take n (b ∷ bs)) z s1 p1) λ _ s2 p2.
          Returns.mono (write_segments-Written fuel o _ (drop z rest) s2 left p2)
            λ _ s3. subst (λ l. Written o l s3) whole
