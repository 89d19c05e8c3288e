-- ===== src/Writes/Fill.antt =====
-- 13.2.c fills the beginning of its file with copies of its buffer.
use Prim.Native.String.{String}
use mathlib.Core.Bool.{false≢true}
use mathlib.Core.Path.{subst}
use textbooks.Base.{
  ℕ, zero, suc, ◌+◌, ◌-◌, ◌≡◌, ◌≤◌, ◌<◌, sym, ap, ◌∙◌, true, false, ◌==◌, some, List, [], ◌∷◌, ◌++◌,
  append_assoc, append-nil, arith, min, length, length-append, length-take, take, drop, Bool-cases,
  inl, inr, ltb,
}
use textbooks.Base.Ends
use textbooks.Base.Ends.{Ends, returned, succeeded, failed}
use textbooks.Posix.{Posix, View, IsPosix, Reasons, written}
use textbooks.Posix.Splice.{splice_front, take_all}
use textbooks.Writes.Defs.{create_only, write_loop, write_bytes}

-- `fd` is open on the file `i`, where `w` replaced the beginning of `c`.
pub record Filling (v : View) (fd d i : ℕ) (c w : List ℕ) : Type 0 where
  pub has_desc : v.desc fd ≡ some d
  pub has_inode : v.inode d ≡ i
  pub has_mode : v.append d ≡ false
  pub has_offset : v.offset d ≡ length w
  pub has_file : v.file i ≡ w ++ drop (length w) c

Filling-written :
    {v : View} {fd d i : ℕ} {c w : List ℕ} (bs : List ℕ)
    → Filling v fd d i c w
    → Filling (written v d bs) fd d i c (w ++ bs)
Filling-written {w} [] p = rw append-nil p
Filling-written {v} {d} {i} {c} {w} (b ∷ bs) p =
    let self : (i == v.inode d) ≡ true = ground (arith, p.has_inode) in
    let old : v.file (v.inode d) ≡ w ++ drop (length w) c = ap v.file p.has_inode ∙ p.has_file in
    record {
      has_desc = p.has_desc;
      has_inode = p.has_inode;
      has_mode = p.has_mode;
      has_offset = rw (p.has_mode, p.has_offset, length-append w (b ∷ bs)) (ground arith);
      has_file = rw (self, old, p.has_mode, p.has_offset) (splice_front w c (b ∷ bs));
    }

abbrev pub repeats : ℕ → List ℕ → List ℕ
repeats zero buf = []
repeats (suc q) buf = buf ++ repeats q buf

take-append :
    (n : ℕ) (xs ys : List ℕ)
    → take n (xs ++ ys) ≡ take (min (length xs) n) xs ++ take (n - min (length xs) n) ys
take-append n [] ys =
    let z : min 0 n ≡ 0 = omega arith in let z' : n - 0 ≡ n = omega arith in rw (z, z')
take-append zero (x ∷ xs) ys = let z : min (suc (length xs)) 0 ≡ 0 = omega arith in rw z
take-append (suc n) (x ∷ xs) ys =
    let m : min (suc (length xs)) (suc n) ≡ suc (min (length xs) n) = omega arith in
    let e : suc n - suc (min (length xs) n) ≡ n - min (length xs) n = omega arith in
    rw (m, e) (ap (λ (l : List ℕ). x ∷ l) (take-append n xs ys))

module _ (k : Posix) (law : IsPosix k) {F : Type 0} (blame : Reasons k law F) where
  write_loop-Filling :
      {Q : k.State → Type 0} (fuel : ℕ) (fd d i : ℕ) (c w buf : List ℕ)
      (num_bytes tot_written q : ℕ) (s : k.State)
      → 0 < length buf
      → Filling (law.view s) fd d i c w
      → num_bytes - tot_written < fuel
      → num_bytes - tot_written ≤ q
      → Ends F
          (λ _ s'.
            Filling (law.view s') fd d i c (w ++ take (num_bytes - tot_written) (repeats q buf)))
          Q
          (write_loop k fuel fd buf num_bytes tot_written s)
  unfolding write_loop
  write_loop-Filling zero fd d i c w buf num_bytes tot_written q s pos p enough within =
      absurd (omega arith)
  write_loop-Filling (suc fuel) fd d i c w buf num_bytes tot_written zero s pos p enough within =
      let done : ltb tot_written num_bytes ≡ false = ground arith in
      let z : num_bytes - tot_written ≡ 0 = omega arith in rw (done, z) (returned (rw append-nil p))
  write_loop-Filling (suc fuel) fd d i c w buf num_bytes tot_written (suc q) s pos p enough within =
      elim (Bool-cases (ltb tot_written num_bytes)) [
        | inl more ↦
            let n = num_bytes - tot_written in
            let m = min (length buf) n in
            let size : length (take m buf) ≡ m = omega (arith, length-take m buf) in
            rw more (elim (law.writes fd d (take m buf) s p.has_desc) [
              | inl (r, _) ↦ rw r (failed (blame.writing fd d (take m buf) s p.has_desc (λ e. cc)))
              | inr (m', r, le, now) ↦ rw r (elim (Bool-cases (m' == m)) [
                | inl full ↦
                    let left : num_bytes - (tot_written + m) ≡ n - m = omega arith in
                    let p' : Filling (law.view (k.write fd (take m buf) s).1) fd d i c
                        (w ++ take m buf) =
                      rw (now, take_all m' (take m buf) (ground (arith, size)))
                        (Filling-written (take m buf) p) in
                    let whole : (w ++ take m buf)
                          ++ take (num_bytes - (tot_written + m)) (repeats q buf)
                        ≡ w ++ take n (repeats (suc q) buf) =
                      rw left (
                        append_assoc w (take m buf) (take (n - m) (repeats q buf))
                        ∙ ap (λ l. w ++ l) (sym (take-append n buf (repeats q buf)))) in
                    rw full (
                      Ends.mono
                        (write_loop-Filling fuel fd d i c (w ++ take m buf) buf num_bytes
                          (tot_written + m) q _ pos p' (ground arith) (ground arith))
                        λ _ t. subst (Filling (law.view t) fd d i c) whole)
                | inr short ↦ rw short (
                    failed (
                      blame.writing fd d (take m buf) s p.has_desc
                        (λ e. false≢true (ground (arith, size)))))
              ])
            ])
        | inr done ↦
            let z : num_bytes - tot_written ≡ 0 = ground arith in
            rw (done, z) (returned (rw append-nil p))
      ]

  -- With fuel for the bytes and a buffer that is not empty, `write_bytes` on a file ends: it exits
  -- with status 0 and the file begins with `num_bytes` bytes, copies of the buffer, and goes on as
  -- before, or it exits with status 1, and then a call failed or a write fell short.
  pub write_bytes-repeats :
      (fuel : ℕ) (file : String) (num_bytes i : ℕ) (buf c : List ℕ) (s : k.State)
      → (law.view s).named file ≡ some i
      → (law.view s).file i ≡ c
      → 0 < length buf
      → num_bytes < fuel
      → Ends F
          (λ _ _. ⊥)
          (λ s'.
            let w = take num_bytes (repeats num_bytes buf) in
            (law.view s').file i ≡ w ++ drop (length w) c)
          (write_bytes k fuel file num_bytes buf s)
  unfolding write_bytes
  write_bytes-repeats fuel file num_bytes i buf c s n f pos enough =
      elim (law.opens file create_only s) [
        | inl (r, _) ↦ rw r (failed (blame.opening file create_only i s n r))
        | inr (fd, d, i', r, free, fresh, which, now) ↦
            let same : i ≡ i' = ground (arith, n, which) in
            let all : num_bytes ≡ num_bytes - 0 = omega arith in
            rw r (
              Ends.bind
                (write_loop-Filling fuel fd d i c [] buf num_bytes 0 num_bytes _ pos
                  (rw (now, ← same)
                    (record {
                      has_desc = ground arith;
                      has_inode = ground arith;
                      has_mode = ground arith;
                      has_offset = ground arith;
                      has_file = rw n f;
                    }))
                  (omega arith) (omega arith))
                λ _ t p. elim (Bool-cases (k.close fd t).0) [
                  | inl y ↦ rw y (
                      succeeded {s = (k.close fd t).1} (
                        rw (law.closes fd t) (
                          subst
                            (λ m.
                              (law.view t).file i
                              ≡ take m (repeats num_bytes buf)
                                ++ drop (length (take m (repeats num_bytes buf))) c)
                            (sym all) p.has_file)))
                  | inr y ↦ rw y (failed (blame.closing fd d t p.has_desc y))
                ])
      ]
