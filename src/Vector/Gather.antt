-- ===== src/Vector/Gather.antt =====
-- What writev writes, where readv puts what it read, and the size of the buffer between.
use textbooks.Base.{
  ℕ, zero, suc, ◌+◌, ◌-◌, ◌*◌, ◌≡◌, ◌≤◌, ◌<◌, refl, sym, ap, ◌∙◌, true, false, ◌||◌, ◌==◌, none,
  some, List, [], ◌∷◌, ◌++◌, append_assoc, append-nil, if◌then◌else◌, arith, ltb, leb, min, length,
  length-append, length-take, length-drop, take, drop, take-append-drop, Bool-cases, Option-cases,
  inl, inr, ok, fault, int_max,
}
use mathlib.Core.Bool.{false≢true}
use textbooks.Base.Returns.{Returns, returns}
use textbooks.Base.Ends.{Ends, returned, failed}
use textbooks.Posix.{Posix, IsPosix, Reasons, call, splice, written}
use textbooks.Posix.Splice.{take_front, take_nil, take_all}
use textbooks.Vector.Defs.{Iostrt, total_size, gather, scatter, writev, readv, write_to_file}

-- The bytes of the buffers one behind the other.
abbrev pub gathered : List Iostrt → List ℕ
gathered [] = []
gathered (b ∷ buffer) = take b.nbytes b.iop ++ gathered buffer

-- The first entries that `bs` reaches, filled with it.
abbrev pub filled : List ℕ → List Iostrt → List Iostrt
filled bs [] = []
filled bs (b ∷ buffer) =
    record b { iop = splice b.iop 0 (take b.nbytes bs) } ∷ filled (drop b.nbytes bs) buffer

-- Each entry has bytes, and as much memory as it says.
abbrev pub Wide : List Iostrt → Type 0
Wide [] = Unit
Wide (b ∷ buffer) = (b.nbytes ≤ length b.iop) × (0 < b.nbytes) × Wide buffer

pub total_size-length : (buffer : List Iostrt) → total_size buffer ≡ 8 * length buffer
total_size-length [] = refl
total_size-length (b ∷ buffer) = omega (arith, total_size-length buffer)

gather-gathered :
    {S : Type 0} (size : ℕ) (raw : List ℕ) (buffer : List Iostrt) (s : S)
    → Wide buffer
    → size ≤ int_max
    → length raw ≤ size
    → gather size raw buffer s ≡ (
        if leb (length raw + length (gathered buffer)) size
        then ok (raw ++ gathered buffer) s
        else fault)
unfolding gather
gather-gathered size raw [] s w small fits =
    let within : leb (length raw + 0) size ≡ true = ground arith in rw (within, append-nil raw)
gather-gathered size raw (b ∷ buffer) s (has, pos, w) small fits =
    let taken : length (take b.nbytes b.iop) ≡ b.nbytes =
      omega (arith, length-take b.nbytes b.iop) in
    let now : length (raw ++ take b.nbytes b.iop) ≡ length raw + b.nbytes =
      length-append raw (take b.nbytes b.iop) ∙ ap (λ n. length raw + n) taken in
    let whole : length (take b.nbytes b.iop ++ gathered buffer)
        ≡ b.nbytes + length (gathered buffer) =
      length-append (take b.nbytes b.iop) (gathered buffer)
      ∙ ap (λ n. n + length (gathered buffer)) taken in
    elim (Bool-cases (ltb size (length raw + b.nbytes))) [
      | inl over ↦
          let beyond : leb (length raw + (b.nbytes + length (gathered buffer))) size ≡ false =
            ground arith in
          let guard : (ltb (length b.iop) b.nbytes
                || ltb size (length raw + b.nbytes)
                || ltb int_max (length raw + b.nbytes))
              ≡ true =
            ground arith in
          rw (guard, whole, beyond)
      | inr under ↦
          let guard : (ltb (length b.iop) b.nbytes
                || ltb size (length raw + b.nbytes)
                || ltb int_max (length raw + b.nbytes))
              ≡ false =
            ground arith in
          let sum : length raw + b.nbytes + length (gathered buffer)
              ≡ length raw + (b.nbytes + length (gathered buffer)) =
            omega arith in
          rw (
            guard,
            whole,
            gather-gathered size (raw ++ take b.nbytes b.iop) buffer s w small (ground arith),
            now,
            sum,
            append_assoc raw (take b.nbytes b.iop) (gathered buffer),
          )
    ]

-- `writev` of buffers that have bytes writes them one behind the other with one call, where they are
-- at most 8 bytes for each buffer; otherwise it overruns its own buffer.
pub writev-gathered :
    (k : Posix) (fd : ℕ) (buffer : List Iostrt) (s : k.State)
    → Wide buffer
    → 8 * length buffer ≤ int_max
    → writev k fd buffer s ≡ (
        if leb (length (gathered buffer)) (8 * length buffer)
        then call (k.write fd (gathered buffer)) s
        else fault)
unfolding writev
writev-gathered k fd buffer s w small =
    rw
      (
        gather-gathered (total_size buffer) [] buffer s w (omega (arith, total_size-length buffer))
            (omega arith),
        total_size-length buffer,
      )
      (let n = length (gathered buffer) in
        let start : 0 + n ≡ n = omega arith in
        rw start (elim (Bool-cases (leb n (8 * length buffer))) [ inl y ↦ rw y | inr y ↦ rw y ]))

drop-nil : (n : ℕ) → drop {A = ℕ} n [] ≡ []
drop-nil zero = refl
drop-nil (suc n) = refl

take-min : (n : ℕ) (xs : List ℕ) → take (min n (length xs)) xs ≡ take n xs
take-min zero xs = let z : min 0 (length xs) ≡ 0 = omega arith in rw z
take-min (suc n) [] = let z : min (suc n) 0 ≡ 0 = omega arith in rw z
take-min (suc n) (x ∷ xs) =
    let m : min (suc n) (suc (length xs)) ≡ suc (min n (length xs)) = omega arith in
    rw m (ap (λ (l : List ℕ). x ∷ l) (take-min n xs))

drop-min : (n : ℕ) (xs : List ℕ) → drop (min n (length xs)) xs ≡ drop n xs
drop-min zero xs = let z : min 0 (length xs) ≡ 0 = omega arith in rw z
drop-min (suc n) [] = let z : min (suc n) 0 ≡ 0 = omega arith in rw z
drop-min (suc n) (x ∷ xs) =
    let m : min (suc n) (suc (length xs)) ≡ suc (min n (length xs)) = omega arith in
    rw m (drop-min n xs)

filled-nil : (buffer : List Iostrt) → filled [] buffer ≡ buffer
filled-nil [] = refl
filled-nil (b ∷ buffer) = rw (take_nil b.nbytes, drop-nil b.nbytes, filled-nil buffer)

scatter-filled :
    {S : Type 0} (bs : List ℕ) (buffer : List Iostrt) (s : S)
    → Wide buffer
    → scatter bs (length bs) buffer s ≡ ok (filled bs buffer) s
unfolding scatter
scatter-filled bs [] s w = refl
scatter-filled [] (b ∷ buffer) s (has, pos, w) =
    let none_left : (min b.nbytes 0 == 0) ≡ true = ground arith in
    rw (none_left, filled-nil (b ∷ buffer))
scatter-filled (c ∷ cs) (b ∷ buffer) s (has, pos, w) =
    let n = min b.nbytes (length (c ∷ cs)) in
    let some_left : (n == 0) ≡ false = ground arith in
    let inside : ltb (length b.iop) n ≡ false = ground arith in
    let left : length (c ∷ cs) - n ≡ length (drop b.nbytes (c ∷ cs)) =
      omega (arith, length-drop b.nbytes (c ∷ cs)) in
    rw (
      some_left,
      inside,
      take-min b.nbytes (c ∷ cs),
      drop-min b.nbytes (c ∷ cs),
      left,
      scatter-filled (drop b.nbytes (c ∷ cs)) buffer s w,
    )

-- `readv` into buffers that have bytes reads with one call at most 8 bytes for each buffer, and fills
-- the buffers in their order with what it read.
pub readv-filled :
    (k : Posix) (fd : ℕ) (buffer : List Iostrt) (s : k.State)
    → Wide buffer
    → let r = k.read fd (8 * length buffer) s in
      readv k fd buffer s ≡ elim r.0 [
        | none ↦ ok (none, buffer) r.1
        | some bs ↦ ok (some (length bs), filled bs buffer) r.1
      ]
unfolding readv
readv-filled k fd buffer s w =
    rw (total_size-length buffer) (elim (Option-cases (k.read fd (8 * length buffer) s).0) [
      | inl e ↦ rw e
      | inr (bs, e) ↦ rw (e, scatter-filled bs buffer (k.read fd (8 * length buffer) s).1 w)
    ])

take-splice : (p xs : List ℕ) → take (length xs) (splice p 0 xs) ≡ xs
take-splice p [] = refl
take-splice p (x ∷ xs) = take_front (x ∷ xs) (drop (0 + length (x ∷ xs)) p)

gathered-filled :
    (bs : List ℕ) (buffer : List Iostrt)
    → Wide buffer
    → length bs ≡ length (gathered buffer)
    → gathered (filled bs buffer) ≡ bs
gathered-filled [] [] w e = refl
gathered-filled (c ∷ cs) [] w e = absurd (omega arith)
gathered-filled bs (b ∷ buffer) (has, pos, w) e =
    let taken : length (take b.nbytes b.iop) ≡ b.nbytes =
      omega (arith, length-take b.nbytes b.iop) in
    let whole = length-append (take b.nbytes b.iop) (gathered buffer) in
    let here : length (take b.nbytes bs) ≡ b.nbytes = omega (arith, length-take b.nbytes bs) in
    let first : take b.nbytes (splice b.iop 0 (take b.nbytes bs)) ≡ take b.nbytes bs =
      ap (λ n. take n (splice b.iop 0 (take b.nbytes bs))) (sym here)
      ∙ take-splice b.iop (take b.nbytes bs) in
    rw (first, gathered-filled (drop b.nbytes bs) buffer w (omega (arith, length-drop b.nbytes bs)))
      (take-append-drop b.nbytes bs)

-- Where `readv` reads as many bytes as its buffers hold, the buffers then hold, one behind the other,
-- what was read: `writev` of them would write it.
pub gathered-readv :
    (k : Posix) (fd : ℕ) (buffer : List Iostrt) (s : k.State) (bs : List ℕ)
    → Wide buffer
    → (k.read fd (8 * length buffer) s).0 ≡ some bs
    → length bs ≡ length (gathered buffer)
    → Returns (λ r _. (r.0 ≡ some (length bs)) × (gathered r.1 ≡ bs)) (readv k fd buffer s)
gathered-readv k fd buffer s bs w e whole =
    rw (readv-filled k fd buffer s w, e) (returns (refl, gathered-filled bs buffer w whole))

-- `write_to_file` writes all of the bytes at the offset and returns, or it exits with status 1, and
-- then the write failed or fell short.
pub write_to_file-written :
    (k : Posix) (law : IsPosix k) {F : Type 0} (blame : Reasons k law F) (fd d : ℕ) (p : List ℕ)
    (s : k.State)
    → (law.view s).desc fd ≡ some d
    → Ends F (λ _ s'. law.view s' ≡ written (law.view s) d p) (λ _. ⊥) (write_to_file k fd p s)
unfolding write_to_file
write_to_file-written k law blame fd d p s open_fd = elim (law.writes fd d p s open_fd) [
  | inl (r, _) ↦ rw r (failed (blame.writing fd d p s open_fd (λ q. cc)))
  | inr (n, r, le, now) ↦ rw r (elim (Bool-cases (n == length p)) [
    | inl full ↦
        rw full (returned (now ∙ ap (written (law.view s) d) (take_all n p (ground arith))))
    | inr short ↦
        rw short (failed (blame.writing fd d p s open_fd (λ q. false≢true (ground arith))))
  ])
]
