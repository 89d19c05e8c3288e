-- ===== src/Malloc/Unlink.antt =====
-- `pop_from_free_list` on a list whose `previous` links are kept: it takes out the entry alone.
use textbooks.Base.{
  ℕ, ◌<◌, ◌≡◌, refl, sym, ap, ◌∙◌, ◌≢◌, ◌⊎◌, inl, inr, true, false, not, ◌||◌, ◌&&◌, ◌∷◌, [], ◌++◌,
  ◌==◌, if◌then◌else◌, arith, Bool-cases, List,
}
use mathlib.Core.Bool.{false≢true}
use textbooks.Base.Returns
use textbooks.Base.Returns.{Returns, returns}
use textbooks.Malloc.Defs.{Kernel, FreeL, Heap, is_mapped, load, store, pop_from_free_list}
use textbooks.Malloc.Chain.{
  has, Nodup, DoubleChain, DoubleChain-frame, has-append, Nodup-split, Nodup-right,
}
use textbooks.Malloc.FreeList.{AllMapped}

module _ (m : ℕ → FreeL) (e : ℕ) where
  abbrev before : ℕ
  before = (m e).previous

  abbrev behind : ℕ
  behind = (m e).next

  -- The headers once the entry `e` is out.
  abbrev relinked : ℕ → FreeL
  relinked a = record {
    chunk_size = (m a).chunk_size;
    previous = if (a == behind) && not (behind == 0) then before else (m a).previous;
    next = if (a == before) && not (before == 0) then behind else (m a).next;
  }

module _ {k : Kernel} where
  pop-relinked :
      (h : Heap k) (e : ℕ)
      → is_mapped h e ≡ true
      → (before h.nodes e ≢ 0 → is_mapped h (before h.nodes e) ≡ true)
      → (behind h.nodes e ≢ 0 → is_mapped h (behind h.nodes e) ≡ true)
      → before h.nodes e ≢ e
      → (before h.nodes e ≢ 0 → before h.nodes e ≢ behind h.nodes e)
      → Returns
          (λ _ h'.
            (h'.head ≡ (if before h.nodes e == 0 then behind h.nodes e else h.head))
            × (h'.os ≡ h.os)
            × ((a : ℕ) → h'.nodes a ≡ relinked h.nodes e a))
          (pop_from_free_list e h)
  unfolding pop_from_free_list load store
  pop-relinked h e m mb ma ne apart = elim (Bool-cases (before h.nodes e == 0)) [
    | inl z ↦ elim (Bool-cases (behind h.nodes e == 0)) [
      | inl y ↦ rw (m, z, m, y) (returns (refl, refl, λ a. ground arith))
      | inr y ↦
          let n = ma (ground arith) in
          rw (m, z, m, y, n, n) (returns (refl, refl, λ a. ground arith))
    ]
    | inr z ↦
        let p = mb (ground arith) in
        let u : (e == before h.nodes e) ≡ false = ground arith in
        elim (Bool-cases (behind h.nodes e == 0)) [
          | inl y ↦ rw (m, z, p, p, m, u, y) (returns (refl, refl, λ a. ground arith))
          | inr y ↦
              let n = ma (ground arith) in
              rw (m, z, p, p, m, u, y, n, n) (returns (refl, refl, λ a. ground arith))
        ]
  ]

module _ (m : ℕ → FreeL) (e : ℕ) (ys : List ℕ) where
  before-has :
      (b p : ℕ) (zs : List ℕ)
      → DoubleChain m b p (zs ++ (e ∷ ys))
      → (before m e ≡ b) ⊎ (has (before m e) zs ≡ true)
  before-has b p [] (_, _, q, _) = inl q
  before-has b p (z ∷ zs) (_, _, _, c) = elim (before-has z (m z).next zs c) [
    | inl q ↦ inr (ground arith)
    | inr h ↦ inr (ground arith)
  ]

  before-has_cons :
      (b p w : ℕ) (zs : List ℕ)
      → DoubleChain m b p ((w ∷ zs) ++ (e ∷ ys))
      → has (before m e) (w ∷ zs) ≡ true
  before-has_cons b p w zs (_, _, _, c) = elim (before-has w (m w).next zs c) [
    | inl q ↦ ground arith
    | inr h ↦ ground arith
  ]

  behind-DoubleChain :
      (b p : ℕ) (zs : List ℕ)
      → DoubleChain m b p (zs ++ (e ∷ ys))
      → (0 < e) × DoubleChain m e (behind m e) ys
  behind-DoubleChain b p [] (_, z, _, c) = (z, c)
  behind-DoubleChain b p (z ∷ zs) (_, _, _, c) = behind-DoubleChain z (m z).next zs c

  abbrev start_of : List ℕ → ℕ → ℕ
  start_of [] p = behind m e
  start_of (z ∷ zs) p = p

  -- Headers `m'` that skip `e` chain what stands before it to what follows.
  skip-DoubleChain :
      (m' : ℕ → FreeL) (b p : ℕ) (zs : List ℕ)
      → DoubleChain m b p (zs ++ (e ∷ ys))
      → Nodup zs
      → ((a : ℕ) → has a zs ≡ true → (m' a).previous ≡ (m a).previous)
      → ((a : ℕ) → has a zs ≡ true → a ≢ before m e → (m' a).next ≡ (m a).next)
      → ((a : ℕ) → has a zs ≡ true → a ≡ before m e → (m' a).next ≡ behind m e)
      → DoubleChain m' (before m e) (behind m e) ys
      → DoubleChain m' b (start_of zs p) (zs ++ ys)
  skip-DoubleChain m' b p [] (_, _, q, c) n prev same skip rest = rw (← q) rest
  skip-DoubleChain m' b p (z ∷ []) (i, nz, q, (_, _, q', c)) n prev same skip rest =
      let s = skip z (ground arith) (sym q') in
      (i, nz, prev z (ground arith) ∙ q, rw (s, ← q') rest)
  skip-DoubleChain m' b p (z ∷ (w ∷ zs)) (i, nz, q, c) (out, n) prev same skip rest =
      let ne : z ≢ before m e = λ r. ground (arith, before-has_cons z (m z).next w zs c, r) in
      let s = same z (ground arith) ne in
      (
        i,
        nz,
        prev z (ground arith) ∙ q,
        rw s (
            skip-DoubleChain m' z (m z).next (w ∷ zs) c n (λ a h. prev a (ground arith))
              (λ a h. same a (ground arith)) (λ a h. skip a (ground arith)) rest),
      )

  -- What follows `e` is chained to what stood before it.
  relinked-DoubleChain :
      (ys' : List ℕ)
      → DoubleChain m e (behind m e) ys'
      → Nodup ys'
      → (has (before m e) ys' ≡ false)
      → DoubleChain (relinked m e) (before m e) (behind m e) ys'
  relinked-DoubleChain [] c n out = c
  relinked-DoubleChain (y ∷ ys') (i, nz, q, c) (o, n) out =
      let s : (relinked m e y).next ≡ (m y).next = ground arith in
      (
        i,
        nz,
        ground arith,
        rw s (
            DoubleChain-frame m (relinked m e) y (m y).next ys'
              (λ a h. same a h (Bool-cases (a == before m e)) (Bool-cases (a == behind m e))) c),
      )
    where
      same :
          (a : ℕ)
          → has a ys' ≡ true
          → ((a == before m e) ≡ true) ⊎ ((a == before m e) ≡ false)
          → ((a == behind m e) ≡ true) ⊎ ((a == behind m e) ≡ false)
          → relinked m e a ≡ m a
      same a h (inl x) v = absurd (false≢true (ground arith))
      same a h (inr x) (inl v) = absurd (false≢true (ground arith))
      same a h (inr x) (inr v) = rw (x, v)

DoubleChain-head :
    (m : ℕ → FreeL) (b p : ℕ) (xs : List ℕ) → DoubleChain m b p xs → (p ≡ 0) ⊎ (has p xs ≡ true)
DoubleChain-head m b p [] c = inl c
DoubleChain-head m b p (x ∷ xs) (q, _, _, _) = inr (ground arith)

start_of-if :
    (m : ℕ → FreeL) (e p : ℕ) (ys zs : List ℕ)
    → DoubleChain m 0 p (zs ++ (e ∷ ys))
    → ((a : ℕ) → has a zs ≡ true → 0 < a)
    → (if before m e == 0 then behind m e else p) ≡ start_of m e ys zs p
start_of-if m e p ys [] (_, _, q, _) pos = ground arith
start_of-if m e p ys (z ∷ zs) c pos =
    let in_zs = before-has_cons m e ys 0 p z zs c in ground (arith, pos (before m e) in_zs)

AllMapped-has :
    {k : Kernel} (h : Heap k) (xs : List ℕ) (a : ℕ)
    → AllMapped h xs
    → has a xs ≡ true
    → is_mapped h a ≡ true
AllMapped-has h [] a m u = cc
AllMapped-has h (x ∷ xs) a (m, ms) u = ground (arith, AllMapped-has h xs a ms)

module _ {k : Kernel} (h : Heap k) (zs : List ℕ) (e : ℕ) (ys : List ℕ)
    (c : DoubleChain h.nodes 0 h.head (zs ++ (e ∷ ys))) (n : Nodup (zs ++ (e ∷ ys)))
    (ms : AllMapped h (zs ++ (e ∷ ys))) where
  abbrev m : ℕ → FreeL
  m = h.nodes

  has_whole : (a : ℕ) → (has a zs || has a (e ∷ ys)) ≡ true → is_mapped h a ≡ true
  has_whole a u = AllMapped-has h (zs ++ (e ∷ ys)) a ms (has-append a zs (e ∷ ys) ∙ u)

  positive : (a : ℕ) → has a zs ≡ true → 0 < a
  positive a u = ground (arith, has_whole a (ground arith))

  apart_zs : (a : ℕ) → has a zs ≡ true → (a ≢ e) × (has a ys ≡ false)
  apart_zs = (Nodup-split e zs ys n).2

  behind_in : (behind m e ≡ 0) ⊎ (has (behind m e) ys ≡ true)
  behind_in = DoubleChain-head m e (behind m e) ys (behind-DoubleChain m e ys 0 h.head zs c).1

  before_in : (before m e ≡ 0) ⊎ (has (before m e) zs ≡ true)
  before_in = before-has m e ys 0 h.head zs c

  before_out : has (before m e) ys ≡ false
  before_out = elim before_in [
    | inl z ↦ elim (Bool-cases (has (before m e) ys)) [
      | inl u ↦ absurd (ground (arith, has_whole (before m e) (ground arith)))
      | inr u ↦ u
    ]
    | inr u ↦ (apart_zs (before m e) u).1
  ]

  before_ne : before m e ≢ e
  before_ne q = elim before_in [
    | inl z ↦ absurd (ground (arith, (behind-DoubleChain m e ys 0 h.head zs c).0))
    | inr u ↦ (apart_zs (before m e) u).0 q
  ]

  before_apart : before m e ≢ 0 → before m e ≢ behind m e
  before_apart nz q = ground (arith, behind_in, before_out)

  skipped : DoubleChain (relinked m e) 0 (start_of m e ys zs h.head) (zs ++ ys)
  skipped =
      skip-DoubleChain m e ys (relinked m e) 0 h.head zs c (Nodup-split e zs ys n).0
        (λ a u. ground (arith, apart_zs a u, behind_in)) (λ a u ne. ground arith)
        (λ a u q. ground (arith, positive a u))
        (relinked-DoubleChain m e ys ys (behind-DoubleChain m e ys 0 h.head zs c).1
          (Nodup-right zs (e ∷ ys) n).1 before_out)

  pop_relinked :
      Returns
        (λ _ h'.
          (h'.head ≡ (if before m e == 0 then behind m e else h.head))
          × (h'.os ≡ h.os)
          × ((a : ℕ) → h'.nodes a ≡ relinked m e a))
        (pop_from_free_list e h)
  pop_relinked =
      pop-relinked h e (has_whole e (ground arith))
        (λ nz. has_whole (before m e) (ground (arith, before_in)))
        (λ nz. has_whole (behind m e) (ground (arith, behind_in))) (λ q. before_ne q)
        (λ nz q. before_apart nz q)

  -- Where `previous` leads back, popping the entry between `zs` and `ys` leaves `zs` and `ys` chained
  -- both ways, and no size changes.
  pub pop-unlinks :
      Returns
        (λ _ h'.
          DoubleChain h'.nodes 0 h'.head (zs ++ ys)
          × ((a : ℕ) → (h'.nodes a).chunk_size ≡ (h.nodes a).chunk_size))
        (pop_from_free_list e h)
  pop-unlinks = Returns.mono pop_relinked λ _ h' (head, os, nodes). (
    rw (head, start_of-if m e h.head ys zs c positive)
        (DoubleChain-frame (relinked m e) h'.nodes 0 _ (zs ++ ys) (λ a u. nodes a) skipped),
    λ a. ap (λ (x : FreeL). x.chunk_size) (nodes a),
  )
