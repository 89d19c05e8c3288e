-- ===== src/Malloc/Stages.antt =====
-- The stages of `main` of tlpi/c7/7.2.c: its calls of `c_malloc` and `c_free`, one by one.
use textbooks.Base.{
  ℕ, ◌+◌, ◌-◌, ◌≤◌, ◌<◌, ◌^◌, ◌≡◌, ◌≢◌, ◌⊎◌, refl, ap, ◌∙◌, inl, inr, Bool, true, false, [], ◌∷◌,
  List, arith, Run, Bool-cases, ◌==◌,
}
use mathlib.Core.Path.{subst}
use textbooks.Base.Returns
use textbooks.Base.Returns.{Returns, returns}
use textbooks.Base.Int.{pos}
use textbooks.Malloc.Defs.{Kernel, FreeL, Heap, word, program_break, c_malloc, c_free}
use textbooks.Malloc.Main.{Program, resume}
use textbooks.Malloc.Chain.{IsSbrk}
use textbooks.Malloc.Invariant.{IsHeap, IsHeap-own, IsHeap-fewer, insert, remove, chunk_of}
use textbooks.Malloc.Alloc.{c_malloc-new}
use textbooks.Malloc.Free.{c_free_lem}
use textbooks.Malloc.Left.{left_none, left_one, left_two}
use textbooks.Malloc.OwnWrites.{Wrote}

pub resume-Returns :
    {k : Kernel} {A : Type 0} {P : A → Heap k → Type 0} {r : Run (Heap k) A} (s : Program k)
    → Returns P r
    → Returns (λ a s'. P a s'.heap) (resume s r)
resume-Returns s (returns p) = returns p

-- Between calls: the client has the blocks `live`, the list is `xs`, and the break is at `top`. The
-- blocks of `main` are at `b`, with a chunk of 17 bytes, and at `b + 25`, with one of `n`; other
-- headers are as in `h`.
pub record Stage {k : Kernel} (base b : ℕ) (h : Heap k) (live : ℕ → Bool) (xs : List ℕ) (top n : ℕ)
    (s : Heap k) : Type 0 where
  pub heap : IsHeap base s live xs
  pub at : program_break s ≡ top
  pub ch_chunk : chunk_of s.nodes b ≡ 17
  pub arr_chunk : chunk_of s.nodes (b + 25) ≡ n
  pub others : (a : ℕ) → a ≢ b → a ≢ b + 25 → s.nodes a ≡ h.nodes a

chunk_same : (m m' : ℕ → FreeL) (a : ℕ) → m a ≡ m' a → chunk_of m a ≡ chunk_of m' a
chunk_same m m' a e = ap (λ (x : FreeL). x.chunk_size) e

-- `sbrk` has memory to give while the break is below 2 ^ 63.
abbrev pub NeverFails : Kernel → Type 0
NeverFails k =
    (n : ℕ) (os : k.State) → (k.sbrk (pos 0) os).0 < 2 ^ 63 → (k.sbrk (pos n) os).0 ≢ word - 1

module _ {k : Kernel} {base : ℕ} (law : IsSbrk k base) (h : Heap k) (live : ℕ → Bool)
    (i : IsHeap base h live []) (room : program_break h + 69 < 2 ^ 63) (good : NeverFails k) where
  abbrev pub b : ℕ
  b = program_break h

  abbrev pub with_ch : ℕ → Bool
  with_ch = insert live b

  abbrev pub with_both : ℕ → Bool
  with_both = insert with_ch (b + 25)

  abbrev pub On : (ℕ → Bool) → List ℕ → ℕ → ℕ → Heap k → Type 0
  On = Stage base b h

  pub On-own :
      {l : ℕ → Bool} {xs : List ℕ} {top n : ℕ} (s s' : Program k) (e : ℕ)
      → On l xs top n s.heap
      → l e ≡ true
      → (e ≡ b) ⊎ (e ≡ b + 25)
      → Wrote s e s'
      → On l xs top n s'.heap
  On-own s s' e t l which (eh, eo, same, chunk) = record {
    heap = IsHeap-own t.heap s'.heap e l eh top_same same chunk;
    at = top_same ∙ t.at;
    ch_chunk = sizes b (Bool-cases (b == e)) ∙ t.ch_chunk;
    arr_chunk = sizes (b + 25) (Bool-cases (b + 25 == e)) ∙ t.arr_chunk;
    others = λ a ne ne'. same a (apart a ne ne' which) ∙ t.others a ne ne';
  }
    where
      top_same : program_break s'.heap ≡ program_break s.heap
      top_same = ap (λ os. (k.sbrk (pos 0) os).0) eo

      sizes :
          (a : ℕ)
          → ((a == e) ≡ true) ⊎ ((a == e) ≡ false)
          → chunk_of s'.heap.nodes a ≡ chunk_of s.heap.nodes a
      sizes a (inl q) = let q' : a ≡ e = ground arith in rw q' chunk
      sizes a (inr q) = chunk_same s'.heap.nodes s.heap.nodes a (same a (ground arith))

      apart : (a : ℕ) → a ≢ b → a ≢ b + 25 → (e ≡ b) ⊎ (e ≡ b + 25) → a ≢ e
      apart a ne ne' (inl q) = λ p. ne (p ∙ q)
      apart a ne ne' (inr q) = λ p. ne' (p ∙ q)

  pub c_malloc-ch :
      Returns (λ p s'. (p ≡ b + 8) × ((n : ℕ) × On with_ch [] (b + 25) n s')) (c_malloc 3 1 h)
  c_malloc-ch =
      Returns.mono
        (c_malloc-new law h live 3 1 i (omega arith) (omega arith) (good 25 h.os (omega arith)))
        λ p s' (at, ih, top, same, chunk). (
          at,
          (
            _,
            record {
              heap = ih;
              at = omega arith;
              ch_chunk = chunk;
              arr_chunk = refl;
              others = λ a ne _. same a ne;
            },
          ),
        )

  pub c_malloc-arr :
      (size n end : ℕ) (s : Heap k)
      → On with_ch [] (b + 25) n s
      → size ≤ 20
      → b + 49 + size ≡ end
      → Returns (λ p s'. (p ≡ b + 25 + 8) × On with_both [] end (size + 16) s') (c_malloc 3 size s)
  c_malloc-arr size n end s t le last =
      Returns.mono
        (c_malloc-new law s with_ch 3 size t.heap (omega arith) (omega (arith, t.at))
          (good (size + 24) s.os (omega (arith, t.at))))
        λ p s' (at, ih, top, same, chunk). (
          omega (arith, t.at),
          record {
            heap = subst (λ x. IsHeap base s' (insert with_ch x) []) t.at ih;
            at = omega (arith, t.at);
            ch_chunk = chunk_same s'.nodes s.nodes b (same b (omega (arith, t.at))) ∙ t.ch_chunk;
            arr_chunk = subst (λ x. chunk_of s'.nodes x ≡ size + 16) t.at chunk;
            others = λ a ne ne'. same a (omega (arith, t.at)) ∙ t.others a ne ne';
          },
        )

  -- The blocks that were there before lie below those of `main`.
  pub below : (a : ℕ) → live a ≡ true → a < b
  below a u = omega (arith, i.layout.bounds a (ground arith))

  pub c_free-arr :
      (s : Heap k)
      → On with_both [] (b + 69) 36 s
      → Returns (λ _ s'. On with_ch [] (b + 25) 36 s') (c_free 3 (b + 25 + 8) s)
  c_free-arr s t =
      Returns.mono
        (c_free_lem law s with_both [] 3 (b + 25) t.heap (ground arith) (omega (arith, t.at))
          (omega arith))
        λ _ s' (ys, suffix, ih, settled, le, same, chunk, low).
          let (empty, top) =
            left_none s s' ys settled (b + 25) low (omega (arith, chunk, t.arr_chunk, t.at)) in
          record {
            heap =
                IsHeap-fewer (subst (λ l. IsHeap base s' (remove with_both (b + 25)) l) empty ih)
                  with_ch (λ a u. ground (arith, below a));
            at = top;
            ch_chunk = chunk_same s'.nodes s.nodes b (same b (omega arith)) ∙ t.ch_chunk;
            arr_chunk = chunk ∙ t.arr_chunk;
            others = λ a ne ne'. same a ne' ∙ t.others a ne ne';
          }

  pub c_free-ch :
      (s : Heap k)
      → On with_both [] (b + 65) 32 s
      → Returns (λ _ s'. On (remove with_both b) (b ∷ []) (b + 65) 32 s') (c_free 3 (b + 8) s)
  c_free-ch s t =
      Returns.mono
        (c_free_lem law s with_both [] 3 b t.heap (ground arith) (omega (arith, t.at))
          (omega arith))
        λ _ s' (ys, suffix, ih, settled, le, same, chunk, low).
          let (one, top) =
            left_one s s' ys settled b low
              (omega (arith, ih.layout.bounds (b + 25) (ground arith))) in
          record {
            heap = subst (λ l. IsHeap base s' (remove with_both b) l) one ih;
            at = top ∙ t.at;
            ch_chunk = chunk ∙ t.ch_chunk;
            arr_chunk =
                chunk_same s'.nodes s.nodes (b + 25) (same (b + 25) (omega arith)) ∙ t.arr_chunk;
            others = λ a ne ne'. same a ne ∙ t.others a ne ne';
          }

  pub c_free-arr2 :
      (s : Heap k)
      → On (remove with_both b) (b ∷ []) (b + 65) 32 s
      → Returns (λ _ s'. On live [] b 32 s') (c_free 3 (b + 25 + 8) s)
  c_free-arr2 s t =
      Returns.mono
        (c_free_lem law s (remove with_both b) (b ∷ []) 3 (b + 25) t.heap (ground arith)
          (omega (arith, t.at)) (omega arith))
        λ _ s' (ys, suffix, ih, settled, le, same, chunk, low).
          let same_ch = chunk_same s'.nodes s.nodes b (same b (omega arith)) in
          let (empty, top) =
            left_two s s' ys settled (b + 25) b low (omega (arith, chunk, t.arr_chunk, t.at))
              (omega (arith, same_ch, t.ch_chunk)) in
          record {
            heap =
                IsHeap-fewer
                  (subst (λ l. IsHeap base s' (remove (remove with_both b) (b + 25)) l) empty ih)
                  live (λ a u. ground (arith, below a));
            at = top;
            ch_chunk = same_ch ∙ t.ch_chunk;
            arr_chunk = chunk ∙ t.arr_chunk;
            others = λ a ne ne'. same a ne' ∙ t.others a ne ne';
          }
