-- ===== src/Malloc/Invariant.antt =====
-- The invariant of the allocator, and its preservation by the steps that `c_malloc` and `c_free`
-- are made of.
use textbooks.Base.{
  ℕ, ◌+◌, ◌^◌, ◌≤◌, ◌<◌, ◌≡◌, refl, ap, ◌≢◌, ◌⊎◌, inl, inr, Bool, true, false, ◌||◌, ◌==◌, ◌∷◌, [],
  if◌then◌else◌, arith, Bool-cases, List, ok,
}
use textbooks.Malloc.Defs.{Kernel, FreeL, Heap, program_break, is_mapped, pop_from_free_list}
use textbooks.Malloc.Chain.{
  has, Nodup, Chain, after, has-after, has-after_self, Nodup-after, Chain-after, Chain-has,
  has-head, Chain-frame,
}
use textbooks.Malloc.FreeList.{AllMapped, pop_to_next}
use textbooks.Malloc.BestFit.{AllSmall}
use textbooks.Malloc.Layout.{Layout, Layout-sub, Layout-grow, Layout-shrink}

abbrev pub insert : (ℕ → Bool) → ℕ → ℕ → Bool
insert live e a = (a == e) || live a

abbrev pub remove : (ℕ → Bool) → ℕ → ℕ → Bool
remove live e a = if a == e then false else live a

abbrev pub in_use : (ℕ → Bool) → List ℕ → ℕ → Bool
in_use live xs a = live a || has a xs

abbrev pub chunk_of : (ℕ → FreeL) → ℕ → ℕ
chunk_of m a = (m a).chunk_size

-- The headers of the client's blocks are at the addresses `live`, those on the free list at `xs`. All
-- of them together do not overlap and lie between `base` and the break.
pub record IsHeap {k : Kernel} (base : ℕ) (h : Heap k) (live : ℕ → Bool) (xs : List ℕ)
    : Type 0 where
  pub chain : Chain h.nodes h.head xs
  pub nodup : Nodup xs
  pub separate : (a : ℕ) → live a ≡ true → has a xs ≡ false
  pub layout : Layout base (program_break h) (chunk_of h.nodes) (in_use live xs)
  pub above : base ≤ program_break h
  pub based : 0 < base

module _ {k : Kernel} {base : ℕ} {h : Heap k} {live : ℕ → Bool} {xs : List ℕ}
    (i : IsHeap base h live xs) where
  pub mapped : (a : ℕ) → in_use live xs a ≡ true → is_mapped h a ≡ true
  mapped a u = ground (arith, i.layout.bounds a u, i.based)

  pub IsHeap-AllMapped : AllMapped h xs
  IsHeap-AllMapped = go xs (λ a m. mapped a (ground arith))
    where
      go : (ys : List ℕ) → ((a : ℕ) → has a ys ≡ true → is_mapped h a ≡ true) → AllMapped h ys
      go [] f = tt
      go (y ∷ ys) f = (f y (ground arith), go ys (λ a m. f a (ground arith)))

  pub IsHeap-AllSmall : AllSmall h.nodes xs
  IsHeap-AllSmall = go xs (λ a m. ground (arith, i.layout.bounds a))
    where
      go :
          (ys : List ℕ)
          → ((a : ℕ) → has a ys ≡ true → chunk_of h.nodes a < 2 ^ 31)
          → AllSmall h.nodes ys
      go [] f = tt
      go (y ∷ ys) f = (f y (ground arith), go ys (λ a m. f a (ground arith)))

  -- On a list whose `previous` links are NULL, an entry is popped with all that stands before it.
  pub pop_lem :
      (e : ℕ)
      → has e xs ≡ true
      → pop_from_free_list e h ≡ ok tt (record h { head = (h.nodes e).next })
  pop_lem e m =
      let c = Chain-after h.nodes e h.head xs i.chain m in
      let next_in = λ (nz : (h.nodes e).next ≢ 0).
        has-after e xs (h.nodes e).next (has-head h.nodes (h.nodes e).next (after e xs) c nz) in
      pop_to_next h e (mapped e (ground arith)) (Chain-has h.nodes e h.head xs i.chain m).1
        (λ nz. mapped (h.nodes e).next (ground (arith, next_in nz)))
        (λ nz. (Chain-has h.nodes (h.nodes e).next h.head xs i.chain (next_in nz)).1)

  -- The popped entry may become the client's.
  pub IsHeap-pop :
      (e : ℕ)
      → has e xs ≡ true
      → IsHeap base (record h { head = (h.nodes e).next }) (insert live e) (after e xs)
  IsHeap-pop e m = record {
    chain = Chain-after h.nodes e h.head xs i.chain m;
    nodup = Nodup-after e xs i.nodup;
    separate = λ a u. ground (arith, has-after_self e xs i.nodup, i.separate a, has-after e xs a);
    layout = Layout-sub i.layout _ _ (λ a u. (ground (arith, has-after e xs a), refl));
    above = i.above;
    based = i.based;
  }

  -- A block given out at the old break.
  pub IsHeap-grow :
      (h' : Heap k) (n : ℕ)
      → h'.head ≡ h.head
      → program_break h' ≡ program_break h + 8 + n
      → ((a : ℕ) → a ≢ program_break h → h'.nodes a ≡ h.nodes a)
      → chunk_of h'.nodes (program_break h) ≡ n
      → 16 ≤ n
      → n + 8 < 2 ^ 31
      → IsHeap base h' (insert live (program_break h)) xs
  IsHeap-grow h' n eh eb same size lo hi =
      let fresh = λ (a : ℕ) (u : in_use live xs a ≡ true).
        let ne : a ≢ program_break h = ground (arith, i.layout.bounds a u) in ne in
      record {
        chain = rw eh (
            Chain-frame h.nodes h'.nodes h.head xs (λ a u. same a (fresh a (ground arith)))
              i.chain);
        nodup = i.nodup;
        separate = λ a u. ground (arith, i.separate a, fresh a);
        layout = rw eb (
            Layout-grow i.layout n _ _ i.above size lo hi
              (λ a u ne. (ground arith, ap (λ (x : FreeL). x.chunk_size) (same a ne))));
        above = ground (arith, i.above);
        based = i.based;
      }

  -- A block of the client's put in front of the list.
  pub IsHeap-push :
      (h' : Heap k) (e : ℕ)
      → live e ≡ true
      → h'.head ≡ e
      → program_break h' ≡ program_break h
      → ((a : ℕ) → a ≢ e → h'.nodes a ≡ h.nodes a)
      → h'.nodes e ≡ record { chunk_size = chunk_of h.nodes e; previous = 0; next = h.head }
      → IsHeap base h' (remove live e) (e ∷ xs)
  IsHeap-push h' e l eh eb same new =
      let out = i.separate e l in
      let kept = λ (a : ℕ). λ (u : has a xs ≡ true). let ne : a ≢ e = ground arith in same a ne in
      record {
        chain = (
          eh,
          ground (arith, i.layout.bounds e, i.based),
          ap (λ (x : FreeL). x.previous) new,
          rw new (Chain-frame h.nodes h'.nodes h.head xs kept i.chain),
        );
        nodup = (out, i.nodup);
        separate = λ a u. ground (arith, i.separate a);
        layout = rw eb (Layout-sub i.layout _ _ (λ a u. (old a u, size a (Bool-cases (a == e)))));
        above = rw eb i.above;
        based = i.based;
      }
    where
      old : (a : ℕ) → in_use (remove live e) (e ∷ xs) a ≡ true → in_use live xs a ≡ true
      old a u = ground arith

      size :
          (a : ℕ)
          → ((a == e) ≡ true) ⊎ ((a == e) ≡ false)
          → chunk_of h'.nodes a ≡ chunk_of h.nodes a
      size a (inl q) = let q' : a ≡ e = ground arith in rw q' (ap (λ (x : FreeL). x.chunk_size) new)
      size a (inr q) = ap (λ (x : FreeL). x.chunk_size) (same a (ground arith))

  -- A write into the links of a block of the client's does not reach the list.
  pub IsHeap-own :
      (h' : Heap k) (e : ℕ)
      → live e ≡ true
      → h'.head ≡ h.head
      → program_break h' ≡ program_break h
      → ((a : ℕ) → a ≢ e → h'.nodes a ≡ h.nodes a)
      → chunk_of h'.nodes e ≡ chunk_of h.nodes e
      → IsHeap base h' live xs
  IsHeap-own h' e l eh eb same chunk = record {
    chain = rw eh (Chain-frame h.nodes h'.nodes h.head xs (λ a u. same a (spared a u)) i.chain);
    nodup = i.nodup;
    separate = i.separate;
    layout = rw eb (Layout-sub i.layout _ _ (λ a u. (u, size a (Bool-cases (a == e)))));
    above = rw eb i.above;
    based = i.based;
  }
    where
      spared : (a : ℕ) → has a xs ≡ true → a ≢ e
      spared a u = ground (arith, i.separate e l)

      size :
          (a : ℕ)
          → ((a == e) ≡ true) ⊎ ((a == e) ≡ false)
          → chunk_of h'.nodes a ≡ chunk_of h.nodes a
      size a (inl q) = let q' : a ≡ e = ground arith in rw q' chunk
      size a (inr q) = ap (λ (x : FreeL). x.chunk_size) (same a (ground arith))

  -- Fewer blocks of the client's.
  pub IsHeap-fewer :
      (live' : ℕ → Bool) → ((a : ℕ) → live' a ≡ true → live a ≡ true) → IsHeap base h live' xs
  IsHeap-fewer live' sub = record {
    chain = i.chain;
    nodup = i.nodup;
    separate = λ a u. i.separate a (sub a u);
    layout = Layout-sub i.layout _ _ (λ a u. (ground (arith, sub a), refl));
    above = i.above;
    based = i.based;
  }

  -- A free block at the break given back.
  pub IsHeap-release :
      (h' : Heap k) (e : ℕ)
      → has e xs ≡ true
      → e + 8 + chunk_of h.nodes e ≡ program_break h
      → h'.head ≡ (h.nodes e).next
      → h'.nodes ≡ h.nodes
      → program_break h' ≡ e
      → IsHeap base h' live (after e xs)
  IsHeap-release h' e m top eh en eb = record {
    chain = rw (eh, en) (Chain-after h.nodes e h.head xs i.chain m);
    nodup = Nodup-after e xs i.nodup;
    separate = λ a u. ground (arith, i.separate a, has-after e xs a);
    layout =
        rw (eb, en)
          (Layout-shrink i.layout e _ (ground arith) top (λ a u. (
            ground (arith, has-after e xs a),
            ground (arith, i.separate a, has-after_self e xs i.nodup),
          )));
    above = ground (arith, i.layout.bounds e);
    based = i.based;
  }
