-- ===== src/Malloc/History.antt =====
-- A client of the allocator: it asks for blocks, gives back blocks that it has, and writes into them.
use textbooks.Base.{
  ℕ, suc, ◌+◌, ◌-◌, ◌^◌, ◌≤◌, ◌<◌, ◌≡◌, refl, ◌≢◌, inl, inr, Bool, true, false, ◌∷◌, [], arith,
  List, ok, length,
}
use mathlib.Core.Bool.{false≢true}
use textbooks.Base.Returns
use textbooks.Base.Int.{pos}
use textbooks.Malloc.Defs.{Kernel, Heap, word, program_break, c_malloc, c_free, update}
use textbooks.Malloc.Chain.{after, IsSbrk, length-after, length-IsSuffix}
use textbooks.Malloc.Layout.{Layout, Layout-sub}
use textbooks.Malloc.Invariant.{IsHeap, IsHeap-own, insert, remove, chunk_of}
use textbooks.Malloc.Alloc.{Allocated, c_malloc_lem}
use textbooks.Malloc.Free.{c_free_lem}

module _ {k : Kernel} where
  -- The first two words of a block of the client's overlay the links of its header.
  abbrev pub write_links : Heap k → ℕ → ℕ → ℕ → Heap k
  write_links h e v w = record h {
    nodes = update h.nodes e (record (h.nodes e) { previous = v; next = w });
  }

  -- After `n` calls, starting from `start`, the heap is `h` and the client has the blocks `live`. The
  -- fuel of a call exceeds the number of calls before it, so it exceeds the length of the list.
  pub data History (start : Heap k) : ℕ → Heap k → (ℕ → Bool) → Type 0 where
    begin : {live : ℕ → Bool} → ((a : ℕ) → live a ≡ false) → History start 0 start live
    malloc :
        {n : ℕ} {h : Heap k} {live live' : ℕ → Bool} {h' : Heap k} (size e : ℕ)
        → History start n h live
        → size + 24 < 2 ^ 31
        → program_break h + size + 24 < 2 ^ 63
        → (k.sbrk (pos (size + 24)) h.os).0 ≢ word - 1
        → c_malloc (n + 2) size h ≡ ok (e + 8) h'
        → live' ≡ insert live e
        → History start (suc n) h' live'
    free :
        {n : ℕ} {h : Heap k} {live live' : ℕ → Bool} {h' : Heap k} (e : ℕ)
        → History start n h live
        → live e ≡ true
        → c_free (n + 2) (e + 8) h ≡ ok tt h'
        → live' ≡ remove live e
        → History start (suc n) h' live'
    write :
        {n : ℕ} {h : Heap k} {live : ℕ → Bool} {h' : Heap k} (e v w : ℕ)
        → History start n h live
        → live e ≡ true
        → h' ≡ write_links h e v w
        → History start (suc n) h' live

module _ {k : Kernel} {base : ℕ} (law : IsSbrk k base) (start : Heap k) where
  abbrev Keeps : ℕ → Heap k → (ℕ → Bool) → Type 0
  Keeps n h live =
      (xs : List ℕ) × IsHeap base h live xs × (length xs ≤ n) × (program_break h < 2 ^ 63)

  Allocated-Keeps :
      (h : Heap k) (live : ℕ → Bool) (xs : List ℕ) (n size e : ℕ) (h' : Heap k)
      → Allocated base h live xs size (e + 8) h'
      → length xs ≤ n
      → program_break h + size + 24 < 2 ^ 63
      → Keeps (suc n) h' (insert live e)
  Allocated-Keeps h live xs n size e h' (inl (r, fit, at, top, i)) len room =
      let same : e ≡ r = omega arith in
      rw same (after r xs, i, omega (arith, length-after r xs fit.0), omega arith)
  Allocated-Keeps h live xs n size e h' (inr (none_fits, at, chunk, top, i)) len room =
      let same : e ≡ program_break h = omega arith in rw same (xs, i, omega arith, omega arith)

  History-Keeps :
      {n : ℕ} {h : Heap k} {live : ℕ → Bool}
      → start.head ≡ 0
      → 0 < base
      → base ≤ program_break start
      → program_break start < 2 ^ 63
      → History start n h live
      → Keeps n h live
  History-Keeps z b a r (begin e) = (
    [],
    record {
      chain = z;
      nodup = tt;
      separate = λ c u. refl;
      layout = record {
        bounds = λ c u. absurd (false≢true (ground (arith, e c)));
        apart = λ c d u v ne. absurd (false≢true (ground (arith, e c)));
      };
      above = a;
      based = b;
    },
    omega arith,
    r,
  )
  History-Keeps z b a r (malloc {n} {h} {live} size e hist small room good run new) =
      let (xs, i, len, _) = History-Keeps z b a r hist in
      let (ys, ih, len', room') =
        Allocated-Keeps h live xs n size e _
          (Returns.holds (c_malloc_lem law h live xs (n + 2) size i small room good (omega arith))
            run)
          len room in
      rw new (ys, ih, len', room')
  History-Keeps z b a r (free {n} {h} {live} e hist l run new) =
      let (xs, i, len, room) = History-Keeps z b a r hist in
      let (ys, suffix, ih, settled, le, same, chunk, low) =
        Returns.holds (c_free_lem law h live xs (n + 2) e i l room (omega arith)) run in
      rw new (ys, ih, omega (arith, length-IsSuffix ys (e ∷ xs) suffix), omega arith)
  History-Keeps z b a r (write {h} e v w hist l new) =
      let (xs, i, len, room) = History-Keeps z b a r hist in
      rw new (
        xs,
        IsHeap-own i (write_links h e v w) e l refl refl (λ a ne. ground arith) (ground arith),
        omega arith,
        room,
      )

  -- Whatever a client does with `c_malloc`, `c_free` and its own blocks, from a heap with an empty
  -- list, any two blocks that it has do not overlap, and each lies between the start of the heap and
  -- the break.
  pub History-Layout :
      {n : ℕ} {h : Heap k} {live : ℕ → Bool}
      → start.head ≡ 0
      → 0 < base
      → base ≤ program_break start
      → program_break start < 2 ^ 63
      → History start n h live
      → Layout base (program_break h) (chunk_of h.nodes) live
  History-Layout z b a r hist =
      let (xs, i, len, room) = History-Keeps z b a r hist in
      Layout-sub i.layout _ _ (λ c u. (ground arith, refl))
