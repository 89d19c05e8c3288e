-- ===== src/Paging/Pages.antt =====
-- 49.4.c shows the three pages of its file in the reverse order.
use textbooks.Base.{
  ℕ, zero, suc, ◌+◌, ◌-◌, ◌*◌, ◌≡◌, ◌≤◌, ◌<◌, ◌⊎◌, refl, sym, ap, ◌∙◌, true, false, ◌&&◌, ltb, leb,
  Option, none, some, List, [], ◌∷◌, arith, length, take, drop, get_elem?, length-drop, inl, inr,
  ok,
}
use textbooks.Base.Ends.{Ends, returned, failed}
use textbooks.Paging.Memory.{Memory, Place, byte_of, loaded, replaced, IsMemory, Refuses}
use textbooks.Paging.Defs.{byte_at, first_three, print_pages, map_pages, pages_main}

pub replaced_in :
    (old : ℕ → Option Place) (a n : ℕ) (new : ℕ → Place) (x : ℕ)
    → x < n
    → replaced old a n new (a + x) ≡ some (new x)
replaced_in old a n new x h =
    let inside : (leb a (a + x) && ltb (a + x) (a + n)) ≡ true = ground arith in
    let back : a + x - a ≡ x = omega arith in rw (inside, back) refl

pub replaced_out :
    (old : ℕ → Option Place) (a n : ℕ) (new : ℕ → Place) (x : ℕ)
    → (x < a) ⊎ (a + n ≤ x)
    → replaced old a n new x ≡ old x
replaced_out old a n new x h =
    let outside : (leb a x && ltb x (a + n)) ≡ false = ground arith in rw outside refl

pub get_elem?-drop : (o j : ℕ) (c : List ℕ) → get_elem? (drop o c) j ≡ get_elem? c (o + j)
get_elem?-drop zero j c = let z : 0 + j ≡ j = omega arith in rw z refl
get_elem?-drop (suc o) j [] = refl
get_elem?-drop (suc o) j (x ∷ c) =
    let s : suc o + j ≡ suc (o + j) = omega arith in rw s (get_elem?-drop o j c)

-- A list that has three elements.
three :
    (l : List ℕ)
    → 3 ≤ length l
    → (x y z : ℕ) × (get_elem? l 0 ≡ some x)
      × (get_elem? l 1 ≡ some y)
      × (get_elem? l 2 ≡ some z)
      × (take 3 l ≡ x ∷ (y ∷ (z ∷ [])))
three [] h = absurd (omega (arith, h))
three (x ∷ []) h = absurd (omega (arith, h))
three (x ∷ (y ∷ [])) h = absurd (omega (arith, h))
three (x ∷ (y ∷ (z ∷ l))) h = (x, y, z, refl, refl, refl, refl)

module _ (k : Memory) (law : IsMemory k) where
  -- From `a` on, a page shows the file `i` from `o` on.
  abbrev pub Shows : ℕ → ℕ → ℕ → k.State → Type 0
  Shows a i o s = (x : ℕ) → x < k.page_size → law.place s (a + x) ≡ some (byte_of i (o + x))

  load_shown :
      (a i o x b : ℕ) (s : k.State)
      → Shows a i o s
      → x < k.page_size
      → get_elem? (law.file s i) (o + x) ≡ some b
      → k.load (a + x) s ≡ some b
  load_shown a i o x b s shows h e =
      law.loads (a + x) s ∙ ap (loaded k.page_size (law.file s)) (shows x h) ∙ rw (loaded, e) refl

  first_three-shown :
      (a i o : ℕ) (c : List ℕ) (s : k.State)
      → Shows a i o s
      → 3 ≤ k.page_size
      → law.file s i ≡ c
      → o + 3 ≤ length c
      → first_three k a s ≡ ok (take 3 (drop o c)) s
  unfolding first_three
  first_three-shown a i o c s shows wide bytes long =
      let (x, y, z, e0, e1, e2, whole) = three (drop o c) (omega (arith, long, length-drop o c)) in
      let at : (j b : ℕ)
          → get_elem? (drop o c) j ≡ some b
          → get_elem? (law.file s i) (o + j) ≡ some b =
        λ j b e. ap (λ l. get_elem? l (o + j)) bytes ∙ sym (get_elem?-drop o j c) ∙ e in
      let here : a + 0 ≡ a = omega arith in
      let load0 : k.load a s ≡ some x =
        ap (λ n. k.load n s) (sym here)
        ∙ load_shown a i o 0 x s shows (omega (arith, wide)) (at 0 x e0) in
      rw
        (
          byte_at,
          load0,
          load_shown a i o 1 y s shows (omega (arith, wide)) (at 1 y e1),
          load_shown a i o 2 z s shows (omega (arith, wide)) (at 2 z e2),
          whole,
        )
        refl

  -- The descriptor is open on a file that holds `c`.
  abbrev OnFile : ℕ → ℕ → List ℕ → k.State → Type 0
  OnFile fd i c s = (law.inode s fd ≡ some i) × (law.file s i ≡ c)

  -- A page is mapped behind others, which stay.
  maps_page :
      (b fd o i : ℕ) (c : List ℕ) (s : k.State)
      → OnFile fd i c s
      → let r = k.map_fixed b k.page_size fd o s in
        (r.0 ≡ none)
        ⊎ ((r.0 ≡ some b)
            × OnFile fd i c r.1
            × Shows b i o r.1
            × ((a o' : ℕ) → a + k.page_size ≤ b → Shows a i o' s → Shows a i o' r.1))
  maps_page b fd o i c s (open_fd, bytes) =
      let one : k.page_size ≡ 1 * k.page_size = omega arith in
      elim (law.maps_fixed b k.page_size 1 fd o i s one open_fd) [
        | inl e ↦ inl e
        | inr (e, inodes, files, now) ↦ inr (
          e,
          (
            ap (λ (f : ℕ → Option ℕ). f fd) inodes ∙ open_fd,
            ap (λ (f : ℕ → List ℕ). f i) files ∙ bytes,
          ),
          (λ x h.
              now (b + x) ∙ replaced_in (law.place s) b k.page_size (λ y. byte_of i (o + y)) x h),
          λ a o' before shows x h.
              now (a + x)
              ∙ replaced_out (law.place s) b k.page_size (λ y. byte_of i (o + y)) (a + x)
                  (inl (omega (arith, before, h)))
              ∙ shows x h,
        )
      ]

  -- The three pages from `addr` on show those of the file in the reverse order.
  pub record Reversed (addr i : ℕ) (s : k.State) : Type 0 where
    pub page0 : Shows addr i (2 * k.page_size) s
    pub page1 : Shows (addr + k.page_size) i k.page_size s
    pub page2 : Shows (addr + 2 * k.page_size) i 0 s

  -- The first three bytes of each page of the file, from the third page to the first.
  abbrev pub heads : List ℕ → List (List ℕ)
  heads c =
      take 3 (drop (2 * k.page_size) c) ∷ (take 3 (drop k.page_size c) ∷ (take 3 (drop 0 c) ∷ []))

  print_pages-heads :
      (addr i : ℕ) (c : List ℕ) (s : k.State)
      → Reversed addr i s
      → 3 ≤ k.page_size
      → law.file s i ≡ c
      → 2 * k.page_size + 3 ≤ length c
      → print_pages k addr (addr + k.page_size) (addr + 2 * k.page_size) s ≡ ok (heads c) s
  unfolding print_pages
  print_pages-heads addr i c s r wide bytes long =
      rw
        (
          first_three-shown addr i (2 * k.page_size) c s r.page0 wide bytes long,
          first_three-shown (addr + k.page_size) i k.page_size c s r.page1 wide bytes
              (omega (arith, long)),
          first_three-shown (addr + 2 * k.page_size) i 0 c s r.page2 wide bytes
              (omega (arith, long)),
        )
        refl

  module _ {F : Type 0} (refuse : Refuses k F) where
    -- The value is what is printed of the pages, and the pages stay.
    abbrev Shown : ℕ → List ℕ → List (List ℕ) → k.State → Type 0
    Shown i c lines s = (lines ≡ heads c) × ((addr : ℕ) × Reversed addr i s)

    map_pages-Shown :
        (fd addr i : ℕ) (c : List ℕ) (s : k.State)
        → 3 ≤ k.page_size
        → 2 * k.page_size + 3 ≤ length c
        → OnFile fd i c s
        → Ends F (Shown i c) (λ _. ⊥) (map_pages k fd addr s)
    unfolding map_pages
    map_pages-Shown fd addr i c s wide long on =
        let p = k.page_size in
        elim (maps_page addr fd (2 * p) i c s on) [
          | inl e ↦ rw e (failed (refuse.fixed addr p fd (2 * p) s e))
          | inr (e, on1, shows0, _) ↦
              let s1 = (k.map_fixed addr p fd (2 * p) s).1 in
              rw e (elim (maps_page (addr + p) fd p i c s1 on1) [
                | inl e1 ↦ rw e1 (failed (refuse.fixed (addr + p) p fd p s1 e1))
                | inr (e1, on2, shows1, keeps1) ↦
                    let s2 = (k.map_fixed (addr + p) p fd p s1).1 in
                    rw e1 (elim (maps_page (addr + 2 * p) fd 0 i c s2 on2) [
                      | inl e2 ↦ rw e2 (failed (refuse.fixed (addr + 2 * p) p fd 0 s2 e2))
                      | inr (e2, on3, shows2, keeps2) ↦
                          let reversed : Reversed addr i (k.map_fixed (addr + 2 * p) p fd 0 s2).1 =
                            record {
                              page0 =
                                  keeps2 addr (2 * p) (omega arith)
                                    (keeps1 addr (2 * p) (omega arith) shows0);
                              page1 = keeps2 (addr + p) p (omega arith) shows1;
                              page2 = shows2;
                            } in
                          rw (e2, print_pages-heads addr i c _ reversed wide on3.1 long)
                            (returned (refl, (addr, reversed)))
                    ])
              ])
        ]

    -- Where the file has at least three bytes of a third page, `pages_main` ends: it returns, and it
    -- printed the first three bytes of the third page, of the second and of the first, and the three pages
    -- of its mapping show the pages of the file in this order; or it exits with status 1, and then a call
    -- failed.
    pub pages_main-Shown :
        (i : ℕ) (c : List ℕ) (s : k.State)
        → 3 ≤ k.page_size
        → law.named s "49.4.inp" ≡ some i
        → law.file s i ≡ c
        → 2 * k.page_size + 3 ≤ length c
        → Ends F
            (λ lines s'. (lines ≡ heads c) × ((addr : ℕ) × Reversed addr i s'))
            (λ _. ⊥)
            (pages_main k s)
    unfolding pages_main
    pages_main-Shown i c s wide name bytes long = elim (law.opens "49.4.inp" i s name) [
      | inl e ↦ rw e (failed (refuse.opening "49.4.inp" s e))
      | inr (fd, e, open_fd, files) ↦
          let s1 = (k.open_file "49.4.inp" s).1 in
          rw e (elim (law.maps_anonymous (3 * k.page_size) s1) [
            | inl e1 ↦ rw e1 (failed (refuse.anonymous (3 * k.page_size) s1 e1))
            | inr (addr, e1, inodes, files1) ↦ rw e1 (
                map_pages-Shown fd addr i c _ wide long (
                  ap (λ (f : ℕ → Option ℕ). f fd) inodes ∙ open_fd,
                  ap (λ (f : ℕ → List ℕ). f i) (files1 ∙ files) ∙ bytes,
                ))
          ])
    ]
