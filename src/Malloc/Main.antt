-- ===== src/Malloc/Main.antt =====
-- `main` of tlpi/c7/7.2.c. The char, the ints and the longs of a block overlay the words `previous`
-- and `next` of its header; what lies behind them in the block is in `ints`.
use textbooks.Base.{
  ℕ, zero, suc, ◌+◌, ◌-◌, ◌*◌, ◌/◌, ◌%◌, ◌^◌, Bool, ◌&&◌, ltb, leb, ◌==◌, if◌then◌else◌, Run, ok,
  exit, fault, out_of_fuel, Cmd, pure, ◌>>=◌, ◌>>◌,
}
use textbooks.Malloc.Defs.{
  Kernel, Heap, len_size, word, program_break, load, store, set_previous, set_next, c_malloc,
  c_free,
}

-- The heap, and the ints by address.
pub record Program (k : Kernel) : Type 0 where
  pub heap : Heap k
  pub ints : ℕ → ℕ

-- What `main` prints: the locations, and the values it reads back.
pub record Printed : Type 0 where
  pub ch : ℕ
  pub letter : ℕ
  pub arr : ℕ
  pub ints : ℕ × ℕ
  pub arr2 : ℕ
  pub longs : ℕ × ℕ

-- The list has at most one entry when a block is given back.
abbrev pub list_fuel : ℕ
list_fuel = 3

-- The header of the block at `p`.
abbrev pub header : ℕ → ℕ
header p = (p + word - len_size) % word

-- A word whose lower or upper half becomes `v`.
unfoldable pub put_int : ℕ → ℕ → ℕ → ℕ
put_int zero w v = w - w % 2 ^ 32 + v
put_int (suc _) w v = w % 2 ^ 32 + v * 2 ^ 32

unfoldable pub int_of : ℕ → ℕ → ℕ
int_of zero w = w % 2 ^ 32
int_of (suc _) w = w / 2 ^ 32 % 2 ^ 32

module _ {k : Kernel} where
  abbrev pub resume : {A : Type 0} → Program k → Run (Heap k) A → Run (Program k) A
  resume s (ok a h) = ok a (record s { heap = h })
  resume s (exit c h) = exit c (record s { heap = h })
  resume s fault = fault
  resume s out_of_fuel = out_of_fuel

  abbrev pub on_heap : {A : Type 0} → Cmd (Heap k) A → Cmd (Program k) A
  on_heap m s = resume s (m s.heap)

  unfoldable pub set_char : ℕ → ℕ → Cmd (Heap k) (Unit {0})
  set_char p v = do
    n ← load (header p)
    store (header p) (record n { previous = n.previous - n.previous % 2 ^ 8 + v })

  unfoldable pub get_char : ℕ → Cmd (Heap k) ℕ
  get_char p = do n ← load (header p); pure (n.previous % 2 ^ 8)

  abbrev pub within : Program k → ℕ → Bool
  within s a = ltb 0 a && leb (a + 4) (program_break s.heap)

  -- `p[i] = v` of an int *
  unfoldable pub set_int : ℕ → ℕ → ℕ → Cmd (Program k) (Unit {0})
  set_int p i v =
      if ltb i 2
      then on_heap (do
        n ← load (header p)
        store (header p) (record n { previous = put_int i n.previous v }))
      else if ltb i 4
      then on_heap
          (do n ← load (header p); store (header p) (record n { next = put_int (i - 2) n.next v }))
      else λ s.
          if within s (p + 4 * i)
          then ok tt (record s { ints = λ a. if a == p + 4 * i then v else s.ints a })
          else fault

  unfoldable pub get_int : ℕ → ℕ → Cmd (Program k) ℕ
  get_int p i =
      if ltb i 2
      then on_heap (do n ← load (header p); pure (int_of i n.previous))
      else if ltb i 4
      then on_heap (do n ← load (header p); pure (int_of (i - 2) n.next))
      else λ s. if within s (p + 4 * i) then ok (s.ints (p + 4 * i)) s else fault

  unfoldable pub use_ch : ℕ → Cmd (Program k) ℕ
  use_ch ch = on_heap (do set_char ch 82; get_char ch)

  unfoldable pub use_arr : ℕ → Cmd (Program k) (ℕ × ℕ)
  use_arr arr = do
    set_int arr 0 1
    set_int arr 1 12
    set_int arr 2 45
    set_int arr 3 90
    set_int arr 4 101
    first ← get_int arr 0
    last ← get_int arr 4
    pure (first, last)

  -- The longs are the two words.
  unfoldable pub use_arr2 : ℕ → Cmd (Program k) (ℕ × ℕ)
  use_arr2 arr2 = on_heap (do
    set_previous (header arr2) 34
    set_next (header arr2) 33
    n ← load (header arr2)
    pure (n.previous, n.next))

  -- `ch` and `arr`, until `arr` is given back.
  unfoldable pub first_blocks : Cmd (Program k) (ℕ × ℕ × ℕ × (ℕ × ℕ))
  first_blocks = do
    ch ← on_heap (c_malloc list_fuel 1)
    letter ← use_ch ch
    arr ← on_heap (c_malloc list_fuel (4 * 5))
    ints ← use_arr arr
    on_heap (c_free list_fuel arr)
    pure (ch, letter, arr, ints)

  -- `arr2`, until it and `ch` are given back.
  unfoldable pub last_block : ℕ → Cmd (Program k) (ℕ × (ℕ × ℕ))
  last_block ch = do
    arr2 ← on_heap (c_malloc list_fuel (8 * 2))
    longs ← use_arr2 arr2
    on_heap (c_free list_fuel ch)
    on_heap (c_free list_fuel arr2)
    pure (arr2, longs)

  unfoldable pub main : Cmd (Program k) Printed
  main = do
    (ch, letter, arr, ints) ← first_blocks
    (arr2, longs) ← last_block ch
    pure (record { ch = ch; letter = letter; arr = arr; ints = ints; arr2 = arr2; longs = longs })
