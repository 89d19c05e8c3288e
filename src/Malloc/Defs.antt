-- ===== src/Malloc/Defs.antt =====
-- State and operations of tlpi/c7/7.2.c. Addresses and `size_t` are numbers that wrap at 2 ^ 64.
use textbooks.Base.{
  ℕ, zero, suc, ◌+◌, ◌-◌, ◌*◌, ◌%◌, ◌^◌, Bool, true, false, ◌&&◌, ltb, leb, ◌==◌, if◌then◌else◌, ok,
  fault, out_of_fuel, Cmd, pure, ◌>>=◌, ◌>>◌,
}
use textbooks.Base.Int.{ℤ, pos, ltb_ℤ, leb_ℤ, signed32, signed64, neg_ℤ}

-- `sbrk` of the C library: it returns an address and moves the program break.
pub record Kernel : Type 1 where
  pub State : Type 0
  pub sbrk : ℤ → State → ℕ × State

pub record FreeL : Type 0 where
  pub chunk_size : ℕ
  pub previous : ℕ
  pub next : ℕ

abbrev pub len_size : ℕ
len_size = 8

abbrev pub free_l_size : ℕ
free_l_size = len_size + 2 * 8

abbrev pub word : ℕ
word = 2 ^ 64

abbrev pub long_max : ℤ
long_max = pos (2 ^ 63 - 1)

-- The variable `head`, the headers by address, and the state behind sbrk.
pub record Heap (k : Kernel) : Type 0 where
  pub head : ℕ
  pub nodes : ℕ → FreeL
  pub os : k.State

abbrev pub update : (ℕ → FreeL) → ℕ → FreeL → ℕ → FreeL
update m p n a = if a == p then n else m a

-- `int hole_sz = curr->chunk_size - size`
unfoldable pub hole_sz : ℕ → ℕ → ℤ
hole_sz chunk size = signed32 ((chunk + word - size) % word)

module _ {k : Kernel} where
  -- `sbrk(0)`
  abbrev pub program_break : Heap k → ℕ
  program_break h = (k.sbrk (pos 0) h.os).0

  -- A header can be accessed at a non-null address below the program break.
  abbrev pub is_mapped : Heap k → ℕ → Bool
  is_mapped h p = ltb 0 p && leb (p + free_l_size) (program_break h)

  unfoldable pub load : ℕ → Cmd (Heap k) FreeL
  load p h = if is_mapped h p then ok (h.nodes p) h else fault

  unfoldable pub store : ℕ → FreeL → Cmd (Heap k) (Unit {0})
  store p n h = if is_mapped h p then ok tt (record h { nodes = update h.nodes p n }) else fault

  abbrev pub set_chunk_size : ℕ → ℕ → Cmd (Heap k) (Unit {0})
  set_chunk_size p v = do n ← load p; store p (record n { chunk_size = v })

  abbrev pub set_previous : ℕ → ℕ → Cmd (Heap k) (Unit {0})
  set_previous p v = do n ← load p; store p (record n { previous = v })

  abbrev pub set_next : ℕ → ℕ → Cmd (Heap k) (Unit {0})
  set_next p v = do n ← load p; store p (record n { next = v })

  abbrev pub get_head : Cmd (Heap k) ℕ
  get_head h = ok h.head h

  abbrev pub set_head : ℕ → Cmd (Heap k) (Unit {0})
  set_head p h = ok tt (record h { head = p })

  abbrev pub sbrk : ℤ → Cmd (Heap k) ℕ
  sbrk n h = let (p, os') = k.sbrk n h.os in ok p (record h { os = os' })

  -- `head`, or `entry->previous->next`, is pointed behind the entry, and `entry->next->previous`
  -- before it.
  unfoldable pub pop_from_free_list : ℕ → Cmd (Heap k) (Unit {0})
  pop_from_free_list entry = do
    e ← load entry
    if e.previous == 0 then set_head e.next else set_next e.previous e.next
    e ← load entry
    if e.next == 0 then pure tt else set_previous e.next e.previous

  -- The loop over the free list that looks for the best candidate.
  unfoldable pub best_fit : ℕ → ℕ → ℕ → ℕ → ℤ → Cmd (Heap k) ℕ
  best_fit zero size curr best gap = λ _. out_of_fuel
  best_fit (suc fuel) size curr best gap = if curr == 0 then pure best else do
    n ← load curr
    let hole = hole_sz n.chunk_size size
    let better = ltb_ℤ hole gap && leb_ℤ (pos 0) hole
    best_fit fuel size n.next (if better then curr else best) (if better then hole else gap)

  -- A block from `sbrk`. The links are cleared only where the free list was empty.
  unfoldable pub new_block : ℕ → Bool → Cmd (Heap k) ℕ
  new_block blob_size clear = do
    entry ← sbrk (signed64 blob_size)
    if entry == 0 then pure 0 else do
      set_chunk_size entry ((blob_size + word - len_size) % word)
      if clear then (do set_next entry 0; set_previous entry 0) else pure tt
      pure ((entry + len_size) % word)

  -- `fuel` bounds the length of the free list.
  unfoldable pub c_malloc : ℕ → ℕ → Cmd (Heap k) ℕ
  c_malloc fuel size = do
    let blob_size = (size + free_l_size) % word
    head ← get_head
    if head == 0 then new_block blob_size true else do
      best ← best_fit fuel size head 0 long_max
      if best == 0
          then new_block blob_size false
          else do pop_from_free_list best; pure ((best + len_size) % word)

  -- The inner loop of `c_free`: the first entry that ends at the break, or 0.
  unfoldable pub find_top : ℕ → ℕ → ℕ → Cmd (Heap k) ℕ
  find_top zero top entry = λ _. out_of_fuel
  find_top (suc fuel) top entry = if entry == 0 then pure 0 else do
    e ← load entry
    let rest = find_top fuel top e.next
    if top == (entry + len_size + e.chunk_size) % word then pure entry else rest

  -- The outer loop of `c_free`: while an entry ends at the break it is given back.
  unfoldable pub release : ℕ → ℕ → Cmd (Heap k) (Unit {0})
  release zero fuel = λ _. out_of_fuel
  release (suc rounds) fuel = do
    top ← sbrk (pos 0)
    head ← get_head
    entry ← find_top fuel top head
    if entry == 0 then pure tt else do
      pop_from_free_list entry
      e ← load entry
      sbrk (neg_ℤ (signed32 (len_size + e.chunk_size)))
      release rounds fuel

  unfoldable pub c_free : ℕ → ℕ → Cmd (Heap k) (Unit {0})
  c_free fuel ptr = if ptr == 0 then pure tt else do
    let entry = (ptr + word - len_size) % word
    set_previous entry 0
    head ← get_head
    set_next entry head
    set_head entry
    release fuel fuel
