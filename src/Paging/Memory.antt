-- ===== src/Paging/Memory.antt =====
-- Mappings of files as tlpi/c49/49.3.c and tlpi/c49/49.4.c use them, and what the manual pages promise.
use Prim.Native.String.{String}
use textbooks.Base.{
  ℕ, ◌+◌, ◌-◌, ◌*◌, ◌/◌, ◌≡◌, ◌⊎◌, ◌&&◌, ltb, leb, Option, none, some, List, length, get_elem?,
  if◌then◌else◌,
}

-- `none` stands for -1 and MAP_FAILED. `map_anonymous n` and `map_file n fd` choose the address;
-- `map_fixed a n fd o` maps the bytes of the file from `o` on to `a`. A load of a byte gives `none` where a
-- signal ends the program.
pub record Memory : Type 1 where
  pub State : Type 0
  pub page_size : ℕ
  pub open_file : String → State → Option ℕ × State
  pub fstat : ℕ → State → Option ℕ × State
  pub map_anonymous : ℕ → State → Option ℕ × State
  pub map_fixed : ℕ → ℕ → ℕ → ℕ → State → Option ℕ × State
  pub map_file : ℕ → ℕ → State → Option ℕ × State
  pub load : ℕ → State → Option ℕ

-- What is mapped at an address: a null byte, or the byte of a file at an offset.
pub data Place : Type 0 where
  null : Place
  byte_of : ℕ → ℕ → Place

-- The least multiple of `size` that is at least `n`.
abbrev pub round_up : ℕ → ℕ → ℕ
round_up size n = (n + size - 1) / size * size

-- The rest of a file's last page is null bytes, and behind it a load ends the program with SIGBUS, as it
-- does with SIGSEGV where nothing is mapped.
abbrev pub past_end : ℕ → List ℕ → ℕ → Option ℕ
past_end size c o = if ltb o (round_up size (length c)) then some 0 else none

abbrev pub loaded : ℕ → (ℕ → List ℕ) → Option Place → Option ℕ
loaded size file none = none
loaded size file (some null) = some 0
loaded size file (some (byte_of i o)) = elim (get_elem? (file i) o) [
  | none ↦ past_end size (file i) o
  | some b ↦ some b
]

-- The map with `n` addresses from `a` on changed.
abbrev pub replaced : (ℕ → Option Place) → ℕ → ℕ → (ℕ → Place) → ℕ → Option Place
replaced old a n new x = if leb a x && ltb x (a + n) then some (new (x - a)) else old x

pub record IsMemory (k : Memory) : Type 0 where
  pub place : k.State → ℕ → Option Place
  pub file : k.State → ℕ → List ℕ
  pub inode : k.State → ℕ → Option ℕ
  pub named : k.State → String → Option ℕ
  pub loads : (a : ℕ) (s : k.State) → k.load a s ≡ loaded k.page_size (file s) (place s a)
  -- The file is open then.
  pub opens :
      (path : String) (i : ℕ) (s : k.State)
      → named s path ≡ some i
      → ((k.open_file path s).0 ≡ none)
        ⊎ ((fd : ℕ) × ((k.open_file path s).0 ≡ some fd)
            × (inode (k.open_file path s).1 fd ≡ some i)
            × (file (k.open_file path s).1 ≡ file s))
  pub stats :
      (fd i : ℕ) (s : k.State)
      → inode s fd ≡ some i
      → ((k.fstat fd s).0 ≡ none)
        ⊎ (((k.fstat fd s).0 ≡ some (length (file s i)))
            × (inode (k.fstat fd s).1 ≡ inode s)
            × (file (k.fstat fd s).1 ≡ file s))
  -- Of an anonymous mapping only the address is used: the program maps others over its pages.
  pub maps_anonymous :
      (n : ℕ) (s : k.State)
      → ((k.map_anonymous n s).0 ≡ none)
        ⊎ ((a : ℕ) × ((k.map_anonymous n s).0 ≡ some a)
            × (inode (k.map_anonymous n s).1 ≡ inode s)
            × (file (k.map_anonymous n s).1 ≡ file s))
  pub maps_fixed :
      (a n q fd o i : ℕ) (s : k.State)
      → n ≡ q * k.page_size
      → inode s fd ≡ some i
      → ((k.map_fixed a n fd o s).0 ≡ none)
        ⊎ (((k.map_fixed a n fd o s).0 ≡ some a)
            × (inode (k.map_fixed a n fd o s).1 ≡ inode s)
            × (file (k.map_fixed a n fd o s).1 ≡ file s)
            × ((x : ℕ)
                → place (k.map_fixed a n fd o s).1 x
                  ≡ replaced (place s) a n (λ y. byte_of i (o + y)) x))
  pub maps_file :
      (n fd i : ℕ) (s : k.State)
      → inode s fd ≡ some i
      → ((k.map_file n fd s).0 ≡ none)
        ⊎ ((a : ℕ) × ((k.map_file n fd s).0 ≡ some a)
            × (file (k.map_file n fd s).1 ≡ file s)
            × ((x : ℕ)
                → place (k.map_file n fd s).1 x
                  ≡ replaced (place s) a (round_up k.page_size n) (byte_of i) x))

-- A call that fails is a reason in `F`.
pub record Refuses (k : Memory) (F : Type 0) : Type 0 where
  pub opening : (path : String) (s : k.State) → (k.open_file path s).0 ≡ none → F
  pub stating : (fd : ℕ) (s : k.State) → (k.fstat fd s).0 ≡ none → F
  pub anonymous : (n : ℕ) (s : k.State) → (k.map_anonymous n s).0 ≡ none → F
  pub fixed : (a n fd o : ℕ) (s : k.State) → (k.map_fixed a n fd o s).0 ≡ none → F
  pub mapping : (n fd : ℕ) (s : k.State) → (k.map_file n fd s).0 ≡ none → F
