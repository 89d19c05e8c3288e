-- ===== src/Posix/Promises.antt =====
-- What the manual pages promise of the calls on regular files, errors and short counts included.
use Prim.Native.String.{String}
use mathlib.Core.Path.{subst₂}
use textbooks.Base.{
  ℕ, ◌+◌, ◌-◌, ◌≡◌, ◌≢◌, ◌⊎◌, ◌≤◌, ◌<◌, true, false, Option, none, some, List, length, take, drop,
  min,
}
use textbooks.Base.Int.{ℤ, pos_part, neg_part}
use textbooks.Posix.Calls.{Posix, Whence, OpenFlags}
use textbooks.Posix.Files.{View, file_of, move, written, origin, opened, update}

-- read(2) at the offset `o` of the bytes `c`: an error, or at most `n` of the bytes from there on; none
-- of them only at the end.
abbrev pub ReadAt : View → ℕ → ℕ → List ℕ → ℕ → Option (List ℕ) → View → Type 0
ReadAt v d n c o r v' =
    ((r ≡ none) × (v' ≡ v))
    ⊎ ((m : ℕ) × (r ≡ some (take m (drop o c)))
        × (m ≤ n)
        × (m ≤ length c - o)
        × (0 < n → o < length c → 0 < m)
        × (v' ≡ move v d (o + m)))

abbrev pub ReadSpec : View → ℕ → ℕ → Option (List ℕ) → View → Type 0
ReadSpec v d n r v' = ReadAt v d n (file_of v d) (v.offset d) r v'

-- write(2): an error, or at most all of the bytes are written at the offset, or at the end.
abbrev pub WriteSpec : View → ℕ → List ℕ → Option ℕ → View → Type 0
WriteSpec v d bs r v' =
    ((r ≡ none) × (v' ≡ v))
    ⊎ ((m : ℕ) × (r ≡ some m) × (m ≤ length bs) × (v' ≡ written v d (take m bs)))

-- lseek(2): an error, or the offset counts from the origin.
abbrev pub SeekSpec : View → ℕ → ℤ → Whence → Option ℕ → View → Type 0
SeekSpec v d z w r v' =
    ((r ≡ none) × (v' ≡ v))
    ⊎ ((neg_part z ≤ origin v d w + pos_part z)
        × (r ≡ some (origin v d w + pos_part z - neg_part z))
        × (v' ≡ move v d (origin v d w + pos_part z - neg_part z)))

-- open(2): an error, or a new descriptor with a new description at offset 0, on the file of that name or
-- on a new one.
abbrev pub OpenSpec : View → String → OpenFlags → Option ℕ → View → Type 0
OpenSpec v path flags r v' =
    ((r ≡ none) × (v' ≡ v))
    ⊎ ((fd d i : ℕ) × (r ≡ some fd)
        × (v.desc fd ≡ none)
        × ((other : ℕ) → v.desc other ≢ some d)
        × ((v.named path ≡ some i)
            ⊎ ((v.named path ≡ none)
                × (flags.create ≡ true)
                × ((name : String) → v.named name ≢ some i)))
        × (v' ≡ opened v path flags fd d i))

pub record IsPosix (k : Posix) : Type 1 where
  pub view : k.State → View
  pub opens :
      (path : String) (flags : OpenFlags) (s : k.State)
      → OpenSpec
          (view s)
          path
          flags
          (k.open_file path flags s).0
          (view (k.open_file path flags s).1)
  pub reads :
      (fd n d : ℕ) (s : k.State)
      → (view s).desc fd ≡ some d
      → ReadSpec (view s) d n (k.read fd n s).0 (view (k.read fd n s).1)
  pub writes :
      (fd d : ℕ) (bs : List ℕ) (s : k.State)
      → (view s).desc fd ≡ some d
      → WriteSpec (view s) d bs (k.write fd bs s).0 (view (k.write fd bs s).1)
  pub seeks :
      (fd d : ℕ) (z : ℤ) (w : Whence) (s : k.State)
      → (view s).desc fd ≡ some d
      → SeekSpec (view s) d z w (k.lseek fd z w s).0 (view (k.lseek fd z w s).1)
  pub closes :
      (fd : ℕ) (s : k.State)
      → view (k.close fd s).1 ≡ record (view s) { desc = update (view s).desc fd none }
  pub syncs : (fd : ℕ) (s : k.State) → view (k.fsync fd s).1 ≡ view s
  pub says : (s : k.State) → view (k.err_msg s) ≡ view s

-- The promise on reading a file whose bytes and offset are known.
pub reads_at :
    (k : Posix) (law : IsPosix k) (fd n d : ℕ) (s : k.State) (c : List ℕ) (o : ℕ)
    → (law.view s).desc fd ≡ some d
    → file_of (law.view s) d ≡ c
    → (law.view s).offset d ≡ o
    → ReadAt (law.view s) d n c o (k.read fd n s).0 (law.view (k.read fd n s).1)
reads_at k law fd n d s c o open_fd bytes here =
    subst₂ (λ c' o'. ReadAt (law.view s) d n c' o' (k.read fd n s).0 (law.view (k.read fd n s).1))
      bytes here (law.reads fd n d s open_fd)

-- Any call that fails, or a write that falls short, is a reason in `F`.
pub record Blames (k : Posix) (F : Type 0) : Type 0 where
  pub opening :
      (path : String) (flags : OpenFlags) (s : k.State) → (k.open_file path flags s).0 ≡ none → F
  pub reading : (fd n : ℕ) (s : k.State) → (k.read fd n s).0 ≡ none → F
  pub writing : (fd : ℕ) (bs : List ℕ) (s : k.State) → (k.write fd bs s).0 ≢ some (length bs) → F
  pub seeking : (fd : ℕ) (z : ℤ) (w : Whence) (s : k.State) → (k.lseek fd z w s).0 ≡ none → F
  pub closing : (fd : ℕ) (s : k.State) → (k.close fd s).0 ≡ false → F
  pub syncing : (fd : ℕ) (s : k.State) → (k.fsync fd s).0 ≢ none → F

-- A call that could have succeeded fails, or a write falls short: such a call is a reason in `F`. A call
-- on a descriptor that is not open, of a name that is not there, or to a position before the file is
-- none, so a kernel that has what it is asked for gives no reason: there `F` can be empty.
pub record Reasons (k : Posix) (law : IsPosix k) (F : Type 0) : Type 0 where
  pub opening :
      (path : String) (flags : OpenFlags) (i : ℕ) (s : k.State)
      → (law.view s).named path ≡ some i
      → (k.open_file path flags s).0 ≡ none
      → F
  pub creating :
      (path : String) (flags : OpenFlags) (s : k.State)
      → flags.create ≡ true
      → (k.open_file path flags s).0 ≡ none
      → F
  pub reading :
      (fd n d : ℕ) (s : k.State) → (law.view s).desc fd ≡ some d → (k.read fd n s).0 ≡ none → F
  pub writing :
      (fd d : ℕ) (bs : List ℕ) (s : k.State)
      → (law.view s).desc fd ≡ some d
      → (k.write fd bs s).0 ≢ some (length bs)
      → F
  pub seeking :
      (fd d : ℕ) (z : ℤ) (w : Whence) (s : k.State)
      → (law.view s).desc fd ≡ some d
      → neg_part z ≤ origin (law.view s) d w + pos_part z
      → (k.lseek fd z w s).0 ≡ none
      → F
  pub closing :
      (fd d : ℕ) (s : k.State) → (law.view s).desc fd ≡ some d → (k.close fd s).0 ≡ false → F
  pub syncing :
      (fd d : ℕ) (s : k.State) → (law.view s).desc fd ≡ some d → (k.fsync fd s).0 ≢ none → F

-- read(2) on a regular file: unless it fails, it gives as much as is asked for and there.
abbrev pub WholeReads : (k : Posix) → IsPosix k → Type 0
WholeReads k law =
    (fd n d : ℕ) (s : k.State) (bs : List ℕ)
    → (law.view s).desc fd ≡ some d
    → (k.read fd n s).0 ≡ some bs
    → length bs ≡ min n (length (file_of (law.view s) d) - (law.view s).offset d)
