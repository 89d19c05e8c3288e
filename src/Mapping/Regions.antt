-- ===== src/Mapping/Regions.antt =====
-- What the manual pages promise of mappings.
use textbooks.Base.{
  ℕ, ◌-◌, ◌≡◌, ◌≢◌, ◌≤◌, ◌⊎◌, Bool, true, false, Option, none, some, List, ◌++◌, length, take, drop,
  replicate, ok,
}
use textbooks.Posix.{Posix, IsPosix, OpenFlags, file_of, update}
use Prim.Native.String.{String}
use textbooks.Mapping.Defs.{Maps}

-- The first `size` bytes of a file, private or shared.
pub record Region : Type 0 where
  pub inode : ℕ
  pub size : ℕ
  pub shared : Bool

-- ftruncate(2): what is too long is cut, what is missing is null bytes.
abbrev pub resize : ℕ → List ℕ → List ℕ
resize n c = take n (c ++ replicate (n - length c) 0)

pub record IsMaps (k : Posix) (law : IsPosix k) (m : Maps k) : Type 0 where
  -- What is mapped at an address.
  pub region : k.State → ℕ → Option Region
  pub stats :
      (fd d : ℕ) (s : k.State)
      → (law.view s).desc fd ≡ some d
      → (law.view (m.fstat fd s).1 ≡ law.view s)
        × (region (m.fstat fd s).1 ≡ region s)
        × (((m.fstat fd s).0 ≡ none) ⊎ ((m.fstat fd s).0 ≡ some (length (file_of (law.view s) d))))
  pub resizes :
      (fd d n : ℕ) (s : k.State)
      → (law.view s).desc fd ≡ some d
      → (region (m.ftruncate fd n s).1 ≡ region s)
        × (((m.ftruncate fd n s).0 ≡ false)
            ⊎ (((m.ftruncate fd n s).0 ≡ true)
                × (law.view (m.ftruncate fd n s).1 ≡ record (law.view s) {
                  file =
                      update
                        (law.view s).file
                        ((law.view s).inode d)
                        (resize n (file_of (law.view s) d));
                })))
  -- A new mapping begins where none was.
  pub maps :
      (fd d n : ℕ) (shared : Bool) (s : k.State)
      → (law.view s).desc fd ≡ some d
      → (law.view (m.mmap fd n shared s).1 ≡ law.view s)
        × (((m.mmap fd n shared s).0 ≡ none)
            ⊎ ((a : ℕ) × ((m.mmap fd n shared s).0 ≡ some a)
                × (region s a ≡ none)
                × (region (m.mmap fd n shared s).1
                    ≡ update (region s) a (
                        some
                          (record { inode = (law.view s).inode d; size = n; shared = shared })))))
  -- From a private mapping of one file to a shared one of another, as far as both files have bytes.
  pub copies :
      (src dst n i j : ℕ) (s : k.State)
      → region s src ≡ some (record { inode = i; size = n; shared = false })
      → region s dst ≡ some (record { inode = j; size = n; shared = true })
      → i ≢ j
      → n ≤ length ((law.view s).file i)
      → n ≤ length ((law.view s).file j)
      → (s' : k.State) × (m.memcpy dst src n s ≡ ok tt s')
        × (law.view s' ≡ record (law.view s) {
          file =
              update
                (law.view s).file
                j
                (take n ((law.view s).file i) ++ drop n ((law.view s).file j));
        })
  pub unmaps : (a n : ℕ) (s : k.State) → law.view (m.munmap a n s).1 ≡ law.view s
  -- The mappings stay when files are opened and closed.
  pub opens :
      (path : String) (flags : OpenFlags) (s : k.State)
      → region (k.open_file path flags s).1 ≡ region s
  pub closes : (fd : ℕ) (s : k.State) → region (k.close fd s).1 ≡ region s

-- A call on an open descriptor that fails, or one of munmap, is a reason in `F`.
pub record Refuses (k : Posix) (law : IsPosix k) (m : Maps k) (F : Type 0) : Type 0 where
  pub stating :
      (fd d : ℕ) (s : k.State) → (law.view s).desc fd ≡ some d → (m.fstat fd s).0 ≡ none → F
  pub resizing :
      (fd d n : ℕ) (s : k.State)
      → (law.view s).desc fd ≡ some d
      → (m.ftruncate fd n s).0 ≡ false
      → F
  pub mapping :
      (fd d n : ℕ) (shared : Bool) (s : k.State)
      → (law.view s).desc fd ≡ some d
      → (m.mmap fd n shared s).0 ≡ none
      → F
  pub unmapping : (a n : ℕ) (s : k.State) → (m.munmap a n s).0 ≡ false → F
