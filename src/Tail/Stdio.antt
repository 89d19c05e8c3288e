-- ===== src/Tail/Stdio.antt =====
-- What the program relies on: streams give the bytes of their file, and a read of a regular file gives
-- all that is asked for and there.
use Prim.Native.String.{String}
use textbooks.Base.{ℕ, ◌≡◌, ◌≢◌, ◌⊎◌, true, false, none, some, List, [], ◌∷◌, ◌++◌, drop}
use textbooks.Base.Int.{ℤ}
use textbooks.Posix.{Posix, OpenFlags, Whence, IsPosix, file_of}
use textbooks.Tail.Defs.{Stdio}

-- `rest` is what a stream still gives, and `out` what went to the standard output.
pub record IsStdio (k : Posix) (law : IsPosix k) (io : Stdio k) : Type 0 where
  pub rest : ℕ → k.State → List ℕ
  pub out : k.State → List ℕ
  pub fdopens :
      (fd d : ℕ) (s : k.State)
      → (law.view s).desc fd ≡ some d
      → (out (io.fdopen fd s).1 ≡ out s)
        × (((io.fdopen fd s).0 ≡ none)
            ⊎ ((stream : ℕ) × ((io.fdopen fd s).0 ≡ some stream)
                × (rest stream (io.fdopen fd s).1
                    ≡ drop ((law.view s).offset d) (file_of (law.view s) d))))
  pub setvbufs :
      (stream : ℕ) (s : k.State)
      → (out (io.setvbuf stream s).1 ≡ out s)
        × (rest stream (io.setvbuf stream s).1 ≡ rest stream s)
  pub freads :
      (stream : ℕ) (s : k.State)
      → (out (io.fread stream s).1 ≡ out s)
        × (((io.fread stream s).0 ≡ none)
            ⊎ ((b : ℕ) × ((io.fread stream s).0 ≡ some b)
                × (rest stream s ≡ b ∷ rest stream (io.fread stream s).1)))
  pub fwrites :
      (stream b : ℕ) (s : k.State)
      → (rest stream (io.fwrite b s).1 ≡ rest stream s)
        × (((io.fwrite b s).0 ≡ false)
            ⊎ (((io.fwrite b s).0 ≡ true) × (out (io.fwrite b s).1 ≡ out s ++ (b ∷ []))))
  -- The calls on streams open and close no descriptor.
  pub keeps_fdopen : (fd : ℕ) (s : k.State) → (law.view (io.fdopen fd s).1).desc ≡ (law.view s).desc
  pub keeps_setvbuf :
      (stream : ℕ) (s : k.State) → (law.view (io.setvbuf stream s).1).desc ≡ (law.view s).desc
  pub keeps_fread :
      (stream : ℕ) (s : k.State) → (law.view (io.fread stream s).1).desc ≡ (law.view s).desc
  pub keeps_fwrite : (b : ℕ) (s : k.State) → (law.view (io.fwrite b s).1).desc ≡ (law.view s).desc
  -- The calls on descriptors do not write to the standard output.
  pub quiet_open :
      (path : String) (flags : OpenFlags) (s : k.State) → out (k.open_file path flags s).1 ≡ out s
  pub quiet_read : (fd n : ℕ) (s : k.State) → out (k.read fd n s).1 ≡ out s
  pub quiet_lseek : (fd : ℕ) (z : ℤ) (w : Whence) (s : k.State) → out (k.lseek fd z w s).1 ≡ out s
  pub quiet_close : (fd : ℕ) (s : k.State) → out (k.close fd s).1 ≡ out s

-- A stream that ends before its file, a byte that is not written, and a failure of setvbuf are
-- reasons in `F`.
pub record Disturbs (k : Posix) (law : IsPosix k) (io : Stdio k) (std : IsStdio k law io)
    (F : Type 0) : Type 0 where
  pub buffering : (stream : ℕ) (s : k.State) → (io.setvbuf stream s).0 ≡ false → F
  pub ending :
      (stream : ℕ) (s : k.State) → (io.fread stream s).0 ≡ none → std.rest stream s ≢ [] → F
  pub printing : (b : ℕ) (s : k.State) → (io.fwrite b s).0 ≡ false → F
