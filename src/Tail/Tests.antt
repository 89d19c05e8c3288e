-- ===== src/Tail/Tests.antt =====
-- 13.5.c on a disk with one file, over streams that copy their file when they are opened.
use Prim.Native.String.{String}
use textbooks.Base.{
  ℕ, ◌≡◌, ◌⊎◌, refl, ap, inl, inr, true, false, Option, none, some, List, [], ◌∷◌, ◌++◌, drop,
  if◌then◌else◌, ◌==◌, Run, ok,
}
use textbooks.Base.Int.{pos}
use textbooks.Base.Ends.{Ends}
use textbooks.Posix.{Posix, IsPosix}
use textbooks.Posix.Simple.{Disk, simple, desc_inv, disk_view, simple-IsPosix}
use textbooks.Posix.Extended.{extended, extended-IsPosix}
use textbooks.Tail.Defs.{
  Opt, lines_of, Stdio, scan_back, tail_chunk, tail_loop, tail_search, print_loop, print_rest,
  tail_file, tail_operand, tail_options, tail_main,
}
use textbooks.Tail.Stdio.{IsStdio}

-- The bytes that the stream still gives, and those that were printed.
abbrev Streams : Type 0
Streams = List ℕ × List ℕ

abbrev kernel : Posix
kernel = extended simple Streams

abbrev kernel-IsPosix : IsPosix kernel
kernel-IsPosix = extended-IsPosix simple-IsPosix Streams

abbrev next_byte : ℕ → Disk × Streams → Option ℕ × (Disk × Streams)
next_byte stream (s, ([], out)) = (none, (s, ([], out)))
next_byte stream (s, (b ∷ rest, out)) = (some b, (s, (rest, out)))

abbrev streams : Stdio kernel
streams = record {
  fdopen = λ fd s. (some 0, (s.0, (drop (s.0.offset fd) (s.0.file (s.0.inode fd)), s.1.1)));
  setvbuf = λ stream s. (true, s);
  fread = next_byte;
  fwrite = λ b s. (true, (s.0, (s.1.0, s.1.1 ++ (b ∷ []))));
}

next_byte-gives :
    (stream : ℕ) (s : Disk × Streams)
    → ((next_byte stream s).1.1.1 ≡ s.1.1)
      × (((next_byte stream s).0 ≡ none)
          ⊎ ((b : ℕ) × ((next_byte stream s).0 ≡ some b)
              × (s.1.0 ≡ b ∷ (next_byte stream s).1.1.0)))
next_byte-gives stream (s, ([], out)) = (refl, inl refl)
next_byte-gives stream (s, (b ∷ rest, out)) = (refl, inr (b, refl, refl))

next_byte-keeps :
    (stream : ℕ) (s : Disk × Streams)
    → (disk_view (next_byte stream s).1.0).desc ≡ (disk_view s.0).desc
next_byte-keeps stream (s, ([], out)) = refl
next_byte-keeps stream (s, (b ∷ rest, out)) = refl

abbrev streams-IsStdio : IsStdio kernel kernel-IsPosix streams
unfolding simple-IsPosix
streams-IsStdio = record {
  rest = λ stream s. s.1.0;
  out = λ s. s.1.1;
  fdopens = λ fd d s e.
      let (t, q) = desc_inv s.0 fd d e in
      (refl, inr (0, refl, ap (λ (x : ℕ). drop (s.0.offset x) (s.0.file (s.0.inode x))) q));
  setvbufs = λ stream s. (refl, refl);
  freads = next_byte-gives;
  fwrites = λ stream b s. (refl, inr (refl, refl));
  keeps_fdopen = λ fd s. refl;
  keeps_setvbuf = λ stream s. refl;
  keeps_fread = λ stream s. next_byte-keeps stream s;
  keeps_fwrite = λ b s. refl;
  quiet_open = λ path flags s. refl;
  quiet_read = λ fd n s. refl;
  quiet_lseek = λ fd z w s. refl;
  quiet_close = λ fd s. refl;
}

-- A file "a" of five lines.
abbrev five_lines : List ℕ
five_lines =
    97
    ∷ (98
        ∷ (10
            ∷ (99
                ∷ (10 ∷ (100 ∷ (101 ∷ (10 ∷ (102 ∷ (103 ∷ (104 ∷ (10 ∷ (105 ∷ (10 ∷ [])))))))))))))

abbrev disk : Disk × Streams
disk = (
  record {
    count = 3;
    is_open = λ _. false;
    inode = λ _. 0;
    offset = λ _. 0;
    append = λ _. false;
    file = λ i. if i == 0 then five_lines else [];
    names = "a" ∷ [];
  },
  ([], []),
)

abbrev printed : Run (Disk × Streams) (Unit {0}) → List ℕ
printed (ok a s) = s.1.1
printed _ = []

abbrev options : List String → List Opt × ℕ
options argv = (lines_of "3" ∷ [], 2)

-- The last three lines, which begin in the first of the two chunks that are read last.
last_lines :
    printed (tail_main kernel streams options (λ _. pos 3) 20 ("tail" ∷ ("-n3" ∷ ("a" ∷ []))) disk)
    ≡ 100 ∷ (101 ∷ (10 ∷ (102 ∷ (103 ∷ (104 ∷ (10 ∷ (105 ∷ (10 ∷ []))))))))
unfolding scan_back tail_chunk tail_loop tail_search print_loop print_rest tail_file tail_operand
    tail_options tail_main
last_lines = refl

abbrev three : ℕ
three = 3
