-- ===== src/Mapping/Tests.antt =====
-- 49.1.c on a disk with one file and a table of mappings.
use mathlib.Core.Path.{fun_ext}
use textbooks.Base.{
  ℕ, ◌+◌, ◌≡◌, refl, inr, true, false, Bool, ◌&&◌, Option, none, some, List, [], ◌∷◌, ◌++◌, arith,
  length, take, drop, if◌then◌else◌, ◌==◌, ltb, Run, ok, fault,
}
use textbooks.Base.Ends.{Ends}
use textbooks.Posix.{Posix, IsPosix, update}
use textbooks.Posix.Simple.{Disk, simple, desc_inv, simple-IsPosix, simple_reasons}
use textbooks.Posix.Extended.{extended, extended_reasons, extended-IsPosix}
use textbooks.Copy.Theorems.{IsCopied}
use textbooks.Mapping.Defs.{
  Maps, copy_mapped, map_output, open_output, map_input, map_files, map_main,
}
use textbooks.Mapping.Regions.{Region, resize, IsMaps, Refuses}
use textbooks.Mapping.Theorems.{map_main-IsCopied}

-- The mappings made so far have the addresses below `count`.
record Table : Type 0 where
  pub count : ℕ
  pub regions : ℕ → Option Region

abbrev region_at : Disk × Table → ℕ → Option Region
region_at s a = if ltb a s.1.count then s.1.regions a else none

abbrev kernel : Posix
kernel = extended simple Table

abbrev kernel-IsPosix : IsPosix kernel
kernel-IsPosix = extended-IsPosix simple-IsPosix Table

abbrev open_in : ℕ → Disk × Table → Bool
open_in fd s = ltb fd s.0.count && s.0.is_open fd

abbrev put_file : ℕ → List ℕ → Disk × Table → Disk × Table
put_file i c s = (record s.0 { file = update s.0.file i c }, s.1)

abbrev copy_regions :
    ℕ → Disk × Table → Option Region → Option Region → Run (Disk × Table) (Unit {0})
copy_regions n s (some from) (some to) =
    ok tt (put_file to.inode (take n (s.0.file from.inode) ++ drop n (s.0.file to.inode)) s)
copy_regions n s _ _ = fault

abbrev tables : Maps kernel
tables = record {
  fstat = λ fd s. (if open_in fd s then some (length (s.0.file (s.0.inode fd))) else none, s);
  ftruncate = λ fd n s.
      if open_in fd s
      then (true, put_file (s.0.inode fd) (resize n (s.0.file (s.0.inode fd))) s)
      else (false, s);
  mmap = λ fd n shared s. (
    some s.1.count,
    (
      s.0,
      record {
        count = s.1.count + 1;
        regions =
            update s.1.regions s.1.count
              (some (record { inode = s.0.inode fd; size = n; shared = shared }));
      },
    ),
  );
  munmap = λ a n s. (true, s);
  memcpy = λ dst src n s. copy_regions n s (region_at s src) (region_at s dst);
}

tables-IsMaps : IsMaps kernel kernel-IsPosix tables
unfolding simple-IsPosix
tables-IsMaps = record {
  region = region_at;
  stats = λ fd d s e. let (t, q) = desc_inv s.0 fd d e in (refl, refl, inr (rw (t, ← q) refl));
  resizes = λ fd d n s e. let (t, q) = desc_inv s.0 fd d e in rw (t, ← q) (refl, inr (refl, refl));
  maps = λ fd d n shared s e.
      let (t, q) = desc_inv s.0 fd d e in
      (refl, inr (s.1.count, refl, ground arith, rw (← q) (fun_ext λ a. ground arith)));
  copies = λ src dst n i j s from to ne le le'. rw (from, to) (_, refl, refl);
  unmaps = λ a n s. refl;
  opens = λ path flags s. refl;
  closes = λ fd s. refl;
}

-- A file "a" of three bytes.
abbrev disk : Disk × Table
disk = (
  record {
    count = 3;
    is_open = λ _. false;
    inode = λ _. 0;
    offset = λ _. 0;
    append = λ _. false;
    file = λ i. if i == 0 then 7 ∷ (0 ∷ (9 ∷ [])) else [];
    names = "a" ∷ [];
  },
  record { count = 0; regions = λ _. none },
)

abbrev bytes_of_copy : Run (Disk × Table) (Unit {0}) → List ℕ
bytes_of_copy (ok a s) = s.0.file 1
bytes_of_copy _ = []

copied :
    bytes_of_copy (map_main kernel tables ("copy" ∷ ("a" ∷ ("b" ∷ []))) disk) ≡ 7 ∷ (0 ∷ (9 ∷ []))
unfolding copy_mapped map_output open_output map_input map_files map_main
copied = refl

refusals : Refuses kernel kernel-IsPosix tables ⊥
unfolding simple-IsPosix
refusals = record {
  stating = λ fd d s e h. let (t, _) = desc_inv s.0 fd d e in cc (rw t at h);
  resizing = λ fd d n s e h. let (t, _) = desc_inv s.0 fd d e in cc (rw t at h);
  mapping = λ fd d n shared s e h. cc;
  unmapping = λ a n s h. cc;
}

map_main-IsCopied_example :
    Ends ⊥
      (λ _. IsCopied kernel kernel-IsPosix "a" "b" (7 ∷ (0 ∷ (9 ∷ []))))
      (λ _. ⊥)
      (map_main kernel tables ("copy" ∷ ("a" ∷ ("b" ∷ []))) disk)
unfolding simple-IsPosix
map_main-IsCopied_example =
    map_main-IsCopied kernel kernel-IsPosix tables tables-IsMaps "a" "b" 0 (7 ∷ (0 ∷ (9 ∷ [])))
      (extended_reasons simple-IsPosix simple_reasons Table) refusals "copy" disk refl refl
      (λ e. cc)
