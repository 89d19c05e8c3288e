-- ===== src/Posix/Extended.antt =====
-- A kernel with more state beside it, which its calls leave alone, and the simple one with a standard
-- output and one stream.
use textbooks.Base.{
  ℕ, ◌-◌, ◌≡◌, some, List, arith, length, take, drop, min, length-take, length-drop,
}
use textbooks.Posix.Calls.{Posix}
use textbooks.Posix.Files.{file_of}
use textbooks.Posix.Promises.{IsPosix, Reasons}
use textbooks.Posix.Simple.{Disk, disk_view, simple, desc_inv}

abbrev lift : {S A X : Type 0} → (S → A × S) → S × X → A × (S × X)
lift f (s, x) = ((f s).0, ((f s).1, x))

abbrev pub extended : Posix → Type 0 → Posix
extended k X = record {
  State = k.State × X;
  open_file = λ path flags. lift (k.open_file path flags);
  read = λ fd n. lift (k.read fd n);
  write = λ fd bs. lift (k.write fd bs);
  lseek = λ fd z w. lift (k.lseek fd z w);
  close = λ fd. lift (k.close fd);
  fsync = λ fd. lift (k.fsync fd);
  err_msg = λ s. (k.err_msg s.0, s.1);
}

abbrev pub extended-IsPosix : {k : Posix} → IsPosix k → (X : Type 0) → IsPosix (extended k X)
extended-IsPosix law X = record {
  view = λ s. law.view s.0;
  opens = λ path flags s. law.opens path flags s.0;
  reads = λ fd n d s. law.reads fd n d s.0;
  writes = λ fd d bs s. law.writes fd d bs s.0;
  seeks = λ fd d z w s. law.seeks fd d z w s.0;
  closes = λ fd s. law.closes fd s.0;
  syncs = λ fd s. law.syncs fd s.0;
  says = λ s. law.says s.0;
}

pub extended_reasons :
    {k : Posix} (law : IsPosix k) {F : Type 0}
    → Reasons k law F
    → (X : Type 0) → Reasons (extended k X) (extended-IsPosix law X) F
extended_reasons law blame X = record {
  opening = λ path flags i s. blame.opening path flags i s.0;
  creating = λ path flags s. blame.creating path flags s.0;
  reading = λ fd n d s. blame.reading fd n d s.0;
  writing = λ fd d bs s. blame.writing fd d bs s.0;
  seeking = λ fd d z w s. blame.seeking fd d z w s.0;
  closing = λ fd d s. blame.closing fd d s.0;
  syncing = λ fd d s. blame.syncing fd d s.0;
}

-- A read of the simple kernel is whole.
pub simple_whole :
    (fd n d : ℕ) (s : Disk) (bs : List ℕ)
    → (disk_view s).desc fd ≡ some d
    → (simple.read fd n s).0 ≡ some bs
    → length bs ≡ min n (length (file_of (disk_view s) d) - (disk_view s).offset d)
simple_whole fd n d s bs open_fd e =
    let (t, q) = desc_inv s fd d open_fd in
    let content = s.file (s.inode fd) in
    let there = length content - s.offset fd in
    let given : take (min n there) (drop (s.offset fd) content) ≡ bs = ground (arith, t, e) in
    rw (← q, ← given)
      (omega (
        arith,
        length-take (min n there) (drop (s.offset fd) content),
        length-drop (s.offset fd) content,
      ))

pub extended_whole :
    (X : Type 0) (fd n d : ℕ) (s : Disk × X) (bs : List ℕ)
    → (disk_view s.0).desc fd ≡ some d
    → ((extended simple X).read fd n s).0 ≡ some bs
    → length bs ≡ min n (length (file_of (disk_view s.0) d) - (disk_view s.0).offset d)
extended_whole X fd n d s = simple_whole fd n d s.0
