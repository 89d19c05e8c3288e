-- ===== src/Posix/Simple.antt =====
-- A kernel that meets the promises: it counts descriptors and names, transfers all that is asked for,
-- and fails only where there is no such descriptor, file or position.
use Prim.Native.String.{String}
use mathlib.Core.Path.{fun_ext}
use mathlib.Core.Bool.{false≢true}
use text.Mathlib.Text.{◌==◌ as str_eq}
use text.Mathlib.TextEquality.{eq_iff}
use textbooks.Base.{
  ℕ, ◌+◌, ◌-◌, ◌≡◌, ◌≢◌, ◌<◌, refl, ap, sym, ◌∙◌, Bool, true, false, ◌&&◌, Option, none, some, List,
  [], ◌∷◌, arith, length, take, drop, ltb, leb, if◌then◌else◌, inl, inr, min, Bool-cases,
}
use textbooks.Base.Int.{ℤ, pos_part, neg_part}
use textbooks.Posix.Calls.{Posix, OpenFlags, Whence}
use textbooks.Posix.Files.{View, update, move, written, origin, opened}
use textbooks.Posix.Promises.{IsPosix, Reasons, ReadSpec, WriteSpec, SeekSpec, OpenSpec}
use textbooks.Posix.Splice.{take_all}

pub record Disk : Type 0 where
  pub count : ℕ
  pub is_open : ℕ → Bool
  pub inode : ℕ → ℕ
  pub offset : ℕ → ℕ
  pub append : ℕ → Bool
  pub file : ℕ → List ℕ
  pub names : List String

-- The newest name comes first, and a name's inode is the number of the older ones.
abbrev number : List String → String → Option ℕ
number [] name = none
number (x ∷ xs) name = if str_eq name x then some (length xs) else number xs name

abbrev pub disk_view : Disk → View
disk_view s = record {
  desc = λ fd. if ltb fd s.count && s.is_open fd then some fd else none;
  inode = s.inode;
  offset = s.offset;
  append = s.append;
  file = s.file;
  named = number s.names;
}

-- The state with another view of the open files and the bytes.
abbrev put : Disk → View → Disk
put s v = record s { inode = v.inode; offset = v.offset; append = v.append; file = v.file }

abbrev add : Disk → List String → View → Disk
add s names v = record {
  count = s.count + 1;
  is_open = update s.is_open s.count true;
  inode = v.inode;
  offset = v.offset;
  append = v.append;
  file = v.file;
  names = names;
}

abbrev open_at : String → OpenFlags → Disk → Option ℕ → Bool → Option ℕ × Disk
open_at path flags s (some i) create =
    (some s.count, add s s.names (opened (disk_view s) path flags s.count s.count i))
open_at path flags s none true = (
  some s.count,
  add s (path ∷ s.names) (opened (disk_view s) path flags s.count s.count (length s.names)),
)
open_at path flags s none false = (none, s)

abbrev open_disk : String → OpenFlags → Disk → Option ℕ × Disk
open_disk path flags s = open_at path flags s (number s.names path) flags.create

abbrev read_disk : ℕ → ℕ → Disk → Option (List ℕ) × Disk
read_disk fd n s =
    if ltb fd s.count && s.is_open fd
    then (let bs =
          take (min n (length (s.file (s.inode fd)) - s.offset fd))
            (drop (s.offset fd) (s.file (s.inode fd))) in
        (
          some bs,
          put s (
              move (disk_view s) fd
                (s.offset fd + min n (length (s.file (s.inode fd)) - s.offset fd))),
        ))
    else (none, s)

abbrev write_disk : ℕ → List ℕ → Disk → Option ℕ × Disk
write_disk fd bs s =
    if ltb fd s.count && s.is_open fd
    then (some (length bs), put s (written (disk_view s) fd bs))
    else (none, s)

abbrev seek_disk : ℕ → ℤ → Whence → Disk → Option ℕ × Disk
seek_disk fd z w s =
    let base = origin (disk_view s) fd w in
    if ltb fd s.count && s.is_open fd && leb (neg_part z) (base + pos_part z)
    then (
      some (base + pos_part z - neg_part z),
      put s (move (disk_view s) fd (base + pos_part z - neg_part z)),
    )
    else (none, s)

abbrev close_disk : ℕ → Disk → Bool × Disk
close_disk fd s = (ltb fd s.count && s.is_open fd, record s { is_open = update s.is_open fd false })

abbrev pub simple : Posix
simple = record {
  State = Disk;
  open_file = open_disk;
  read = read_disk;
  write = write_disk;
  lseek = seek_disk;
  close = close_disk;
  fsync = λ fd s. (none, s);
  err_msg = λ s. s;
}

pub desc_inv :
    (s : Disk) (fd d : ℕ)
    → (disk_view s).desc fd ≡ some d
    → ((ltb fd s.count && s.is_open fd) ≡ true) × (fd ≡ d)
desc_inv s fd d e = elim (Bool-cases (ltb fd s.count && s.is_open fd)) [
  | inl t ↦ (t, ground (arith, t, e))
  | inr t ↦ absurd (false≢true (ground (arith, t, e)))
]

pub simple-reads :
    (fd n d : ℕ) (s : Disk)
    → (disk_view s).desc fd ≡ some d
    → ReadSpec (disk_view s) d n (read_disk fd n s).0 (disk_view (read_disk fd n s).1)
simple-reads fd n d s e =
    let (t, q) = desc_inv s fd d e in
    rw (t, ← q)
      (inr (
        min n (length (s.file (s.inode fd)) - s.offset fd),
        refl,
        omega arith,
        omega arith,
        λ some_asked some_left. omega arith,
        refl,
      ))

pub simple-writes :
    (fd d : ℕ) (bs : List ℕ) (s : Disk)
    → (disk_view s).desc fd ≡ some d
    → WriteSpec (disk_view s) d bs (write_disk fd bs s).0 (disk_view (write_disk fd bs s).1)
simple-writes fd d [] s e =
    let (t, q) = desc_inv s fd d e in rw (t, ← q) (inr (0, refl, omega arith, refl))
simple-writes fd d (b ∷ bs) s e =
    let (t, q) = desc_inv s fd d e in
    rw (t, ← q)
      (inr (
        length (b ∷ bs),
        refl,
        omega arith,
        ap (written (disk_view s) fd) (sym (take_all (length (b ∷ bs)) (b ∷ bs) (omega arith))),
      ))

pub simple-seeks :
    (fd d : ℕ) (z : ℤ) (w : Whence) (s : Disk)
    → (disk_view s).desc fd ≡ some d
    → SeekSpec (disk_view s) d z w (seek_disk fd z w s).0 (disk_view (seek_disk fd z w s).1)
simple-seeks fd d z w s e =
    let (t, q) = desc_inv s fd d e in
    elim (Bool-cases (leb (neg_part z) (origin (disk_view s) fd w + pos_part z))) [
      | inl u ↦ rw (t, ← q, u) (inr (ground arith, refl, refl))
      | inr u ↦ rw (t, ← q, u) (inl (refl, refl))
    ]

pub simple-closes :
    (fd : ℕ) (s : Disk)
    → disk_view (close_disk fd s).1
      ≡ record (disk_view s) { desc = update (disk_view s).desc fd none }
simple-closes fd s =
    ap (λ (f : ℕ → Option ℕ). record (disk_view s) { desc = f }) (fun_ext λ x. ground arith)

number-lt :
    (names : List String) (name : String) (i : ℕ) → number names name ≡ some i → i < length names
number-lt [] name i e = cc
number-lt (x ∷ xs) name i e = ground (arith, number-lt xs name i)

number_self :
    (names : List String) (path : String) (i : ℕ)
    → number names path ≡ some i
    → (name : String) → number names name ≡ (if str_eq name path then some i else number names name)
number_self names path i e name = elim (Bool-cases (str_eq name path)) [
  | inl t ↦ rw t (ap (number names) ((eq_iff name path).0 t) ∙ e)
  | inr t ↦ rw t
]

module _ (path : String) (flags : OpenFlags) (s : Disk) where
  abbrev v : View
  v = disk_view s

  free_desc : v.desc s.count ≡ none
  free_desc = ground arith

  fresh_desc : (other : ℕ) → v.desc other ≢ some s.count
  fresh_desc other e = ground arith

  next_desc :
      (fd : ℕ)
      → (if ltb fd (s.count + 1) && update s.is_open s.count true fd then some fd else none)
        ≡ update v.desc s.count (some s.count) fd
  next_desc fd = ground arith

  pub opens_at :
      (found : Option ℕ) (create : Bool)
      → number s.names path ≡ found
      → flags.create ≡ create
      → OpenSpec v path flags
          (open_at path flags s found create).0
          (disk_view (open_at path flags s found create).1)
  opens_at (some i) create e t = inr (
    s.count,
    s.count,
    i,
    refl,
    free_desc,
    fresh_desc,
    inl e,
    λ j. record (opened v path flags s.count s.count i) {
      desc = fun_ext next_desc j;
      named = fun_ext (number_self s.names path i e) j;
    },
  )
  opens_at none true e t = inr (
    s.count,
    s.count,
    length s.names,
    refl,
    free_desc,
    fresh_desc,
    inr (e, t, λ name q. ground (arith, number-lt s.names name (length s.names) q)),
    λ j. record (opened v path flags s.count s.count (length s.names)) {
      desc = fun_ext next_desc j;
    },
  )
  opens_at none false e t = inl (refl, refl)

-- The kernel meets the promises.
unfoldable pub simple-IsPosix : IsPosix simple
simple-IsPosix = record {
  view = disk_view;
  opens = λ path flags s. opens_at path flags s _ _ refl refl;
  reads = simple-reads;
  writes = simple-writes;
  seeks = simple-seeks;
  closes = simple-closes;
  syncs = λ fd s. refl;
  says = λ s. refl;
}

opens_named :
    (path : String) (flags : OpenFlags) (s : Disk) (i : ℕ) (found : Option ℕ) (create : Bool)
    → found ≡ some i
    → (open_at path flags s found create).0 ≢ none
opens_named path flags s i none create e q = cc
opens_named path flags s i (some j) create e q = cc

opens_created :
    (path : String) (flags : OpenFlags) (s : Disk) (found : Option ℕ) (create : Bool)
    → create ≡ true
    → (open_at path flags s found create).0 ≢ none
opens_created path flags s none true e q = cc
opens_created path flags s none false e q = cc
opens_created path flags s (some j) create e q = cc

-- It gives no reason.
pub simple_reasons : Reasons simple simple-IsPosix ⊥
unfolding simple-IsPosix
simple_reasons = record {
  opening = λ path flags i s e q. opens_named path flags s i _ flags.create e q;
  creating = λ path flags s e q. opens_created path flags s _ flags.create e q;
  reading = λ fd n d s e q. let (t, _) = desc_inv s fd d e in cc (rw t at q);
  writing = λ fd d bs s e q. let (t, _) = desc_inv s fd d e in (rw t at q) refl;
  seeking = λ fd d z w s e fits q.
      let (t, same) = desc_inv s fd d e in
      let u : leb (neg_part z) (origin (disk_view s) d w + pos_part z) ≡ true = ground arith in
      cc (rw (t, same, u) at q);
  closing = λ fd d s e q. let (t, _) = desc_inv s fd d e in false≢true (sym q ∙ t);
  syncing = λ fd d s e q. q refl;
}
