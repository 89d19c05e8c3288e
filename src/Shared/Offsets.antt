-- ===== src/Shared/Offsets.antt =====
-- Descriptors of one description have one offset.
use Prim.Native.String.{String}
use textbooks.Base.{
  ℕ, ◌+◌, ◌-◌, ◌≡◌, ◌≢◌, ◌≤◌, ◌⊎◌, false, ==_refl, none, some, List, [], ◌∷◌, ◌++◌, arith, length,
  length-append,
}
use textbooks.Base.Int.{ℤ, pos_part, neg_part}
use textbooks.Base.Ends
use textbooks.Base.Ends.{Ends}
use textbooks.Posix.{Posix, View, IsPosix, Whence, origin, update, file_of, move, written}
use textbooks.Posix.Splice.{splice_end}
use textbooks.Shared.Defs.{Descriptors, hello, bye}

-- What the manual pages promise: a new file is empty and has a new description; a name that goes away
-- leaves what is open; a duplicate has the same description, and the flags are the description's.
pub record IsDescriptors (k : Posix) (law : IsPosix k) (c : Descriptors k) : Type 0 where
  pub status : k.State → ℕ → ℕ
  pub creates :
      (path : String) (s : k.State)
      → ((c.open_new path s).0 ≡ none)
        ⊎ ((fd d : ℕ) × ((c.open_new path s).0 ≡ some fd)
            × ((law.view (c.open_new path s).1).desc fd ≡ some d)
            × ((law.view (c.open_new path s).1).offset d ≡ 0)
            × ((law.view (c.open_new path s).1).append d ≡ false)
            × (file_of (law.view (c.open_new path s).1) d ≡ []))
  pub unlinks :
      (path : String) (s : k.State)
      → ((law.view (c.unlink path s)).desc ≡ (law.view s).desc)
        × ((law.view (c.unlink path s)).offset ≡ (law.view s).offset)
        × ((law.view (c.unlink path s)).append ≡ (law.view s).append)
        × ((law.view (c.unlink path s)).inode ≡ (law.view s).inode)
        × ((law.view (c.unlink path s)).file ≡ (law.view s).file)
  pub dups :
      (fd : ℕ) (s : k.State)
      → ((c.dup fd s).0 ≡ none)
        ⊎ ((new : ℕ) × ((c.dup fd s).0 ≡ some new)
            × ((law.view s).desc new ≡ none)
            × (law.view (c.dup fd s).1 ≡ record (law.view s) {
              desc = update (law.view s).desc new ((law.view s).desc fd);
            }))
  pub flags :
      (fd d : ℕ) (s : k.State)
      → (law.view s).desc fd ≡ some d
      → (law.view (c.get_flags fd s).1 ≡ law.view s)
        × (status (c.get_flags fd s).1 ≡ status s)
        × (((c.get_flags fd s).0 ≡ none) ⊎ ((c.get_flags fd s).0 ≡ some (status s d)))

-- A write that falls short, or a seek that could have succeeded and fails, is a reason in `F`.
pub record Stops (k : Posix) (law : IsPosix k) (F : Type 0) : Type 0 where
  pub writing :
      (fd d : ℕ) (bs : List ℕ) (s : k.State)
      → (law.view s).desc fd ≡ some d
      → (k.write fd bs s).0 ≢ some (length bs)
      → F
  pub seeking :
      (fd d : ℕ) (z : ℤ) (w : Whence) (s : k.State)
      → (law.view s).desc fd ≡ some d
      → neg_part z ≤ origin (law.view s) d w + pos_part z
      → (k.lseek fd z w s).0 ≡ none
      → F

-- So is another call that fails.
pub record Denies (k : Posix) (c : Descriptors k) (F : Type 0) : Type 0 where
  pub creating : (path : String) (s : k.State) → (c.open_new path s).0 ≡ none → F
  pub duplicating : (fd : ℕ) (s : k.State) → (c.dup fd s).0 ≡ none → F
  pub asking : (fd : ℕ) (s : k.State) → (c.get_flags fd s).0 ≡ none → F

-- The description `d` of both descriptors is at the end of its file, which holds `bytes`.
pub record Both (v : View) (fd dfd d : ℕ) (bytes : List ℕ) : Type 0 where
  pub first : v.desc fd ≡ some d
  pub second : v.desc dfd ≡ some d
  pub plain : v.append d ≡ false
  pub at_end : v.offset d ≡ length bytes
  pub holds : file_of v d ≡ bytes

pub Both-move :
    (v : View) (fd dfd d : ℕ) (bytes : List ℕ)
    → Both v fd dfd d bytes
    → Both (move v d (v.offset d + 0 - 0)) fd dfd d bytes
Both-move v fd dfd d bytes b = record {
  first = b.first;
  second = b.second;
  plain = b.plain;
  at_end = rw (==_refl d) (omega (arith, b.at_end));
  holds = b.holds;
}

pub Both-written :
    (v : View) (fd dfd d : ℕ) (bytes : List ℕ) (x : ℕ) (xs : List ℕ)
    → Both v fd dfd d bytes
    → Both (written v d (x ∷ xs)) fd dfd d (bytes ++ (x ∷ xs))
Both-written v fd dfd d bytes x xs b = record {
  first = b.first;
  second = b.second;
  plain = b.plain;
  at_end = rw (==_refl d, b.plain) (omega (arith, b.at_end, length-append bytes (x ∷ xs)));
  holds = rw (==_refl (v.inode d), b.plain, b.at_end, b.holds) (splice_end bytes (x ∷ xs));
}

module _ (k : Posix) (law : IsPosix k) {F : Type 0} (blame : Stops k law F) (fd dfd d : ℕ) where
  abbrev At : List ℕ → k.State → Type 0
  At bytes s = Both (law.view s) fd dfd d bytes

  -- What a write of `new` leaves.
  abbrev Wrote : List ℕ → List ℕ → k.State → Type 0
  Wrote bytes new s = (w : List ℕ) × At (bytes ++ w) s × ((w ≡ new) ⊎ F)

  -- What both writes leave.
  abbrev pub Finished : k.State → Type 0
  Finished s = (w : List ℕ) × (w' : List ℕ) × At (w ++ w') s × (((w ≡ hello) × (w' ≡ bye)) ⊎ F)
