-- ===== src/Shared/Tests.antt =====
-- 5_5.c where descriptors are counted, and no file is opened but the new one.
use textbooks.Base.{
  ℕ, ◌+◌, ◌-◌, ◌≡◌, refl, ap, sym, inl, inr, true, false, Option, none, some, List, [], ◌∷◌, ◌++◌,
  arith, length, if◌then◌else◌, leb, ltb, ◌∙◌, Bool-cases, Run, ok,
}
use mathlib.Core.Path.{fun_ext}
use textbooks.Base.Int.{ℤ, pos_part, neg_part}
use textbooks.Base.Ends.{Ends}
use textbooks.Posix.{
  Posix, IsPosix, View, Whence, seek_set, seek_cur, seek_end, update, move, written, origin,
}
use textbooks.Posix.Splice.{take_all}
use textbooks.Shared.Defs.{
  Descriptors, hello, bye, assert_current_offset, write_or_exit, write_both, compare_flags,
  shared_main,
}

abbrev write_at_desc : Option ℕ → List ℕ → View → Option ℕ × View
write_at_desc none bs s = (none, s)
write_at_desc (some d) bs s = (some (length bs), written s d bs)

abbrev seek_at_desc : Option ℕ → ℤ → Whence → View → Option ℕ × View
seek_at_desc none z w s = (none, s)
seek_at_desc (some d) z w s =
    if leb (neg_part z) (origin s d w + pos_part z)
    then (
      some (origin s d w + pos_part z - neg_part z),
      move s d (origin s d w + pos_part z - neg_part z),
    )
    else (none, s)

-- Descriptors from `count` on were never used.
record Counted : Type 0 where
  pub count : ℕ
  pub kept : View

abbrev shown : Counted → View
shown s = record s.kept { desc = λ fd. if ltb fd s.count then s.kept.desc fd else none }

abbrev with_view : {A : Type 0} → Counted → A × View → A × Counted
with_view s (a, v) = (a, record s { kept = v })

abbrev views : Posix
views = record {
  State = Counted;
  open_file = λ path flags s. (none, s);
  read = λ fd n s. (none, s);
  write = λ fd bs s. with_view s (write_at_desc ((shown s).desc fd) bs s.kept);
  lseek = λ fd z w s. with_view s (seek_at_desc ((shown s).desc fd) z w s.kept);
  close = λ fd s. (true, record s { kept = record s.kept { desc = update s.kept.desc fd none } });
  fsync = λ fd s. (none, s);
  err_msg = λ s. s;
}

shown-written :
    (s : Counted) (d : ℕ) (bs : List ℕ)
    → shown (record s { kept = written s.kept d bs }) ≡ written (shown s) d bs
shown-written s d [] = refl
shown-written s d (b ∷ bs) = refl

same_origin : (s : Counted) (d : ℕ) (w : Whence) → origin s.kept d w ≡ origin (shown s) d w
same_origin s d seek_set = refl
same_origin s d seek_cur = refl
same_origin s d seek_end = refl

views-IsPosix : IsPosix views
views-IsPosix = record {
  view = shown;
  opens = λ path flags s. inl (refl, refl);
  reads = λ fd n d s e. inl (refl, refl);
  writes = λ fd d bs s e. rw e (
      inr (
        length bs,
        refl,
        omega arith,
        shown-written s d bs
            ∙ ap (written (shown s) d) (sym (take_all (length bs) bs (omega arith))),
      ));
  seeks = λ fd d z w s e. elim (Bool-cases (leb (neg_part z) (origin (shown s) d w + pos_part z))) [
    | inl u ↦ rw (e, same_origin s d w, u) (inr (ground arith, refl, refl))
    | inr u ↦ rw (e, same_origin s d w, u) (inl (refl, refl))
  ];
  closes =
      λ fd s. ap (λ (f : ℕ → Option ℕ). record (shown s) { desc = f }) (fun_ext λ x. ground arith);
  syncs = λ fd s. refl;
  says = λ s. refl;
}

-- The new file has description 7.
abbrev descriptors : Descriptors views
descriptors = record {
  open_new = λ path s. (
    some s.count,
    record {
      count = s.count + 1;
      kept = record s.kept {
        desc = update s.kept.desc s.count (some 7);
        offset = update s.kept.offset 7 0;
        append = update s.kept.append 7 false;
        file = update s.kept.file (s.kept.inode 7) [];
      };
    },
  );
  unlink = λ path s. s;
  dup = λ fd s. (
    some s.count,
    record {
      count = s.count + 1;
      kept = record s.kept { desc = update s.kept.desc s.count ((shown s).desc fd) };
    },
  );
  get_flags = λ fd s. (some 1, s);
}

abbrev empty : Counted
empty = record {
  count = 3;
  kept = record {
    desc = λ _. none;
    inode = λ _. 0;
    offset = λ _. 0;
    append = λ _. false;
    file = λ _. [];
    named = λ _. none;
  };
}

abbrev bytes_left : Run Counted (Unit {0}) → List ℕ
bytes_left (ok a s) = s.kept.file 0
bytes_left _ = []

both_words : bytes_left (shared_main views descriptors empty) ≡ hello ++ bye
unfolding assert_current_offset write_or_exit write_both compare_flags shared_main
both_words = refl
