-- ===== src/Paging/Tests.antt =====
-- A memory with one open file.
use textbooks.Base.{
  ℕ, ◌+◌, ◌≡◌, refl, sym, ap, inr, Option, none, some, List, [], ◌∷◌, arith, length, Run, ok, fault,
  if◌then◌else◌, ◌==◌,
}
use textbooks.Base.Ends.{Ends}
use textbooks.Paging.Memory.{
  Memory, Place, null, byte_of, loaded, replaced, round_up, IsMemory, Refuses,
}
use textbooks.Paging.Defs.{first_three, print_pages, map_pages, pages_main, larger_main}
use textbooks.Paging.Pages.{Reversed, heads, pages_main-Shown}
use textbooks.Paging.Larger.{Seen, larger_main-Seen}

record Mapped : Type 0 where
  pub place : ℕ → Option Place
  pub bytes : List ℕ

-- Descriptor 3 is the file 0, and mappings begin at 100.
abbrev with_pages : ℕ → Memory
with_pages size = record {
  State = Mapped;
  page_size = size;
  open_file = λ path s. (some 3, s);
  fstat = λ fd s. (some (length s.bytes), s);
  map_anonymous = λ n s. (some 100, record s { place = replaced s.place 100 n (λ _. null) });
  map_fixed =
      λ a n fd o s. (some a, record s { place = replaced s.place a n (λ y. byte_of 0 (o + y)) });
  map_file =
      λ n fd s. (some 100, record s { place = replaced s.place 100 (round_up size n) (byte_of 0) });
  load = λ a s. loaded size (λ i. s.bytes) (s.place a);
}

number_0 : (fd i : ℕ) → (if fd == 3 then some 0 else none) ≡ some i → i ≡ 0
number_0 fd i e = ground (arith, e)

with_pages-IsMemory : (size : ℕ) → IsMemory (with_pages size)
with_pages-IsMemory size = record {
  place = λ s. s.place;
  file = λ s i. s.bytes;
  inode = λ s fd. if fd == 3 then some 0 else none;
  named = λ s path. some 0;
  loads = λ a s. refl;
  opens = λ path i s e. inr (3, refl, e, refl);
  stats = λ fd i s e. inr (refl, refl, refl);
  maps_anonymous = λ n s. inr (100, refl, refl, refl);
  maps_fixed = λ a n q fd o i s e e'. inr (
    refl,
    refl,
    refl,
    λ x. ap (λ j. replaced s.place a n (λ y. byte_of j (o + y)) x) (sym (number_0 fd i e')),
  );
  maps_file = λ n fd i s e. inr (
    100,
    refl,
    refl,
    λ x. ap (λ j. replaced s.place 100 (round_up size n) (byte_of j) x) (sym (number_0 fd i e)),
  );
}

any_refusal : (size : ℕ) → Refuses (with_pages size) Unit
any_refusal size = record {
  opening = λ path s e. tt;
  stating = λ fd s e. tt;
  anonymous = λ n s e. tt;
  fixed = λ a n fd o s e. tt;
  mapping = λ n fd s e. tt;
}

abbrev four : ℕ
four = 4

abbrev large : ℕ
large = 65536

-- Three pages of four bytes, which begin with aaa, bbb and ccc.
abbrev three_pages : List ℕ
three_pages = 97 ∷ (97 ∷ (97 ∷ (1 ∷ (98 ∷ (98 ∷ (98 ∷ (2 ∷ (99 ∷ (99 ∷ (99 ∷ (3 ∷ [])))))))))))

abbrev unmapped : List ℕ → Mapped
unmapped c = record { place = λ a. none; bytes = c }

abbrev result : {A : Type 0} → Run Mapped A → Option A
result (ok a s) = some a
result _ = none

shown_in_reverse :
    result (pages_main (with_pages four) (unmapped three_pages))
    ≡ some ((99 ∷ (99 ∷ (99 ∷ []))) ∷ ((98 ∷ (98 ∷ (98 ∷ []))) ∷ ((97 ∷ (97 ∷ (97 ∷ []))) ∷ [])))
unfolding pages_main map_pages print_pages first_three
shown_in_reverse = refl

-- A file of one page has no third one to show.
one_page : pages_main (with_pages four) (unmapped (1 ∷ (2 ∷ (3 ∷ [])))) ≡ fault
unfolding pages_main map_pages print_pages first_three
one_page = refl

null_byte :
    result (larger_main (with_pages large) ("49.3" ∷ ("f" ∷ [])) (unmapped three_pages)) ≡ some 0
unfolding larger_main
null_byte = refl

pages_main-Shown_example :
    Ends Unit
      (λ lines s'.
        (lines ≡ heads (with_pages four) (with_pages-IsMemory four) three_pages)
        × ((addr : ℕ) × Reversed (with_pages four) (with_pages-IsMemory four) addr 0 s'))
      (λ _. ⊥)
      (pages_main (with_pages four) (unmapped three_pages))
unfolding with_pages-IsMemory
pages_main-Shown_example =
    pages_main-Shown (with_pages four) (with_pages-IsMemory four) (any_refusal four) 0 three_pages
      (unmapped three_pages) (omega arith) refl refl (omega arith)

larger_main-Seen_example :
    Seen
      (with_pages large)
      Unit
      three_pages
      (larger_main (with_pages large) ("49.3" ∷ ("f" ∷ [])) (unmapped three_pages))
unfolding with_pages-IsMemory
larger_main-Seen_example =
    larger_main-Seen (with_pages large) (with_pages-IsMemory large) (any_refusal large) "49.3" "f" 0
      three_pages (unmapped three_pages) refl refl
