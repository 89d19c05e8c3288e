-- ===== src/Dup/Tests.antt =====
-- A table with forty descriptors, and the theorems on it.
use textbooks.Base.{
  ℕ, zero, suc, ◌≤◌, ◌<◌, ◌≢◌, ◌⊎◌, ◌∙◌, sym, ap, false, Run, exit, ◌≡◌, refl, inl, inr, true, not,
  Option, none, some, arith, if◌then◌else◌, ◌==◌, Bool-cases, ok,
}
use textbooks.Base.Returns.{Returns}
use textbooks.Posix.{update, is_none}
use textbooks.Dup.Defs.{Fcntl, no_value, check_status, dup2_fd}
use textbooks.Dup.Main.{Opening, duplicate2, using_dup2, dup_main}
use textbooks.Base.Ends.{Ends}
use textbooks.Dup.Runs.{Exits, IsOpening, Refuses, dup_main-Exits}
use textbooks.Dup.Table.{IsFcntl, Duplicated, dup2_fd-Duplicated}

-- The first free number of `n` numbers from `least` on.
abbrev first_free : ℕ → ℕ → (ℕ → Option ℕ) → Option ℕ
first_free zero least s = none
first_free (suc n) least s =
    let rest = first_free n (suc least) s in if is_none (s least) then some least else rest

abbrev dup_at : ℕ → Option ℕ → (ℕ → Option ℕ) → Option ℕ × (ℕ → Option ℕ)
dup_at fd none s = (none, s)
dup_at fd (some new) s = (some new, update s new (s fd))

abbrev descriptors : ℕ
descriptors = 40

abbrev tables : Fcntl
tables = record {
  State = ℕ → Option ℕ;
  get_fd = λ fd s. (not (is_none (s fd)), s);
  dup_from = λ fd least s. dup_at fd (first_free descriptors least s) s;
  close = λ fd s. (true, update s fd none);
}

none_at : (o : Option ℕ) → is_none o ≡ true → o ≡ none
none_at none e = refl
none_at (some x) e = cc

taken : (o : Option ℕ) → is_none o ≡ false → o ≢ none
taken none e q = cc
taken (some x) e q = cc

first_free-least :
    (n least : ℕ) (s : ℕ → Option ℕ)
    → (first_free n least s ≡ none)
      ⊎ ((new : ℕ) × (first_free n least s ≡ some new)
          × (least ≤ new)
          × (s new ≡ none)
          × ((x : ℕ) → least ≤ x → x < new → s x ≢ none))
first_free-least zero least s = inl refl
first_free-least (suc n) least s = elim (Bool-cases (is_none (s least))) [
  | inl y ↦
      rw y (inr (least, refl, omega arith, none_at (s least) y, λ x a b. absurd (omega arith)))
  | inr y ↦ elim (first_free-least n (suc least) s) [
    | inl e ↦ rw (y, e) (inl refl)
    | inr (new, e, le, free, before) ↦
        rw (y, e)
          (inr (
            new,
            refl,
            omega arith,
            free,
            λ x a b. elim (Bool-cases (x == least)) [
              | inl same ↦
                  let eq : x ≡ least = ground arith in λ q. taken (s least) y (sym (ap s eq) ∙ q)
              | inr other ↦ before x (ground arith) b
            ],
          ))
  ]
]

tables-IsFcntl : IsFcntl tables
tables-IsFcntl = record {
  table = λ s. s;
  gets = λ fd s. (refl, refl);
  closes = λ fd s. refl;
  dups = λ fd least s. elim (first_free-least descriptors least s) [
    | inl e ↦ rw e (inl (refl, refl))
    | inr (new, e, le, free, before) ↦ rw e (inr (new, refl, le, free, before, refl))
  ];
}

-- Descriptor 3 is open.
abbrev three_open : ℕ → Option ℕ
three_open fd = if fd == 3 then some 7 else none

dup2_fd-Duplicated_example :
    Returns (Duplicated tables tables-IsFcntl 3 5 three_open) (dup2_fd tables 3 5 three_open)
dup2_fd-Duplicated_example = dup2_fd-Duplicated tables tables-IsFcntl 3 5 three_open

-- A descriptor that was duplicated, and no value.
dup2_fd_run :
    dup2_fd tables 3 5 three_open ≡ ok no_value (update (update three_open 5 none) 5 (some 7))
unfolding dup2_fd check_status
dup2_fd_run = refl

-- open(2) takes the least free number, for the next description.
abbrev open_at : Option ℕ → (ℕ → Option ℕ) → Option ℕ × (ℕ → Option ℕ)
open_at none s = (none, s)
open_at (some new) s = (some new, update s new (some 77))

abbrev opening : Opening tables
opening = record { open_file = λ path s. open_at (first_free descriptors 0 s) s }

opening-IsOpening : IsOpening tables tables-IsFcntl opening
unfolding tables-IsFcntl
opening-IsOpening = record {
  opens = λ path s. elim (first_free-least descriptors 0 s) [
    | inl e ↦ rw e (inl refl)
    | inr (new, e, le, free, before) ↦ rw e (inr (new, 77, refl, free, refl))
  ];
}

abbrev eleven : ℕ → ℕ → Option ℕ
eleven oldfd newfd = some 11

any_refusal : Refuses tables opening eleven Unit
any_refusal = record {
  opening = λ path s e. tt;
  duplicating = λ fd least s e. tt;
  left_over = λ oldfd newfd e. tt;
}

abbrev number_of : Run (ℕ → Option ℕ) (Unit {0}) → ℕ × (Option ℕ × Option ℕ)
number_of (exit c s) = (c, (s 10, s 20))
number_of _ = (9, (none, none))

dup_main_run : number_of (dup_main tables opening eleven three_open) ≡ (1, (some 77, none))
unfolding dup_main using_dup2 duplicate2 dup2_fd check_status
dup_main_run = refl

dup_main-Exits_example :
    Exits
      (λ s'.
        Unit
        ⊎ ((fd d : ℕ) × (tables-IsFcntl.table (opening.open_file "hello" three_open).1 fd ≡ some d)
            × (tables-IsFcntl.table three_open fd ≡ none)
            × (tables-IsFcntl.table s' 10 ≡ some d)
            × (tables-IsFcntl.table s' 20 ≡ none)))
      (dup_main tables opening eleven three_open)
dup_main-Exits_example =
    dup_main-Exits tables tables-IsFcntl opening opening-IsOpening eleven any_refusal three_open
