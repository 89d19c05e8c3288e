-- ===== src/Release/Theorems.antt =====
-- Which blocks 7.1.c frees.
use textbooks.Base.{
  ℕ, zero, suc, ◌+◌, ◌-◌, ◌*◌, ◌≡◌, ◌≤◌, ◌<◌, ◌⊎◌, refl, sym, ap, ◌∙◌, false, none, some, List, [],
  ◌∷◌, ◌++◌, arith, length, length-append, append_assoc, append-nil, get_elem?, get_or, ltb,
  int_max, inl, inr, Bool-cases,
}
use mathlib.Core.List.{map}
use textbooks.Base.Returns
use textbooks.Base.Returns.{Returns, returns}
use textbooks.Base.Ends
use textbooks.Base.Ends.{Ends, returned, succeeded, failed}
use textbooks.Release.Defs.{Heap, allocate, free_from, allocate_and_free}

-- The blocks that malloc gave, and those that went to free, in their order.
pub record IsHeap (k : Heap) : Type 0 where
  pub given : k.State → List ℕ
  pub freed : k.State → List ℕ
  pub gives :
      (n : ℕ) (s : k.State)
      → (freed (k.malloc n s).1 ≡ freed s)
        × (((k.malloc n s).0 ≡ none)
            ⊎ ((p : ℕ) × ((k.malloc n s).0 ≡ some p)
                × (given (k.malloc n s).1 ≡ given s ++ (p ∷ []))))
  pub frees :
      (p : ℕ) (s : k.State)
      → (freed (k.free p s) ≡ freed s ++ (p ∷ [])) × (given (k.free p s) ≡ given s)
  pub reports : (s : k.State) → (freed (k.report s) ≡ freed s) × (given (k.report s) ≡ given s)

-- The list is `j`, `j` + `step` and so on, as far as below `max`.
pub data EverySo (step max : ℕ) : ℕ → List ℕ → Type 0 where
  past : {j : ℕ} → max ≤ j → EverySo step max j []
  visit :
      {j : ℕ} {js : List ℕ} → j < max → EverySo step max (j + step) js → EverySo step max j (j ∷ js)

-- The list has the multiples of `step` from `j` on that are below `max`, each at its place.
pub EverySo-get_elem? :
    (step max t j : ℕ) (js : List ℕ)
    → EverySo step max j js
    → j + t * step < max
    → get_elem? js t ≡ some (j + t * step)
EverySo-get_elem? step max zero j js (past le) lt = absurd (omega arith)
EverySo-get_elem? step max zero j (i ∷ js) (visit below rest) lt = ap some (omega arith)
EverySo-get_elem? step max (suc t) j js (past le) lt = absurd (omega arith)
EverySo-get_elem? step max (suc t) j (i ∷ js) (visit below rest) lt =
    let sum : j + suc t * step ≡ (j + step) + t * step = omega arith in
    EverySo-get_elem? step max t (j + step) js rest (rw (← sum) lt) ∙ ap some (sym sum)

get_elem?-get_or : (xs : List ℕ) (i : ℕ) → i < length xs → get_elem? xs i ≡ some (get_or xs i 0)
get_elem?-get_or [] i lt = absurd (omega arith)
get_elem?-get_or (x ∷ xs) zero lt = refl
get_elem?-get_or (x ∷ xs) (suc i) lt = get_elem?-get_or xs i (omega arith)

module _ (k : Heap) (law : IsHeap k) where
  free_from-EverySo :
      (fuel : ℕ) (ptr : List ℕ) (j free_max free_step : ℕ) (s : k.State)
      → 0 < free_step
      → free_max ≤ length ptr
      → free_max + free_step ≤ int_max
      → free_max - j < fuel
      → Returns
          (λ _ s'.
            (js : List ℕ) × EverySo free_step free_max j js
            × (law.freed s' ≡ law.freed s ++ map (λ i. get_or ptr i 0) js)
            × (law.given s' ≡ law.given s))
          (free_from k fuel ptr j free_max free_step s)
  unfolding free_from
  free_from-EverySo zero ptr j free_max free_step s pos within small enough = absurd (omega arith)
  free_from-EverySo (suc fuel) ptr j free_max free_step s pos within small enough =
      elim (Bool-cases (ltb j free_max)) [
        | inr y ↦ rw y (returns ([], past (ground arith), sym (append-nil (law.freed s)), refl))
        | inl y ↦
            let below : j < free_max = ground arith in
            let fits : ltb int_max (j + free_step) ≡ false = ground arith in
            let p = get_or ptr j 0 in
            let (now, same) = law.frees p s in
            rw (y, get_elem?-get_or ptr j (omega arith), fits)
              (Returns.mono
                (free_from-EverySo fuel ptr (j + free_step) free_max free_step (k.free p s) pos
                  within small (omega arith))
                λ _ s' (js, visits, left, kept). (
                  j ∷ js,
                  visit below visits,
                  left
                      ∙ ap (λ (l : List ℕ). l ++ map (λ i. get_or ptr i 0) js) now
                      ∙ append_assoc (law.freed s) (p ∷ []) (map (λ i. get_or ptr i 0) js),
                  kept ∙ same,
                ))
      ]

  allocate-given :
      {F : Type 0} {Q : k.State → Type 0}
      → ((n : ℕ) (s : k.State) → (k.malloc n s).0 ≡ none → F)
      → (left block_size : ℕ) (ptr : List ℕ) (s : k.State)
      → Ends F
          (λ out s'.
            (length out ≡ length ptr + left)
            × (new : List ℕ) × (out ≡ ptr ++ new)
            × (law.given s' ≡ law.given s ++ new)
            × (law.freed s' ≡ law.freed s))
          Q
          (allocate k left block_size ptr s)
  unfolding allocate
  allocate-given failing zero block_size ptr s =
      returned (omega arith, [], sym (append-nil ptr), sym (append-nil (law.given s)), refl)
  allocate-given failing (suc left) block_size ptr s =
      let s1 = (k.malloc block_size s).1 in
      let (quiet, how) = law.gives block_size s in
      elim how [
        | inl e ↦ rw e (failed (failing block_size s e))
        | inr (p, e, now) ↦
            let (still, same) = law.reports s1 in
            rw e (
              Ends.mono (allocate-given failing left block_size (ptr ++ (p ∷ [])) (k.report s1))
                λ out s' (size, new, is, given, freed). (
                  omega (arith, size, length-append ptr (p ∷ [])),
                  p ∷ new,
                  is ∙ append_assoc ptr (p ∷ []) new,
                  given
                      ∙ ap (λ (l : List ℕ). l ++ new) (same ∙ now)
                      ∙ append_assoc (law.given s) (p ∷ []) new,
                  freed ∙ still ∙ quiet,
                ))
      ]

  -- With at least as many blocks as `free_max`, a positive step and `free_max` + `free_step` at most
  -- INT_MAX, and fuel for `free_max`, `allocate_and_free` ends: it exits with status 0, and malloc gave
  -- `num_allocs` blocks, of which those at `free_min` - 1, `free_step` further and so on below
  -- `free_max` were freed, in this order and nothing else; or it exits with status 1, and then malloc
  -- failed.
  pub allocate_and_free-EverySo :
      {F : Type 0}
      → ((n : ℕ) (s : k.State) → (k.malloc n s).0 ≡ none → F)
      → (fuel num_allocs block_size free_step free_min free_max : ℕ) (s : k.State) → 0 < free_step
      → free_max ≤ num_allocs
      → free_max + free_step ≤ int_max
      → free_max < fuel
      → Ends F
          (λ _ _. ⊥)
          (λ s'.
            (blocks : List ℕ) × (js : List ℕ) × (length blocks ≡ num_allocs)
            × (law.given s' ≡ law.given s ++ blocks)
            × EverySo free_step free_max (free_min - 1) js
            × ((t : ℕ)
                → free_min - 1 + t * free_step < free_max
                → get_elem? js t ≡ some (free_min - 1 + t * free_step))
            × (law.freed s' ≡ law.freed s ++ map (λ i. get_or blocks i 0) js))
          (allocate_and_free k fuel num_allocs block_size free_step free_min free_max s)
  unfolding allocate_and_free
  allocate_and_free-EverySo failing fuel num_allocs block_size free_step free_min free_max s pos
        within small enough =
      let fits : ltb num_allocs free_max ≡ false = ground arith in
      let (still, same) = law.reports s in
      rw fits (
        Ends.bind (allocate-given failing num_allocs block_size [] (k.report s))
          λ blocks s1 (size, new, is, given, freed).
            let (still1, same1) = law.reports s1 in
            Ends.bind
              (Ends.ends (
                free_from-EverySo fuel blocks (free_min - 1) free_max free_step (k.report s1) pos
                  (omega arith) small (omega arith)))
              λ _ s2 (js, visits, left, kept).
                let (still2, same2) = law.reports s2 in
                succeeded (
                  blocks,
                  js,
                  size ∙ omega arith,
                  same2
                      ∙ kept
                      ∙ same1
                      ∙ given
                      ∙ ap (λ (l : List ℕ). l ++ new) same
                      ∙ ap (λ (l : List ℕ). law.given s ++ l) (sym is),
                  visits,
                  λ t below. EverySo-get_elem? free_step free_max t (free_min - 1) js visits below,
                  still2
                      ∙ left
                      ∙ ap (λ (l : List ℕ). l ++ map (λ i. get_or blocks i 0) js)
                          (still1 ∙ freed ∙ still),
                ))
