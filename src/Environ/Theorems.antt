-- ===== src/Environ/Theorems.antt =====
-- What setenv_check, c_setenv and c_unsetenv do to the environment.
use textbooks.Base.{
  ◌⊎◌, inl, inr, ℕ, zero, suc, ◌+◌, ◌-◌, ◌≡◌, ◌≢◌, ◌≤◌, ◌<◌, refl, sym, ap, ◌∙◌, Bool, true, false,
  ◌&&◌, ◌||◌, ◌==◌, Option, none, some, List, [], ◌∷◌, ◌++◌, if◌then◌else◌, arith, length,
  length-append, take, get_elem?, Bool-cases, Option-cases, ltb, ok, einval, int_max,
}
use textbooks.Base.Returns.{Returns, returns}
use textbooks.Posix.Splice.{take_all}
use textbooks.Environ.Defs.{
  Library, Process, equals, names, is_unset, unsetting, scan, setenv_check, put_entry, put_valid,
  c_setenv, unset_from, c_unsetenv,
}
use textbooks.Environ.Entries.{
  IsLibrary, value_of, lookup, without, no_equals, is_name, names-value_of, no_equals-is_name,
  lookup-without, without-none, length-without, unset_at, lookup-take, get_elem?-none, get_elem?-lt,
}

module _ {k : Library} where
  scan-length :
      (n : ℕ) (cs : List ℕ) (h : Process k)
      → n + length cs ≤ int_max
      → scan n cs h ≡ (
          if no_equals cs
          then ok (some (n + length cs)) h
          else ok none (record h { errno = einval }))
  unfolding scan
  scan-length n [] h small = ap (λ (m : ℕ). ok (some m) h) (omega arith)
  scan-length n (c ∷ cs) h small = elim (Bool-cases (c == equals)) [
    | inl y ↦ rw y
    | inr y ↦
        let room : (n == int_max) ≡ false = ground arith in
        let sum : n + 1 + length cs ≡ n + length (c ∷ cs) = omega arith in
        rw (y, room, scan-length (n + 1) cs h (omega arith), sum)
  ]

  -- `setenv_check` of a string of at most INT_MAX characters returns its length where it is a name: it
  -- is not empty and has no `=`. Otherwise it fails with EINVAL.
  pub setenv_check-is_name :
      (cs : List ℕ) (h : Process k)
      → length cs ≤ int_max
      → setenv_check (some cs) h
        ≡ (if is_name cs then ok (some (length cs)) h else ok none (record h { errno = einval }))
  unfolding setenv_check
  setenv_check-is_name [] h small = refl
  setenv_check-is_name (c ∷ cs) h small =
      let sum : 0 + length (c ∷ cs) ≡ length (c ∷ cs) = omega arith in
      rw (scan-length 0 (c ∷ cs) h (omega arith), sum)

  -- `c_setenv` of a name or a value that is empty or has a `=` fails with EINVAL and leaves the
  -- environment alone.
  pub c_setenv-rejects :
      (name value : List ℕ) (overwrite : Bool) (h : Process k)
      → (is_name name && is_name value) ≡ false
      → length name ≤ int_max
      → length value ≤ int_max
      → c_setenv (some name) (some value) overwrite h ≡ ok false (record h { errno = einval })
  unfolding c_setenv
  c_setenv-rejects name value overwrite h bad small_name small_value =
      elim (Bool-cases (is_name name)) [
        | inl y ↦
            let z : is_name value ≡ false = ground (arith, y) in
            rw (
              setenv_check-is_name name h small_name,
              y,
              setenv_check-is_name value h small_value,
              z,
            )
        | inr y ↦ rw (setenv_check-is_name name h small_name, y)
      ]

module _ {k : Library} (law : IsLibrary k) where
  abbrev vars : Process k → List (List ℕ)
  vars h = k.environ h.os

  -- The variable has the value, no other variable changed, and there is at most one more entry.
  abbrev Set : List ℕ → Option (List ℕ) → Process k → Process k → Type 0
  Set name value h h' =
      (lookup name (vars h') ≡ value)
      × ((other : List ℕ)
          → is_name other ≡ true
          → other ≢ name
          → lookup other (vars h') ≡ lookup other (vars h))
      × (length (vars h') ≤ suc (length (vars h)))

  -- `putenv` of the entry fails.
  abbrev pub Refused : List ℕ → List ℕ → Process k → Type 0
  Refused name value h =
      (k.putenv (name ++ (equals ∷ value)) (k.malloc (length name + length value + 2) h.os).1).0
      ≡ false

  put_entry-Set :
      (name value : List ℕ) (h : Process k)
      → is_name name ≡ true
      → length name + length value + 2 ≤ int_max
      → (k.malloc (length name + length value + 2) h.os).0 ≡ true
      → Returns
          (λ r h'.
            (r ≡ true) × (Set name (some value) h h' ⊎ (Refused name value h × (vars h' ≡ vars h))))
          (put_entry (length name) (length value) (name ++ (equals ∷ value)) h)
  unfolding put_entry
  put_entry-Set name value h valid small got =
      let len_text : length (name ++ (equals ∷ value)) ≡ length name + length value + 1 =
        omega (arith, length-append name (equals ∷ value)) in
      let fits : ltb int_max (length name + length value + 2) ≡ false = ground arith in
      let bound : ltb (length name + length value + 2) (length name + length value + 1 + 1)
          ≡ false =
        ground arith in
      let os = (k.malloc (length name + length value + 2) h.os).1 in
      rw
        (
          got,
          len_text,
          take_all (length name + length value + 1) (name ++ (equals ∷ value)) (omega arith),
          fits,
          bound,
        )
        (returns {s = record h { os = (k.putenv (name ++ (equals ∷ value)) os).1 }} (
          refl,
          elim (Bool-cases (k.putenv (name ++ (equals ∷ value)) os).0) [
            | inr bad ↦
                inr (bad, law.refuses (name ++ (equals ∷ value)) os bad ∙ law.allocates _ h.os)
            | inl good ↦ inl (
              law.puts_entry name value os valid good,
              λ other o ne.
                  law.spares name value other os valid o ne
                  ∙ ap (lookup other) (law.allocates _ h.os),
              omega (
                arith,
                law.adds (name ++ (equals ∷ value)) os,
                ap (λ (l : List (List ℕ)). length l) (law.allocates _ h.os),
              ),
            )
          ],
        ))

  -- If the allocation succeeds, `c_setenv` of a name and a value that are not empty and have no `=`
  -- returns 0, and the buffer is not overrun. The variable has the value, unless it was set and is not to
  -- be overwritten: then it has the one it had. The other variables do not change, and at most one entry
  -- is added. Or `putenv` fails, and nothing changes.
  pub c_setenv_lem :
      (name value : List ℕ) (overwrite : Bool) (h : Process k)
      → is_name name ≡ true
      → is_name value ≡ true
      → length name + length value + 2 ≤ int_max
      → (k.malloc (length name + length value + 2) h.os).0 ≡ true
      → Returns
          (λ r h'.
            (r ≡ true)
            × (Set name
                  (if overwrite || is_unset (lookup name (vars h))
                    then some value
                    else lookup name (vars h))
                  h
                  h'
                ⊎ (Refused name value h × (vars h' ≡ vars h))))
          (c_setenv (some name) (some value) overwrite h)
  unfolding c_setenv put_valid
  c_setenv_lem name value overwrite h n v small got =
      rw
        (
          setenv_check-is_name name h (omega arith),
          n,
          setenv_check-is_name value h (omega arith),
          v,
          law.gets name h.os n,
        )
        (elim (Bool-cases (overwrite || is_unset (lookup name (vars h)))) [
          | inl y ↦ rw y (put_entry-Set name value h n small got)
          | inr y ↦ rw y (returns (refl, inl (refl, λ other o ne. refl, omega arith)))
        ])

  names-false :
      (name entry : List ℕ)
      → is_name name ≡ true
      → is_unset (value_of name entry) ≡ true
      → names name entry ≡ false
  names-false name entry n u = names-value_of name entry (no_equals-is_name name n) ∙ rw u

  -- Once no entry is left, the loop only goes to the end.
  unset_from-none :
      (fuel : ℕ) (name : List ℕ) (i : ℕ) (h : Process k)
      → is_name name ≡ true
      → lookup name (vars h) ≡ none
      → length (vars h) - i < fuel
      → unset_from fuel name i h ≡ ok true h
  unfolding unset_from
  unset_from-none zero name i h n gone enough = absurd (omega arith)
  unset_from-none (suc fuel) name i h n gone enough = elim (Option-cases (get_elem? (vars h) i)) [
    | inl e ↦ rw (unset_from, e)
    | inr (x, e) ↦
        let lt = get_elem?-lt (vars h) i x e in
        rw (unset_from, e, names-false name x n (unset_at name (vars h) i x gone e))
          (unset_from-none fuel name (i + 1) h n gone (omega arith))
  ]

  unset_from-without :
      (fuel : ℕ) (name : List ℕ) (i : ℕ) (h : Process k)
      → is_name name ≡ true
      → lookup name (take i (vars h)) ≡ none
      → length (vars h) - i < fuel
      → Returns (λ r h'. (r ≡ true) × (vars h' ≡ without name (vars h))) (unset_from fuel name i h)
  unfolding unset_from
  unset_from-without zero name i h n gone enough = absurd (omega arith)
  unset_from-without (suc fuel) name i h n gone enough =
      elim (Option-cases (get_elem? (vars h) i)) [
        | inl e ↦
            let all = get_elem?-none (vars h) i e in
            rw (unset_from, e) (returns (refl, sym (without-none name (vars h) (rw all at gone))))
        | inr (x, e) ↦
            let lt = get_elem?-lt (vars h) i x e in
            elim (Bool-cases (is_unset (value_of name x))) [
              | inl u ↦
                  rw (unset_from, e, names-false name x n u)
                    (unset_from-without fuel name (i + 1) h n
                      (lookup-take name (vars h) i x gone e u) (omega arith))
              | inr u ↦
                  let found : names name x ≡ true =
                    names-value_of name x (no_equals-is_name name n) ∙ rw u in
                  let s = k.puts unsetting h.os in
                  let left : k.environ (k.unsetenv name s).1 ≡ without name (vars h) =
                    (law.removes name s n).1 ∙ ap (without name) (law.prints unsetting h.os) in
                  let h' = record h { os = (k.unsetenv name s).1 } in
                  rw
                    (
                      unset_from,
                      e,
                      found,
                      (law.removes name s n).0,
                      unset_from-none fuel name (i + 1) h' n
                          (ap (lookup name) left ∙ lookup-without name (vars h))
                          (omega (
                            arith,
                            ap (λ (l : List (List ℕ)). length l) left,
                            length-without name (vars h),
                          )),
                    )
                    (returns (refl, left))
            ]
      ]

  -- With fuel for the environment, `c_unsetenv` of a name that is not empty and has no `=` returns 0,
  -- and the entries that are left are those of other names, in their order.
  pub c_unsetenv-without :
      (fuel : ℕ) (name : List ℕ) (h : Process k)
      → is_name name ≡ true
      → length (vars h) < fuel
      → Returns
          (λ r h'. (r ≡ true) × (vars h' ≡ without name (vars h)))
          (c_unsetenv fuel (some name) h)
  unfolding c_unsetenv
  c_unsetenv-without fuel [] h n enough = cc
  c_unsetenv-without fuel (c ∷ cs) h n enough =
      unset_from-without fuel (c ∷ cs) 0 h n (ground arith) (omega arith)
