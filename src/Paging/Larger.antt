-- ===== src/Paging/Larger.antt =====
-- 49.3.c reads a byte of a mapping that is twice as large as its file.
use Prim.Native.String.{String}
use textbooks.Base.{
  ℕ, zero, suc, ◌+◌, ◌*◌, ◌≡◌, ◌≤◌, ◌<◌, ap, ◌∙◌, ltb, ltb→lt, Option, none, some, List, [], ◌∷◌,
  arith, length, get_elem?, inl, inr, Run, ok, exit, fault, Bool-cases, Option-cases,
}
use textbooks.Paging.Memory.{Memory, byte_of, loaded, past_end, round_up, IsMemory, Refuses}
use textbooks.Paging.Defs.{larger_main}
use textbooks.Paging.Pages.{replaced_in}

get_elem?-beyond : (c : List ℕ) (o : ℕ) → get_elem? c o ≡ none → length c ≤ o
get_elem?-beyond [] o e = omega arith
get_elem?-beyond (x ∷ c) zero e = absurd cc
get_elem?-beyond (x ∷ c) (suc o) e = omega (arith, get_elem?-beyond c o e)

module _ (k : Memory) (F : Type 0) (c : List ℕ) where
  -- How the program may end on a file that holds `c`: with a byte of it, with a null byte of its last page,
  -- with a signal behind that page, or, behind the mapping, in any way; or it exits with status 1.
  pub data Seen : Run k.State ℕ → Type 0 where
    in_file : {b : ℕ} {s : k.State} → get_elem? c 40000 ≡ some b → Seen (ok b s)
    in_page :
        {s : k.State} → length c ≤ 40000 → 40000 < round_up k.page_size (length c) → Seen (ok 0 s)
    behind :
        round_up k.page_size (length c) ≤ 40000
        → 40000 < round_up k.page_size (2 * length c)
        → Seen fault
    outside : {r : Run k.State ℕ} → round_up k.page_size (2 * length c) ≤ 40000 → Seen r
    refused : {s : k.State} → F → Seen (exit 1 s)

  load_seen :
      (o : Option ℕ) (s : k.State)
      → 40000 < round_up k.page_size (2 * length c)
      → o ≡ elim (get_elem? c 40000) [ none ↦ past_end k.page_size c 40000 | some b ↦ some b ]
      → Seen (elim o [ none ↦ fault | some b ↦ ok b s ])
  load_seen o s inside e = elim (Option-cases (get_elem? c 40000)) [
    | inr (b, at) ↦ rw (e, at) (in_file at)
    | inl at ↦ elim (Bool-cases (ltb 40000 (round_up k.page_size (length c)))) [
      | inl y ↦
          rw (e, at, y)
            (in_page (get_elem?-beyond c 40000 at)
              (ltb→lt 40000 (round_up k.page_size (length c)) y))
      | inr y ↦ rw (e, at, y) (behind (ground (arith, y)) inside)
    ]
  ]

module _ (k : Memory) (law : IsMemory k) {F : Type 0} (refuse : Refuses k F) where
  -- `larger_main` on a file ends in one of the ways of `Seen`, and where it exits with status 1 a call
  -- failed.
  pub larger_main-Seen :
      (program path : String) (i : ℕ) (c : List ℕ) (s : k.State)
      → law.named s path ≡ some i
      → law.file s i ≡ c
      → Seen k F c (larger_main k (program ∷ (path ∷ [])) s)
  unfolding larger_main
  larger_main-Seen program path i c s name bytes = elim (law.opens path i s name) [
    | inl e ↦ rw e (refused (refuse.opening path s e))
    | inr (fd, e, open_fd, files) ↦
        let s1 = (k.open_file path s).1 in
        rw e (elim (law.stats fd i s1 open_fd) [
          | inl e1 ↦ rw e1 (refused (refuse.stating fd s1 e1))
          | inr (e1, inodes, files1) ↦
              let s2 = (k.fstat fd s1).1 in
              let bytes1 : law.file s1 i ≡ c = ap (λ (f : ℕ → List ℕ). f i) files ∙ bytes in
              let bytes2 : law.file s2 i ≡ c = ap (λ (f : ℕ → List ℕ). f i) files1 ∙ bytes1 in
              let open2 : law.inode s2 fd ≡ some i =
                ap (λ (f : ℕ → Option ℕ). f fd) inodes ∙ open_fd in
              rw (e1, bytes1)
                (elim (law.maps_file (2 * length c) fd i s2 open2) [
                  | inl e2 ↦ rw e2 (refused (refuse.mapping (2 * length c) fd s2 e2))
                  | inr (a, e2, files2, now) ↦
                      let s3 = (k.map_file (2 * length c) fd s2).1 in
                      rw e2 (elim (Bool-cases (ltb 40000 (round_up k.page_size (2 * length c)))) [
                        | inr y ↦ outside (ground (arith, y))
                        | inl y ↦
                            let inside = ltb→lt 40000 (round_up k.page_size (2 * length c)) y in
                            let there =
                              now (a + 40000)
                              ∙ replaced_in (law.place s2) a _ (byte_of i) 40000 inside in
                            load_seen k F c (k.load (a + 40000) s3) s3 inside (
                              law.loads (a + 40000) s3
                              ∙ ap (loaded k.page_size (law.file s3)) there
                              ∙ ap
                                  (λ (l : List ℕ). elim (get_elem? l 40000) [
                                    | none ↦ past_end k.page_size l 40000
                                    | some b ↦ some b
                                  ])
                                  (ap (λ (f : ℕ → List ℕ). f i) files2 ∙ bytes2))
                      ])
                ])
        ])
  ]
