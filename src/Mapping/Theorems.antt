-- ===== src/Mapping/Theorems.antt =====
-- What a run of 49.1.c does, from its arguments on.
use Prim.Native.String.{String}
use text.Mathlib.TextPositions.{eq_refl as str_refl}
use textbooks.Base.{
  ℕ, ◌-◌, ◌≡◌, ◌≢◌, refl, sym, ap, ◌∙◌, true, false, ◌==◌, some, List, [], ◌∷◌, ◌++◌, arith, length,
  length-append, length-replicate, length-take, take, drop, replicate, append-nil, inl, inr,
  Bool-cases, ==_refl,
}
use textbooks.Base.Ends.{Ends, returned, failed}
use textbooks.Posix.{Posix, IsPosix, Reasons, file_of}
use textbooks.Posix.Opening.{names_differ, names_differ_sym}
use textbooks.Posix.Splice.{take_all, drop_all}
use textbooks.Copy.{read_only}
use textbooks.Copy.Theorems.{IsCopied}
use textbooks.Mapping.Defs.{
  Maps, create_or_open, copy_mapped, map_output, open_output, map_input, map_files, map_main,
}
use textbooks.Mapping.Regions.{resize, IsMaps, Refuses}

length-resize : (n : ℕ) (c : List ℕ) → length (resize n c) ≡ n
length-resize n c = omega (
  arith,
  length-take n (c ++ replicate (n - length c) 0),
  length-append c (replicate (n - length c) 0),
  length-replicate {A = ℕ} (n - length c) 0,
)

module _ (k : Posix) (law : IsPosix k) (m : Maps k) (maps : IsMaps k law m) (old new : String)
    (i : ℕ) (c : List ℕ) where
  -- The bytes are mapped at `a`, and `new` names another file, if one.
  record Source (a : ℕ) (s : k.State) : Type 0 where
    pub mapped : maps.region s a ≡ some (record { inode = i; size = length c; shared = false })
    pub bytes : (law.view s).file i ≡ c
    pub name : (law.view s).named old ≡ some i
    pub differ : (law.view s).named new ≢ some i

  -- `new` names the file `j`, which has as many bytes.
  record Target (j : ℕ) (s : k.State) : Type 0 where
    pub name : (law.view s).named new ≡ some j
    pub other : i ≢ j
    pub size : length ((law.view s).file j) ≡ length c

  module _ {F : Type 0} (blame : Reasons k law F) (refuses : Refuses k law m F) where
    abbrev Copied : k.State → Type 0
    Copied = IsCopied k law old new c

    copy_mapped-Copied :
        (a b j : ℕ) (s : k.State)
        → Source a s
        → Target j s
        → maps.region s b ≡ some (record { inode = j; size = length c; shared = true })
        → Ends F (λ _. Copied) (λ _. ⊥) (copy_mapped k m b a (length c) s)
    unfolding copy_mapped
    copy_mapped-Copied a b j s src dst mapped =
        let v = law.view s in
        let (s1, e, now) =
          maps.copies a b (length c) i j s src.mapped mapped dst.other
            (omega (arith, ap (λ (l : List ℕ). length l) src.bytes)) (omega (arith, dst.size)) in
        let s2 = (m.munmap a (length c) s1).1 in
        let s3 = (m.munmap b (length c) s2).1 in
        let all : take (length c) (v.file i) ++ drop (length c) (v.file j) ≡ c =
          ap (λ (l : List ℕ). take (length c) l ++ drop (length c) (v.file j)) src.bytes
          ∙ ap (λ (l : List ℕ). l ++ drop (length c) (v.file j))
              (take_all (length c) c (omega arith))
          ∙ ap (λ (l : List ℕ). c ++ l) (drop_all (length c) (v.file j) (omega (arith, dst.size)))
          ∙ append-nil c in
        let there : Copied s1 =
          rw (now, all)
            (
              (i, src.name, ground (arith, src.bytes, dst.other)),
              (j, dst.name, rw (==_refl j) refl),
            ) in
        rw e (elim (Bool-cases (m.munmap a (length c) s1).0) [
          | inr y ↦ rw y (failed (refuses.unmapping a (length c) s1 y))
          | inl y ↦ rw y (elim (Bool-cases (m.munmap b (length c) s2).0) [
            | inr z ↦ rw z (failed (refuses.unmapping b (length c) s2 z))
            | inl z ↦ rw z (
                returned {s = s3}
                  (rw (maps.unmaps b (length c) s2, maps.unmaps a (length c) s1) there))
          ])
        ])

    map_output-Copied :
        (a fd d j : ℕ) (s : k.State)
        → Source a s
        → (law.view s).desc fd ≡ some d
        → (law.view s).inode d ≡ j
        → (law.view s).named new ≡ some j
        → i ≢ j
        → Ends F (λ _. Copied) (λ _. ⊥) (map_output k m fd a (length c) s)
    unfolding map_output
    map_output-Copied a fd d j s src open_fd at_inode name other =
        let n = length c in
        let s1 = (m.ftruncate fd n s).1 in
        let s2 = (m.mmap fd n true s1).1 in
        let s3 = (k.close fd s2).1 in
        let (same1, how1) = maps.resizes fd d n s open_fd in
        elim how1 [
          | inl e ↦ rw e (failed (refuses.resizing fd d n s open_fd e))
          | inr (e, now1) ↦
              let open_fd1 : (law.view s1).desc fd ≡ some d = rw now1 open_fd in
              let (same2, how2) = maps.maps fd d n true s1 open_fd1 in
              rw e (elim how2 [
                | inl e2 ↦ rw e2 (failed (refuses.mapping fd d n true s1 open_fd1 e2))
                | inr (b, e2, free, now2) ↦ rw e2 (elim (Bool-cases (k.close fd s2).0) [
                  | inr y ↦ rw y (failed (blame.closing fd d s2 (rw (same2, now1) open_fd) y))
                  | inl y ↦
                      let distinct : a ≢ b = λ q. cc in
                      let others : (a == b) ≡ false = ground (arith, distinct) in
                      let source : Source a s3 = record {
                        mapped = rw (maps.closes fd s2, now2, others, same1) src.mapped;
                        bytes =
                            rw (law.closes fd s2, same2, now1, at_inode)
                              (ground (arith, src.bytes, other));
                        name = rw (law.closes fd s2, same2, now1) src.name;
                        differ = rw (law.closes fd s2, same2, now1) src.differ;
                      } in
                      let target : Target j s3 = record {
                        name = rw (law.closes fd s2, same2, now1) name;
                        other = other;
                        size =
                            rw (law.closes fd s2, same2, now1, at_inode, ==_refl j)
                              (length-resize n (file_of (law.view s) d));
                      } in
                      rw y (
                        copy_mapped-Copied a b j s3 source target
                          (rw (maps.closes fd s2, now2, ==_refl b, now1, at_inode) refl))
                ])
              ])
        ]

    open_output-Copied :
        (a : ℕ) (s : k.State)
        → Source a s
        → Ends F (λ _. Copied) (λ _. ⊥) (open_output k m new a (length c) s)
    unfolding open_output
    open_output-Copied a s src =
        let s1 = (k.open_file new create_or_open s).1 in
        elim (law.opens new create_or_open s) [
          | inl (e, _) ↦ rw e (failed (blame.creating new create_or_open s refl e))
          | inr (fd, d, j, e, free, fresh, which, now) ↦
              let other : i ≢ j = λ q. elim which [
                | inl named ↦ src.differ (rw q named)
                | inr (_, _, unnamed) ↦ unnamed old (rw (← q) src.name)
              ] in
              let source : Source a s1 = record {
                mapped = rw (maps.opens new create_or_open s) src.mapped;
                bytes = rw now (ground (arith, src.bytes, other));
                name =
                    rw (now, names_differ_sym (law.view s) old new i src.name src.differ) src.name;
                differ = rw (now, str_refl new) (λ q. other (ground (arith, q)));
              } in
              rw e (
                map_output-Copied a fd d j s1 source (rw (now, ==_refl fd) refl)
                  (rw (now, ==_refl d) refl) (rw (now, str_refl new) refl) other)
        ]

    map_input-Copied :
        (fd d : ℕ) (s : k.State)
        → (law.view s).desc fd ≡ some d
        → (law.view s).inode d ≡ i
        → (law.view s).file i ≡ c
        → (law.view s).named old ≡ some i
        → (law.view s).named new ≢ some i
        → Ends F (λ _. Copied) (λ _. ⊥) (map_input k m fd new s)
    unfolding map_input
    map_input-Copied fd d s open_fd at_inode bytes name differ =
        let s1 = (m.fstat fd s).1 in
        let (same1, still, how1) = maps.stats fd d s open_fd in
        let content : file_of (law.view s) d ≡ c = ap (law.view s).file at_inode ∙ bytes in
        elim how1 [
          | inl e ↦ rw e (failed (refuses.stating fd d s open_fd e))
          | inr e ↦
              let size : (m.fstat fd s).0 ≡ some (length c) =
                e ∙ ap (λ (l : List ℕ). some (length l)) content in
              let s2 = (m.mmap fd (length c) false s1).1 in
              let (same2, how2) = maps.maps fd d (length c) false s1 (rw same1 open_fd) in
              rw size (elim how2 [
                | inl e2 ↦
                    rw e2 (failed (refuses.mapping fd d (length c) false s1 (rw same1 open_fd) e2))
                | inr (a, e2, free, now2) ↦ rw e2 (elim (Bool-cases (k.close fd s2).0) [
                  | inr y ↦ rw y (failed (blame.closing fd d s2 (rw (same2, same1) open_fd) y))
                  | inl y ↦ rw y (
                      open_output-Copied a (k.close fd s2).1 (record {
                        mapped = rw (maps.closes fd s2, now2, ==_refl a, same1, at_inode) refl;
                        bytes = rw (law.closes fd s2, same2, same1) bytes;
                        name = rw (law.closes fd s2, same2, same1) name;
                        differ = rw (law.closes fd s2, same2, same1) differ;
                      }))
                ])
              ])
        ]

    -- `map_main` called with the names of two different files ends: it returns, and the second file
    -- holds what the first held and still holds, or it exits with status 1, and then a call failed.
    pub map_main-IsCopied :
        (program : String) (s : k.State)
        → (law.view s).named old ≡ some i
        → (law.view s).file i ≡ c
        → (law.view s).named new ≢ some i
        → Ends F
            (λ _. IsCopied k law old new c)
            (λ _. ⊥)
            (map_main k m (program ∷ (old ∷ (new ∷ []))) s)
    unfolding map_main map_files
    map_main-IsCopied program s name bytes differ =
        let s1 = (k.open_file old read_only s).1 in
        elim (law.opens old read_only s) [
          | inl (e, _) ↦ rw e (failed (blame.opening old read_only i s name e))
          | inr (fd, d, i', e, free, fresh, which, now) ↦
              let same : i ≡ i' = ground (arith, name, which) in
              rw e (
                map_input-Copied fd d s1 (rw (now, ==_refl fd) refl)
                  (rw (now, ==_refl d) (sym same)) (rw now (ground (arith, bytes, name)))
                  (rw (now, str_refl old, same) refl)
                  (rw (now, names_differ (law.view s) old new i name differ) differ))
        ]
