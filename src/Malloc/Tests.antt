-- ===== src/Malloc/Tests.antt =====
-- Runs of the allocator over a program break that always moves, and the theorems at small heaps.
use textbooks.Base.{
  ℕ, suc, ◌+◌, ◌-◌, ◌^◌, ◌≡◌, ◌≤◌, refl, ap, ◌≢◌, inl, inr, Bool, true, false, ◌==◌, if◌then◌else◌,
  arith, List, [], ◌∷◌, ok, fault, Run, Bool-cases,
}
use mathlib.Core.Path.{fun_ext}
use textbooks.Base.Int.{ℤ, pos, negsuc}
use textbooks.Base.Returns.{Returns}
use textbooks.Malloc.Defs.{
  Kernel, FreeL, Heap, update, load, store, pop_from_free_list, hole_sz, best_fit, new_block,
  find_top, release, c_malloc, c_free, program_break,
}
use textbooks.Malloc.Chain.{IsSbrk, IsSuffix}
use textbooks.Malloc.Layout.{Layout}
use textbooks.Malloc.Invariant.{IsHeap, remove, insert, in_use, chunk_of, pop_lem}
use textbooks.Malloc.Alloc.{Allocated, c_malloc_lem}
use textbooks.Malloc.GiveBack.{Settled, Lowered}
use textbooks.Malloc.Free.{c_free_lem}
use textbooks.Malloc.History.{begin, malloc, History-Layout}
use textbooks.Malloc.Main.{
  Program, Printed, set_char, get_char, set_int, get_int, put_int, int_of, use_ch, use_arr,
  use_arr2, first_blocks, last_block, main,
}
use textbooks.Malloc.Course.{main_lem}
use textbooks.Malloc.Limits.{c_malloc_exhausted, c_malloc_truncates}

-- The break is a number.
abbrev moves : ℤ → ℕ → ℕ × ℕ
moves (pos n) s = (s, s + n)
moves (negsuc n) s = (s, s - suc n)

abbrev kernel : Kernel
kernel = record { State = ℕ; sbrk = moves }

kernel-IsSbrk : IsSbrk kernel 4096
kernel-IsSbrk = record {
  asks = λ s. omega arith;
  grows = λ n s. inr (omega arith, omega arith);
  shrinks = λ n s h. omega arith;
}

abbrev start : Heap kernel
start = record {
  head = 0;
  nodes = λ _. record { chunk_size = 0; previous = 0; next = 0 };
  os = 4096;
}

abbrev program : Program kernel
program = record { heap = start; ints = λ _. 0 }

start-IsHeap : IsHeap 4096 start (λ _. false) []
start-IsHeap = record {
  chain = refl;
  nodup = tt;
  separate = λ a u. refl;
  layout = record { bounds = λ a u. ground arith; apart = λ a c u v ne. ground arith };
  above = omega arith;
  based = omega arith;
}

abbrev result : Run (Program kernel) Printed → ℕ × ℕ × ℕ × ℕ × ℕ
result (ok out s) = (out.ch, out.arr, out.arr2, s.heap.head, s.heap.os)
result _ = (0, 0, 0, 0, 0)

result-main : result (main program) ≡ (4104, 4129, 4129, 0, 4096)
unfolding main first_blocks last_block use_ch use_arr use_arr2 set_char get_char set_int get_int
    put_int int_of load store pop_from_free_list hole_sz best_fit new_block find_top release
    c_malloc c_free
result-main = refl

main_lem_example :
    Returns
      (λ out s.
        (out ≡ record {
          ch = 4104;
          letter = 82;
          arr = 4129;
          ints = (1, 101);
          arr2 = 4129;
          longs = (34, 33);
        })
        × (program_break s.heap ≡ 4096)
        × IsHeap 4096 s.heap (λ _. false) []
        × ((a : ℕ) → false ≡ true → s.heap.nodes a ≡ start.nodes a))
      (main program)
main_lem_example =
    main_lem kernel-IsSbrk program (λ _. false) start-IsHeap (omega arith)
      (λ n os small. omega arith)

-- A client's block of 40 bytes at 4096, and a free one of 24 bytes behind it.
abbrev two_nodes : ℕ → FreeL
two_nodes a =
    if a == 4096
    then record { chunk_size = 40; previous = 7; next = 9 }
    else record { chunk_size = 24; previous = 0; next = 0 }

abbrev two_blocks : Heap kernel
two_blocks = record { head = 4144; nodes = two_nodes; os = 4176 }

abbrev one_live : ℕ → Bool
one_live a = a == 4096

two_blocks-Layout : Layout 4096 4176 (chunk_of two_nodes) (in_use one_live (4144 ∷ []))
two_blocks-Layout = record { bounds = λ a u. ground arith; apart = λ a b u v ne. ground arith }

two_blocks-IsHeap : IsHeap 4096 two_blocks one_live (4144 ∷ [])
two_blocks-IsHeap = record {
  chain = (refl, omega arith, refl, refl);
  nodup = (refl, tt);
  separate = λ a u. ground arith;
  layout = two_blocks-Layout;
  above = omega arith;
  based = omega arith;
}

c_malloc_lem_example :
    Returns (Allocated 4096 two_blocks one_live (4144 ∷ []) 20) (c_malloc 2 20 two_blocks)
c_malloc_lem_example =
    c_malloc_lem kernel-IsSbrk two_blocks one_live (4144 ∷ []) 2 20 two_blocks-IsHeap (omega arith)
      (omega arith) (omega arith) (omega arith)

c_free_lem_example :
    Returns
      (λ _ h'.
        (ys : List ℕ) × IsSuffix ys (4096 ∷ (4144 ∷ []))
        × IsHeap 4096 h' (remove one_live 4096) ys
        × Settled h' ys
        × (program_break h' ≤ 4176)
        × ((a : ℕ) → a ≢ 4096 → h'.nodes a ≡ two_nodes a)
        × (chunk_of h'.nodes 4096 ≡ chunk_of two_nodes 4096)
        × Lowered two_blocks (4096 ∷ (4144 ∷ [])) h' ys)
      (c_free 3 4104 two_blocks)
c_free_lem_example =
    c_free_lem kernel-IsSbrk two_blocks one_live (4144 ∷ []) 3 4096 two_blocks-IsHeap refl
      (omega arith) (omega arith)

pop_lem_example : pop_from_free_list 4144 two_blocks ≡ ok tt (record two_blocks { head = 0 })
pop_lem_example = pop_lem two_blocks-IsHeap 4144 refl

-- The heap after `c_malloc(1)` on an empty one.
abbrev grown : Heap kernel
grown = record {
  head = 0;
  nodes =
      λ a. if a == 4096 then record { chunk_size = 17; previous = 0; next = 0 } else start.nodes a;
  os = 4121;
}

abbrev set_nodes : ℕ → FreeL
set_nodes =
    update
      (update (update start.nodes 4096 (record { chunk_size = 17; previous = 0; next = 0 })) 4096
        (record { chunk_size = 17; previous = 0; next = 0 }))
      4096 (record { chunk_size = 17; previous = 0; next = 0 })

set_nodes-grown : (a : ℕ) → set_nodes a ≡ grown.nodes a
set_nodes-grown a = ground arith

grows_by_one : c_malloc 2 1 start ≡ ok 4104 grown
unfolding load store new_block c_malloc
grows_by_one =
    ap (λ (f : ℕ → FreeL). ok 4104 (record { head = 0; nodes = f; os = 4121 }))
      (fun_ext set_nodes-grown)

History-Layout_example : Layout 4096 4121 (chunk_of grown.nodes) (insert (λ _. false) 4096)
History-Layout_example =
    History-Layout kernel-IsSbrk start refl (omega arith) (omega arith) (omega arith) (
      malloc 1 4096 (begin (λ _. refl)) (omega arith) (omega arith) (λ e. omega arith) grows_by_one
        refl)

-- Three entries chained both ways, and the middle one popped.
abbrev three_nodes : ℕ → FreeL
three_nodes a =
    if a == 4096
    then record { chunk_size = 24; previous = 0; next = 4128 }
    else if a == 4128
    then record { chunk_size = 24; previous = 4096; next = 4160 }
    else record { chunk_size = 24; previous = 4128; next = 0 }

abbrev three_entries : Heap kernel
three_entries = record { head = 4096; nodes = three_nodes; os = 4192 }

-- A break that cannot grow.
abbrev stuck : ℤ → ℕ → ℕ × ℕ
stuck (pos n) s = if n == 0 then (s, s) else (2 ^ 64 - 1, s)
stuck (negsuc n) s = (s, s - suc n)

abbrev full_kernel : Kernel
full_kernel = record { State = ℕ; sbrk = stuck }

full_kernel-IsSbrk : IsSbrk full_kernel 4096
full_kernel-IsSbrk = record {
  asks = λ s. omega arith;
  grows = λ n s. elim (Bool-cases (n == 0)) [
    | inl z ↦ rw z (inr (refl, ground (arith, z)))
    | inr z ↦ rw z (inl (refl, refl))
  ];
  shrinks = λ n s h. omega arith;
}

abbrev full : Heap full_kernel
full = record { head = 4144; nodes = two_nodes; os = 4176 }

full-IsHeap : IsHeap 4096 full one_live (4144 ∷ [])
full-IsHeap = record {
  chain = (refl, omega arith, refl, refl);
  nodup = (refl, tt);
  separate = λ a u. ground arith;
  layout = two_blocks-Layout;
  above = omega arith;
  based = omega arith;
}

c_malloc_exhausted_example : c_malloc 2 100 full ≡ fault
c_malloc_exhausted_example =
    c_malloc_exhausted full_kernel-IsSbrk full one_live (4144 ∷ []) 2 100 full-IsHeap
      (λ x h. ground arith) (omega arith) (omega arith) refl (omega arith)

-- A request of 4 GiB less 76 bytes gets the block of 24 bytes.
c_malloc_truncates_example :
    c_malloc 2 (24 + 2 ^ 32 - 100) two_blocks ≡ ok 4152 (record two_blocks { head = 0 })
c_malloc_truncates_example =
    c_malloc_truncates two_blocks one_live 4144 0 100 two_blocks-IsHeap (omega arith) (omega arith)
      (omega arith)
