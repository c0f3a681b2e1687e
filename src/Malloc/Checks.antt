-- ===== src/Malloc/Checks.antt =====
-- Runs of the heap of kernel/mm/malloc.cpp, and the conditions of its theorems at concrete heaps.
use sepples_os.Prelude.{
  ℕ, ◌+◌, ◌≡◌, List, [], ◌∷◌, true, false, refl, arith, if◌then◌else◌, ◌==◌, ◌++◌,
}
use sepples_os.Malloc.{
  ChunkHeader, Pager, Heap, Run, ok, halted, free_chunk, magic, hsize, size_at, init, free, ◌>>=◌,
  add64, sub64,
}
use sepples_os.Malloc.Chunks.{Chunks, sizes}
use sepples_os.Malloc.Search.{malloc, real_size, fetch_more}
use sepples_os.Malloc.Alloc.{carve, malloc-fits, IsFit}
use sepples_os.Malloc.Free.{free-merges, left_over, given_back, unmapped}
use sepples_os.Malloc.RoundTrip.{free-malloc}
use sepples_os.Malloc.Pages.{fetch_more-Chunks}
use sepples_os.Malloc.Halting.{malloc-halts}

abbrev bump : Pager ℕ
bump = record {
  map_at_page = λ v s. ok (v, s + 1);
  unmap_at_page = λ v s. s;
  get_unmapped = λ s. ok (0x800000, s);
}

-- As `bump`, and a page is chosen when none is asked for.
abbrev fresh : Pager ℕ
fresh = record bump { map_at_page = λ v s. ok (if v == 0 then 0x400000 else v, s + 1) }

abbrev cold : Heap ℕ
cold = record {
  hdr = λ x. free_chunk 0;
  first = 0;
  end = 0;
  mem_used = 0;
  mem_allocated = 0;
  ready = false;
  paging = 0;
}

abbrev used_chunk : ℕ → ChunkHeader
used_chunk n = record { size = n; magic_value = magic; used = true; not_ours = false }

-- A used chunk, a free one, a used one and the free rest of the page
abbrev busy : Heap ℕ
busy = record cold {
  hdr = λ x.
      if x == 0x400000
      then used_chunk 0x40
      else if x == 0x400040
      then free_chunk 0x100
      else if x == 0x400140
      then used_chunk 0x20
      else free_chunk 0xE98;
  first = 0x400000;
  end = 0x400FF8;
  mem_used = 0x1000;
  mem_allocated = 0x50;
  ready = true;
}

abbrev busy_Chunks :
    Chunks busy.hdr 0x400000 0x400FF8
      (used_chunk 0x40 ∷ free_chunk 0x100 ∷ used_chunk 0x20 ∷ free_chunk 0xE98 ∷ [])
busy_Chunks = (
  refl,
  omega arith,
  omega arith,
  refl,
  (
    refl,
    omega arith,
    omega arith,
    refl,
    (refl, omega arith, omega arith, refl, (refl, omega arith, omega arith, refl, refl)),
  ),
)

run_address : Run (ℕ × Heap ℕ) → ℕ
run_address (ok (p, h)) = p
run_address r = 0

-- The first block of a fresh heap, one that a free chunk holds, and one that needs more pages
first_block : run_address (init fresh cold >>= malloc fresh 10 5) ≡ 0x400008
unfolding init malloc run_address
first_block = refl

second_block : run_address (malloc bump 10 0x50 busy) ≡ 0x400048
unfolding malloc run_address
second_block = refl

third_block : run_address (malloc bump 10 0x2000 busy) ≡ 0x400168
unfolding malloc run_address
third_block = refl

abbrev behind_fit : List ChunkHeader
behind_fit = used_chunk 0x20 ∷ free_chunk 0xE98 ∷ []

malloc-fits_example :
    (h' : Heap ℕ) × (malloc bump 10 0x50 busy ≡ ok (0x400048, h'))
    × Chunks h'.hdr h'.first h'.end
        (used_chunk 0x40 ∷ (carve (real_size 0x50) (free_chunk 0x100) ++ behind_fit))
    × (h'.first ≡ 0x400000)
    × (h'.end ≡ 0x400FF8)
    × (h'.mem_used ≡ 0x1000)
    × (h'.mem_allocated ≡ add64 0x50 (sub64 (size_at h' 0x400040) hsize))
    × (h'.ready ≡ true)
unfolding sizes
malloc-fits_example =
    malloc-fits bump 0x50 10 0x800000 0 (used_chunk 0x40 ∷ []) behind_fit (free_chunk 0x100) busy
      refl (omega arith) refl busy_Chunks (refl, refl, refl, tt)
      (record { unused_now = refl; fits = omega arith }) (omega arith)

-- As `bump`, and the unmapped addresses are counted up.
abbrev counting : Pager ℕ
counting = record bump { unmap_at_page = λ v s. s + v }

-- A used chunk, and one of more than two pages at the end
abbrev wide : Heap ℕ
wide = record busy {
  hdr = λ x. if x == 0x400000 then used_chunk 0x40 else used_chunk 0x2FB8;
  end = 0x402FF8;
  mem_used = 0x3000;
}

free-merges_example :
    (h' : Heap ℕ) × (free counting 0x400048 wide ≡ ok h')
    × Chunks h'.hdr h'.first h'.end (used_chunk 0x40 ∷ free_chunk 0xFB8 ∷ [])
    × (h'.end ≡ 0x400FF8)
    × (h'.mem_used ≡ 0x1000)
    × (h'.mem_allocated ≡ sub64 0x50 0x2FB0)
    × (h'.ready ≡ true)
    × (h'.paging ≡ unmapped counting 2 (h'.end + hsize) 0)
unfolding sizes left_over given_back
free-merges_example =
    free-merges counting (used_chunk 0x40 ∷ []) [] [] (used_chunk 0x2FB8) wide refl (omega arith)
      (omega arith)
      (refl, omega arith, omega arith, refl, (refl, omega arith, omega arith, refl, refl)) refl tt
      tt

free-malloc_example :
    (p : ℕ) × (h' : Heap ℕ) × (h'' : Heap ℕ) × (malloc bump 10 0x50 busy ≡ ok (p, h'))
    × (free bump p h' ≡ ok h'')
    × Chunks h''.hdr h''.first h''.end (used_chunk 0x40 ∷ free_chunk 0x100 ∷ behind_fit)
    × (h''.mem_used ≡ 0x1000)
    × (h''.mem_allocated ≡ 0x50)
free-malloc_example =
    free-malloc bump 0x50 10 0x800000 0 (used_chunk 0x40 ∷ []) (free_chunk 0xE98 ∷ [])
      (free_chunk 0x100) (used_chunk 0x20) busy refl (omega arith) (omega arith) (omega arith)
      (omega arith) refl busy_Chunks (refl, refl, refl, tt)
      (record { unused_now = refl; fits = omega arith }) refl (omega arith)

abbrev full : Heap ℕ
full = record busy { hdr = λ x. used_chunk 0xFF8 }

fetch_more-Chunks_example :
    (h' : Heap ℕ) × (fetch_more bump 0x2000 (real_size 0x2000) 0x400000 full ≡ ok (0x400FF8, h'))
    × Chunks h'.hdr h'.first h'.end (used_chunk 0xFF8 ∷ free_chunk 0x3000 ∷ [])
    × IsFit (real_size 0x2000) (free_chunk 0x3000)
    × (h'.end ≡ 0x403FF8)
    × (h'.mem_used ≡ 0x4000)
unfolding sizes
fetch_more-Chunks_example =
    fetch_more-Chunks bump 0x2000 [] (used_chunk 0xFF8) full
      (1, (refl, (2, (refl, (3, (refl, tt)))))) (refl, omega arith, omega arith, refl, refl) refl
      refl (omega arith) (omega arith)

abbrev tight : Heap ℕ
tight = record busy { hdr = λ x. if x == 0x400000 then used_chunk 0xFE0 else free_chunk 0x18 }

malloc-halts_example : malloc bump 10 8 tight ≡ halted
malloc-halts_example =
    malloc-halts bump 8 10 0x800000 0 (used_chunk 0xFE0 ∷ []) (free_chunk 0x18) tight refl refl
      (refl, omega arith, omega arith, refl, (refl, omega arith, omega arith, refl, refl))
      (refl, refl, refl, (refl, refl, refl, tt))
      (record {
        unused_now = refl;
        some_bytes = omega arith;
        holds = omega arith;
        too_small = omega arith;
      })
      refl (omega arith)
