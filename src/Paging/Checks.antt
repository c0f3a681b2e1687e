-- ===== src/Paging/Checks.antt =====
-- Tests of the page allocator and the page tables, and the theorems about them at a concrete
-- machine: the tables of the kernel at 0x1000 to 0x4FFF, the first 256 pages used, 4 MB of memory.
use sepples_os.Prelude.{
  ℕ, ◌≡◌, refl, ◌≢◌, arith, ltb, ◌==◌, if◌then◌else◌, true, false, ◌/◌, ◌%◌, ◌*◌, ◌+◌, ◌⊎◌, ◌<◌,
}
use sepples_os.Paging.{
  Machine, IsBytes, page_size, mark_used_page_of, is_used, get_free_phys_page, mark_used, free_page,
  free_bit, some,
}
use sepples_os.Paging.Bits.{test_bit_full}
use sepples_os.Paging.Tables.{
  write, map_at, ensure_table, map_entry, zero_page, get_paddr, base, unmap_page, attributes,
}
use sepples_os.Paging.Walk.{IsTyped}
use sepples_os.Paging.Mapping.{lookup, map_at-Mapped}
use sepples_os.Paging.Translate.{get_paddr-map_at, unmap_page-mapped}

abbrev kernel : Machine
kernel = record {
  bitmap = λ i. if ltb i 32 then 255 else 0;
  max_pages = 1024;
  mem = λ a.
      if a == 0x1000
      then 0x2003
      else if a == 0x2000
      then 0x3003
      else if a == 0x3000
      then 0x4003
      else 0;
}

abbrev levels : ℕ → ℕ
levels p = if p == 1 then 4 else if p == 2 then 3 else if p == 3 then 2 else if p == 4 then 1 else 0

kernel-IsBytes : IsBytes kernel
kernel-IsBytes = record { byte = λ i. ground arith }

kernel_used : (p : ℕ) → levels p ≢ 0 → is_used kernel p ≡ true
unfolding is_used
kernel_used p h =
    let low : ltb (p / 8) 32 ≡ true = ground arith in rw low (test_bit_full (p % 8) (omega arith))

kernel-IsTyped : IsTyped levels kernel
kernel-IsTyped = record {
  bytes = kernel-IsBytes;
  small = omega arith;
  used = kernel_used;
  points = λ a k h q. ground arith;
  clean = λ a h q. ground arith;
}

first_free_page : get_free_phys_page kernel ≡ 0x100000
unfolding get_free_phys_page free_page free_bit
first_free_page = refl

-- Page 0x12345000 maps to frame 0x200000, which builds a page table in the first free frame.
abbrev after_map : Machine
after_map = mark_used_page_of 0x200000 (
    write (0x100000 + 0x145 * 8) 0x200007
      (write (0x3000 + 0x91 * 8) 0x100007 (zero_page 0x100000 (mark_used 0x100 kernel))))

map_runs : map_at 0x12345000 0x200000 4 0x1000 kernel ≡ some (0x12345000, after_map)
unfolding map_at ensure_table map_entry get_free_phys_page free_page free_bit mark_used_page_of
map_runs = refl

abbrev frame : ℕ
frame = 0x200000

abbrev address : ℕ
address = 0x12345000

map_at-Mapped_example :
    ((lvl' : ℕ → ℕ) × (IsTyped lvl' after_map × (lvl' (0x1000 / page_size) ≡ 4)))
    × ((address ≡ 0)
        ⊎ ((address ≡ address)
            × ((p : ℕ) × ((lookup 0x1000 address after_map ≡ some (base p + attributes 4))
                  × (p ≢ 0)
                  × ((p ≡ frame)
                      ⊎ ((frame ≡ 0)
                          × ((p % page_size ≡ 0)
                              × (p / page_size < kernel.max_pages)
                              × (is_used kernel (p / page_size) ≡ false)
                              × (is_used after_map (p / page_size) ≡ true))))))))
map_at-Mapped_example =
    map_at-Mapped levels 0x1000 0x12345000 0x200000 4 kernel kernel-IsTyped (omega arith) refl refl
      0x12345000 after_map map_runs

get_paddr-map_at_example : get_paddr 0x12345000 after_map ≡ 0x200000
get_paddr-map_at_example =
    get_paddr-map_at levels 0x12345000 0x200000 4 kernel after_map kernel-IsTyped (omega arith) refl
      (omega arith) (omega arith) refl map_runs

-- The same machine with the frame 0x105000 mapped at 0x105000.
abbrev one_mapped : Machine
one_mapped = write (0x4000 + 0x105 * 8) 0x105003 kernel

one_mapped-IsTyped : IsTyped levels one_mapped
unfolding is_used
one_mapped-IsTyped = record {
  bytes = record { byte = λ i. ground arith };
  small = omega arith;
  used = kernel_used;
  points = λ a k h q. ground arith;
  clean = λ a h q. ground arith;
}

unmap_page-mapped_example :
    (lookup 0x1000 0x105000 (unmap_page 0x105000 one_mapped) ≡ some 0)
    × (get_paddr 0x105000 (unmap_page 0x105000 one_mapped) ≡ 0)
    × (is_used (unmap_page 0x105000 one_mapped) 0x105 ≡ false)
    × ((q : ℕ) → q ≢ 0x105 → is_used (unmap_page 0x105000 one_mapped) q ≡ is_used one_mapped q)
    × ((place : ℕ) × ((one_mapped.mem place ≡ 0x105003)
          × ((a : ℕ)
              → (unmap_page 0x105000 one_mapped).mem a
                ≡ (if place == a then 0 else one_mapped.mem a))))
unfolding lookup
unmap_page-mapped_example =
    unmap_page-mapped levels 0x105000 0x105003 one_mapped one_mapped-IsTyped refl refl refl
      (omega arith)
