-- ===== src/Paging/Boot.antt =====
-- `Paging::init` of kernel/mm/paging.cpp: the bitmap of the physical pages at boot.
use sepples_os.Prelude.{
  ℕ, zero, suc, ◌+◌, ◌*◌, ◌/◌, ◌%◌, ◌^◌, ◌≡◌, ◌<◌, refl, true, false, ◌&&◌, ltb, leb, ◌==◌,
  if◌then◌else◌, update, arith, ◌∙◌,
}
use sepples_os.Paging.{Machine, IsBytes, page_size, free_pages_start, pt0_addr, is_used, mark_used}
use sepples_os.Paging.Bits.{test_bit_zero}
use sepples_os.Paging.Frames.{mark_used-IsBytes, is_used-mark_used}

-- a / b + (bool)(a % b)
abbrev pub div_up : ℕ → ℕ → ℕ
div_up a b = a / b + (if a % b == 0 then 0 else 1)

-- `for (i = …; i < …; ++i) markPhysPageUsed(first + i)`, with the rounds that are left
pub mark_range : ℕ → ℕ → Machine → Machine
mark_range zero page m = m
mark_range (suc n) page m = mark_range n (page + 1) (mark_used page m)

-- The entries of page table 0 for the bitmap itself.
pub map_bitmap : ℕ → ℕ → Machine → Machine
map_bitmap zero i m = m
map_bitmap (suc n) i m = map_bitmap n (i + 1) (record m {
  mem =
      update m.mem (pt0_addr + (free_pages_start / page_size + i) * 8)
        (free_pages_start + i * page_size + 3);
})

zero_bitmap : ℕ → Machine → Machine
zero_bitmap size m = record m { bitmap = λ i. if ltb i size then 0 else m.bitmap i }

abbrev pub pages_of : ℕ → ℕ
pages_of available = div_up available page_size % 2 ^ 32

abbrev pub bitmap_pages : ℕ → ℕ
bitmap_pages available = div_up (div_up (pages_of available) 8) page_size

pub init : ℕ → Machine → Machine
init available m =
    let start = record m { max_pages = pages_of available } in
    let mapped = map_bitmap (bitmap_pages available) 0 start in
    let zeroed = zero_bitmap (div_up (pages_of available) 8) mapped in
    let own = mark_range (bitmap_pages available) (free_pages_start / page_size) zeroed in
    mark_range (free_pages_start / page_size) 0 own

max_pages-mark_used : (page : ℕ) (m : Machine) → (mark_used page m).max_pages ≡ m.max_pages
unfolding mark_used
max_pages-mark_used page m = ground arith

max_pages-mark_range : (n page : ℕ) (m : Machine) → (mark_range n page m).max_pages ≡ m.max_pages
unfolding mark_range mark_used
max_pages-mark_range zero page m = refl
max_pages-mark_range (suc n) page m =
    ground (arith, max_pages-mark_range n (page + 1) (mark_used page m))

mark_range-IsBytes : (n page : ℕ) (m : Machine) → IsBytes m → IsBytes (mark_range n page m)
unfolding mark_range
mark_range-IsBytes zero page m v = v
mark_range-IsBytes (suc n) page m v = mark_range-IsBytes n (page + 1) _ (mark_used-IsBytes page m v)

is_used-mark_range :
    (n page q : ℕ) (m : Machine)
    → IsBytes m
    → q < m.max_pages
    → is_used (mark_range n page m) q
      ≡ (if leb page q && ltb q (page + n) then true else is_used m q)
unfolding mark_range
is_used-mark_range zero page q m v h = ground arith
is_used-mark_range (suc n) page q m v h =
    let ih = is_used-mark_range n (page + 1) q (mark_used page m) (mark_used-IsBytes page m v) in
    let one = is_used-mark_used page q m v in
    let same = max_pages-mark_used page m in ih (omega arith) ∙ ground arith

map_bitmap-bitmap : (n i : ℕ) (m : Machine) → (map_bitmap n i m).bitmap ≡ m.bitmap
unfolding map_bitmap
map_bitmap-bitmap zero i m = refl
map_bitmap-bitmap (suc n) i m = map_bitmap-bitmap n (i + 1) _

map_bitmap-max_pages : (n i : ℕ) (m : Machine) → (map_bitmap n i m).max_pages ≡ m.max_pages
unfolding map_bitmap
map_bitmap-max_pages zero i m = refl
map_bitmap-max_pages (suc n) i m = map_bitmap-max_pages n (i + 1) _

-- The machine of `init` before any page is marked.
abbrev zeroed_machine : ℕ → Machine → Machine
zeroed_machine available m =
    zero_bitmap (div_up (pages_of available) 8)
      (map_bitmap (bitmap_pages available) 0 (record m { max_pages = pages_of available }))

zeroed_machine-IsBytes :
    (available : ℕ) (m : Machine) → IsBytes m → IsBytes (zeroed_machine available m)
unfolding zero_bitmap
zeroed_machine-IsBytes available m v = record {
  byte = λ i.
      rw
        (map_bitmap-bitmap (bitmap_pages available) 0 (record m { max_pages = pages_of available }))
        (ground (arith, v.byte i));
}

zeroed_machine-max_pages :
    (available : ℕ) (m : Machine) → (zeroed_machine available m).max_pages ≡ pages_of available
unfolding zero_bitmap
zeroed_machine-max_pages available m = map_bitmap-max_pages (bitmap_pages available) 0 _

zeroed_machine_clear :
    (available : ℕ) (m : Machine) (q : ℕ)
    → q < pages_of available
    → is_used (zeroed_machine available m) q ≡ false
unfolding zero_bitmap is_used
zeroed_machine_clear available m q h =
    let inside : ltb (q / 8) (div_up (pages_of available) 8) ≡ true = ground arith in
    rw inside (test_bit_zero (q % 8) (omega arith))

-- After `init` a physical page is marked as used exactly if it lies below the free pages or holds
-- a part of the bitmap.
pub init_used :
    (available : ℕ) (m : Machine)
    → IsBytes m
    → (q : ℕ) → q < pages_of available
    → is_used (init available m) q ≡ ltb q (free_pages_start / page_size + bitmap_pages available)
unfolding init
init_used available m v q h = rw (is_used-mark_range 256 0 q own own-IsBytes own-lt) (
    rw (is_used-mark_range (bitmap_pages available) 256 q zeroed zeroed-IsBytes zeroed-lt)
      (ground (arith, zeroed-clear)))
  where
    zeroed : Machine
    zeroed = zeroed_machine available m

    own : Machine
    own = mark_range (bitmap_pages available) 256 zeroed

    zeroed-IsBytes : IsBytes zeroed
    zeroed-IsBytes = zeroed_machine-IsBytes available m v

    own-IsBytes : IsBytes own
    own-IsBytes = mark_range-IsBytes (bitmap_pages available) 256 zeroed zeroed-IsBytes

    zeroed-lt : q < zeroed.max_pages
    zeroed-lt = rw (zeroed_machine-max_pages available m) h

    own-lt : q < own.max_pages
    own-lt = rw (max_pages-mark_range (bitmap_pages available) 256 zeroed) zeroed-lt

    zeroed-clear : is_used zeroed q ≡ false
    zeroed-clear = zeroed_machine_clear available m q h
