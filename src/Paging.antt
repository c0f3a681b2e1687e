-- ===== src/Paging.antt =====
-- The state that kernel/mm/paging.h and kernel/mm/paging.cpp work on, and the physical page bitmap.
-- Physical memory is read and written by 8-byte words at aligned addresses, as the page tables are;
-- the temporary map page that `phyread` and `phywrite` go through is not part of the state.
pub mod Bits
pub mod Frames
pub mod Tables
pub mod Boot
pub mod Walk
pub mod Mapping
pub mod Translate
pub mod Checks
use sepples_os.Prelude.{
  ℕ, zero, suc, ◌+◌, ◌-◌, ◌*◌, ◌/◌, ◌%◌, ◌^◌, ◌≡◌, ◌<◌, Bool, true, false, not, Option, none, some,
  ltb, leb, ◌==◌, if◌then◌else◌, update, bit_and, bit_or,
}

abbrev pub page_size : ℕ
page_size = 0x1000

abbrev pub free_pages_start : ℕ
free_pages_start = 0x100000

abbrev pub pml4_addr : ℕ
pml4_addr = 0x1000

abbrev pub pd0_addr : ℕ
pd0_addr = 0x3000

abbrev pub pt0_addr : ℕ
pt0_addr = 0x4000

-- `physPageBitmap` and `maxPhysPages`, with the physical memory.
pub record Machine : Type 0 where
  pub bitmap : ℕ → ℕ
  pub max_pages : ℕ
  pub mem : ℕ → ℕ

-- byte & (1 << bit), as a test
abbrev pub test_bit : ℕ → ℕ → Bool
test_bit byte bit = not (bit_and byte (2 ^ bit) == 0)

-- byte | (1 << bit) and byte & ~(1 << bit), for a byte
pub set_bit : ℕ → ℕ → ℕ
set_bit byte bit = bit_or byte (2 ^ bit)

pub clear_bit : ℕ → ℕ → ℕ
clear_bit byte bit = bit_and byte (255 - 2 ^ bit)

pub mark_used : ℕ → Machine → Machine
mark_used page m =
    if leb m.max_pages page
    then m
    else record m { bitmap = update m.bitmap (page / 8) (set_bit (m.bitmap (page / 8)) (page % 8)) }

pub mark_free : ℕ → Machine → Machine
mark_free page m = if leb m.max_pages page then m else record m {
  bitmap = update m.bitmap (page / 8) (clear_bit (m.bitmap (page / 8)) (page % 8));
}

-- The overloads on an address, and the truncation of a page number to `unsigned`.
pub mark_used_addr : ℕ → Machine → Machine
mark_used_addr paddr = mark_used (paddr / page_size)

pub mark_free_addr : ℕ → Machine → Machine
mark_free_addr paddr = mark_free (paddr / page_size)

pub mark_used_page_of : ℕ → Machine → Machine
mark_used_page_of paddr = mark_used (paddr / page_size % 2 ^ 32)

-- `for (bit = …; bit < 8; bit++) if (!(byte & (1 << bit)))`, with the bits that are left
pub free_bit : ℕ → ℕ → ℕ → Option ℕ
free_bit byte zero bit = none
free_bit byte (suc n) bit = if test_bit byte bit then free_bit byte n (bit + 1) else some bit

-- The loop over the bytes, with the bytes that are left. A null pointer is 0.
pub free_page : (ℕ → ℕ) → ℕ → ℕ → ℕ
free_page bitmap zero byte = 0
free_page bitmap (suc n) byte =
    let rest = free_page bitmap n (byte + 1) in
    if bitmap byte == 0xFF
    then rest
    else elim (free_bit (bitmap byte) 8 0) [ none ↦ rest | some bit ↦ (8 * byte + bit) * page_size ]

pub get_free_phys_page : Machine → ℕ
get_free_phys_page m = free_page m.bitmap (m.max_pages / 8) 0

-- The bit of a page.
pub is_used : Machine → ℕ → Bool
is_used m page = test_bit (m.bitmap (page / 8)) (page % 8)

pub record IsBytes (m : Machine) : Type 0 where
  pub byte : (i : ℕ) → m.bitmap i < 256
