-- ===== src/Elf/Ranges.antt =====
-- The bounds that the loader of kernel/proc/elf.cpp tests, and the pages that it maps.
use sepples_os.Prelude.{
  ℕ, ◌+◌, ◌-◌, ◌*◌, ◌/◌, ◌%◌, ◌^◌, ◌≤◌, ◌<◌, ◌≡◌, ◌≢◌, if◌then◌else◌, true, arith, le→leb,
}
use sepples_os.Elf.{Segment, Pages, end_of, is_accepted, load_memory, map_start, map_rounds}
use sepples_os.Syscalls.{user_offset, user_stack}
use sepples_os.Paging.{page_size}
use sepples_os.Elf.Memory.{load_memory-parts}

-- A segment whose end wraps around 32 bits to a small number is accepted, and the byte before its end,
-- above the stack of the user, is written: it becomes 0.
pub is_accepted-wraps :
    (file : ℕ → ℕ) (seg : Segment) (m : ℕ → ℕ)
    → user_offset ≤ seg.vaddr
    → 2 ^ 32 ≤ seg.vaddr + seg.memsz
    → seg.vaddr + seg.memsz ≤ 2 ^ 32 + user_stack
    → seg.filesz < seg.memsz
    → (is_accepted seg ≡ true)
      × (user_stack < seg.vaddr + seg.memsz - 1)
      × (load_memory file seg m (seg.vaddr + seg.memsz - 1) ≡ 0)
unfolding is_accepted end_of
is_accepted-wraps file seg m low wraps small fewer = (
  rw (le→leb user_offset seg.vaddr low) (le→leb _ user_stack (omega arith)),
  omega arith,
  (load_memory-parts file seg m (seg.vaddr + seg.memsz - 1)).1 (omega arith) (omega arith),
)

-- A segment whose address is in the upper half of a page, and whose bytes of the file end in the lower
-- half of a later one: no round of the mapping is in the page of its last byte.
pub map_rounds-misses :
    (seg : Segment)
    → 0x800 ≤ seg.vaddr % page_size
    → 0 < (seg.vaddr + seg.filesz) % page_size
    → (seg.vaddr + seg.filesz) % page_size ≤ 0x800
    → 0 < seg.filesz
    → (k : ℕ) → k < map_rounds seg
    → (map_start seg + page_size * k) / page_size ≢ (seg.vaddr + seg.filesz - 1) / page_size
unfolding map_rounds map_start
map_rounds-misses seg upper ends lower some_bytes k lt e = omega (arith, lt, e, upper, ends, lower)

module _ {T : Type 0} (P : Pages T) where
  -- The turn of an address: it is mapped unless it is found.
  abbrev pub turn : ℕ → T → T
  turn ptr t = if P.is_mapped ptr t then t else P.map_page ptr t

  -- The state of the page tables after some turns.
  pub data Turns : T → T → Type 0 where
    no_turn : {t : T} → Turns t t
    next_turn : {t t' : T} (ptr : ℕ) → Turns (turn ptr t) t' → Turns t t'

  -- A page has its turn between a first and a last state.
  pub record HasTurn (a : ℕ) (first last : T) : Type 0 where
    pub ptr : ℕ
    pub state : T
    pub same_page : ptr / page_size ≡ a / page_size
    pub before : Turns first state
    pub behind : Turns (turn ptr state) last
