-- ===== src/Elf.antt =====
-- The loader of kernel/proc/elf.cpp. The file is the bytes from its address on, apart from the memory
-- that is written; the page tables are a parameter.
pub mod Memory
pub mod Segments
pub mod Ranges
pub mod Checks
use sepples_os.Prelude.{
  ℕ, zero, suc, ◌+◌, ◌-◌, ◌*◌, ◌/◌, ◌%◌, ◌^◌, ◌==◌, ltb, leb, if◌then◌else◌, Bool, true, false, not,
  ◌&&◌, ◌||◌, Option, none, some, update,
}
use sepples_os.Syscalls.{user_offset, user_stack}
use sepples_os.Paging.{page_size}

unfoldable pub half_at : (ℕ → ℕ) → ℕ → ℕ
half_at m a = m a + 2 ^ 8 * m (a + 1)

unfoldable pub word_at : (ℕ → ℕ) → ℕ → ℕ
word_at m a = m a + 2 ^ 8 * m (a + 1) + 2 ^ 16 * m (a + 2) + 2 ^ 24 * m (a + 3)

unfoldable pub is_elf : (ℕ → ℕ) → Bool
is_elf file = (file 0 == 0x7f) && (file 1 == 69) && (file 2 == 76) && (file 3 == 70)

-- A program header, without the fields that are not read.
pub record Segment : Type 0 where
  pub type : ℕ
  pub offset : ℕ
  pub vaddr : ℕ
  pub filesz : ℕ
  pub memsz : ℕ
  pub flags : ℕ

unfoldable pub segment_at : (ℕ → ℕ) → ℕ → Segment
segment_at file a = record {
  type = word_at file a;
  offset = word_at file (a + 4);
  vaddr = word_at file (a + 8);
  filesz = word_at file (a + 16);
  memsz = word_at file (a + 20);
  flags = word_at file (a + 24);
}

-- `getPAddr`, whether it finds a page, and `mapPage` for the process, on the state of all page tables:
-- the first reads those of the kernel, the second writes those of the process.
pub record Pages (T : Type 0) : Type 0 where
  pub is_mapped : ℕ → T → Bool
  pub map_page : ℕ → T → T

-- The memory, the ranges of the process, and the page tables.
pub record Loader (T : Type 0) : Type 0 where
  pub memory : ℕ → ℕ
  pub exec : ℕ × ℕ
  pub bss : ℕ × ℕ
  pub pages : T

-- `memcpy` of `n` bytes, and the loop that writes zeros.
unfoldable pub copy_bytes : ℕ → (ℕ → ℕ) → ℕ → ℕ → (ℕ → ℕ) → ℕ → ℕ
copy_bytes zero file src dst memory = memory
copy_bytes (suc n) file src dst memory =
    copy_bytes n file (suc src) (suc dst) (update memory dst (file src))

unfoldable pub zero_bytes : ℕ → ℕ → (ℕ → ℕ) → ℕ → ℕ
zero_bytes zero dst memory = memory
zero_bytes (suc n) dst memory = zero_bytes n (suc dst) (update memory dst 0)

-- `v_end`, a sum of 32-bit numbers
unfoldable pub end_of : Segment → ℕ
end_of seg = (seg.vaddr + seg.memsz) % 2 ^ 32

unfoldable pub is_accepted : Segment → Bool
is_accepted seg = leb user_offset seg.vaddr && leb (end_of seg) user_stack

-- Where the mapping of pages starts, and how many rounds it has.
unfoldable pub map_start : Segment → ℕ
map_start seg = seg.vaddr / 0x800 * 0x800

unfoldable pub map_rounds : Segment → ℕ
map_rounds seg = (seg.vaddr + seg.filesz - map_start seg + (page_size - 1)) / page_size

abbrev pub set_ranges : {T : Type 0} → Segment → Loader T → Loader T
set_ranges seg l =
    let range : ℕ × ℕ = (seg.vaddr, end_of seg) in
    record l {
      exec = if seg.flags == 5 then range else l.exec;
      bss = if seg.flags == 6 then range else l.bss;
    }

-- `p_memsz > p_filesz`: the bytes behind those of the file.
unfoldable pub load_memory : (ℕ → ℕ) → Segment → (ℕ → ℕ) → ℕ → ℕ
load_memory file seg memory =
    zero_bytes (seg.memsz - seg.filesz) (seg.vaddr + seg.filesz)
      (copy_bytes seg.filesz file seg.offset seg.vaddr memory)

abbrev pub go_on :
    {T : Type 0} → Option (Loader T) → Loader T → (Loader T → Bool × Loader T) → Bool × Loader T
go_on none l rest = (false, l)
go_on (some next) l rest = rest next

module _ {T : Type 0} (P : Pages T) where
  unfoldable pub map_pages : ℕ → ℕ → T → T
  map_pages zero ptr t = t
  map_pages (suc n) ptr t =
      map_pages n (ptr + page_size) (if P.is_mapped ptr t then t else P.map_page ptr t)

  unfoldable pub load_segment : (ℕ → ℕ) → Segment → Loader T → Loader T
  load_segment file seg l =
      let ranged = set_ranges seg l in
      record ranged {
        memory = load_memory file seg l.memory;
        pages = map_pages (map_rounds seg) (map_start seg) l.pages;
      }

  -- What a program header does; nothing is a refusal.
  unfoldable pub take_segment : (ℕ → ℕ) → Segment → Loader T → Option (Loader T)
  take_segment file seg l =
      if seg.type == 1
      then (if is_accepted seg then some (load_segment file seg l) else none)
      else some l

  -- The loop over the program headers from `at` on, up to one that is refused: whether it came to the
  -- end, and what is loaded.
  unfoldable pub load_segments : ℕ → (ℕ → ℕ) → ℕ → Loader T → Bool × Loader T
  load_segments zero file at l = (true, l)
  load_segments (suc n) file at l =
      go_on (take_segment file (segment_at file at) l) l (load_segments n file (at + 32))

  -- The entry point and what is loaded, or the answer 0 and what was loaded before a segment was refused.
  unfoldable pub load_elf : (ℕ → ℕ) → Loader T → ℕ × Loader T
  load_elf file l =
      let (complete, loaded) = load_segments (half_at file 44) file (word_at file 28) l in
      if is_elf file then (if complete then word_at file 24 else 0, loaded) else (0, l)
