-- ===== src/Elf/Checks.antt =====
-- Segments of kernel/proc/elf.cpp on concrete files.
use sepples_os.Prelude.{
  ℕ, zero, suc, ◌+◌, ◌-◌, ◌*◌, ◌/◌, ◌<◌, ◌≡◌, ◌≢◌, ◌==◌, if◌then◌else◌, Bool, true, false, inl,
  arith, ◌||◌,
}
use sepples_os.Elf.{
  Segment, Pages, Loader, is_accepted, load_memory, load_elf, map_start, map_rounds, segment_at,
}
use sepples_os.Syscalls.{user_stack}
use sepples_os.Paging.{page_size}
use sepples_os.Elf.Segments.{load_elf-outside, IsPlain}
use sepples_os.Elf.Ranges.{is_accepted-wraps, map_rounds-misses}

-- Page tables that are a test of the page numbers.
abbrev tables : Pages (ℕ → Bool)
tables = record {
  is_mapped = λ p t. t (p / page_size);
  map_page = λ p t q. (p / page_size == q) || t q;
}

abbrev empty_loader : Loader (ℕ → Bool)
empty_loader = record { memory = λ a. 9; exec = (0, 0); bss = (0, 0); pages = λ p. false }

abbrev code : Segment
code = record {
  type = 1;
  offset = 0x1000;
  vaddr = 0x40000010;
  filesz = 0x1800;
  memsz = 0x2000;
  flags = 5;
}

abbrev wrapping : Segment
wrapping = record {
  type = 1;
  offset = 0x1000;
  vaddr = 0xC0000000;
  filesz = 0x100;
  memsz = 0x50000000;
  flags = 6;
}

is_accepted-wraps_example :
    (is_accepted wrapping ≡ true)
    × (user_stack < 0xC0000000 + 0x50000000 - 1)
    × (load_memory (λ a. 1) wrapping (λ a. 9) (0xC0000000 + 0x50000000 - 1) ≡ 0)
is_accepted-wraps_example =
    is_accepted-wraps (λ a. 1) wrapping (λ a. 9) (omega arith) (omega arith) (omega arith)
      (omega arith)

abbrev upper_half : Segment
upper_half = record {
  type = 1;
  offset = 0;
  vaddr = 0x40000800;
  filesz = 0x900;
  memsz = 0x900;
  flags = 5;
}

map_rounds-misses_example :
    (map_start upper_half + page_size * 0) / page_size ≢ (0x40000800 + 0x900 - 1) / page_size
unfolding map_start map_rounds
map_rounds-misses_example =
    map_rounds-misses upper_half (omega arith) (omega arith) (omega arith) (omega arith) 0
      (omega arith)

-- An executable with a segment of four bytes and four zeros at 0x40000000.
abbrev program : ℕ → ℕ
program a =
    if a == 0
    then 0x7f
    else if a == 1
    then 69
    else if a == 2
    then 76
    else if a == 3
    then 70
    else if a == 28
    then 52
    else if a == 44
    then 1
    else if a == 52
    then 1
    else if a == 63
    then 0x40
    else if a == 68
    then 4
    else if a == 72
    then 8
    else 0

program-IsPlain : (i : ℕ) → i < 1 → IsPlain (segment_at program (52 + 32 * i))
unfolding segment_at sepples_os.Elf.word_at
program-IsPlain zero lt = (omega arith, omega arith)
program-IsPlain (suc i) lt = absurd (omega arith)

load_elf-outside_example : (load_elf tables program empty_loader).1.memory 0x1000 ≡ 9
unfolding sepples_os.Elf.half_at sepples_os.Elf.word_at
load_elf-outside_example =
    load_elf-outside tables program empty_loader 0x1000 program-IsPlain (inl (omega arith))
